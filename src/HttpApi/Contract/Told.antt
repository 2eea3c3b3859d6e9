-- ===== src/HttpApi/Contract/Told.antt =====
-- The names of the fields that a producer is told of when the validator refuses its request.
use mathlib.Core.Path.{subst}
use emovis_micro_service.Base.{
  inr, inl, Text, lit, is_empty, false, List, Option, none, some, All, All-append, ◌≡◌, arith,
  Option-cases,
}
use emovis_micro_service.HttpApi.ApiError.{FieldError}
use emovis_micro_service.HttpApi.Contract.{
  SchemaError, RequestError, SpecError, multi, schema, request, other, Wrapped, nothing, wraps,
  SpecErrors, no_more, more, schema_field_name, field_error_from_schema, field_error_from_request,
  as_schema, as_request, as_request_wrapped, single, or_single, collect_multi, collect_wrapped,
  collect_all, field_errors_from_spec_validation,
}

-- What the library does not leave empty: the name of a parameter and the text of an error.
abbrev HasText : Option Text → Type 0
HasText none = Unit
HasText (some name) = is_empty name ≡ false

abbrev IsNamed : RequestError → Type 0
IsNamed e = HasText e.parameter

unfoldable mutual
  pub HasNames : SpecError → Type 0
  HasNames (multi es) = AllHaveNames es
  HasNames (schema e w) = WrapsNames w
  HasNames (request e w) = IsNamed e × WrapsNames w
  HasNames (other w) = WrapsNames w

  pub WrapsNames : Wrapped → Type 0
  WrapsNames nothing = Unit
  WrapsNames (wraps e) = HasNames e

  pub AllHaveNames : SpecErrors → Type 0
  AllHaveNames no_more = Unit
  AllHaveNames (more e es) = HasNames e × AllHaveNames es

-- A field error that names a field.
abbrev pub Named : FieldError → Type 0
Named f = is_empty f.field ≡ false

field_error_from_schema-Named : (e : SchemaError) → Named (field_error_from_schema e)
unfolding field_error_from_schema schema_field_name lit
field_error_from_schema-Named e = ground arith

field_error_from_request-Named : (e : RequestError) → IsNamed e → Named (field_error_from_request e)
unfolding field_error_from_request lit
field_error_from_request-Named e h = elim (Option-cases e.parameter) [
  | inl absent ↦ ground arith
  | inr (name, there) ↦ simp (there, field_error_from_request) (subst HasText there h)
]

mutual
  unfolding as_request as_request_wrapped HasNames WrapsNames

  as_request-IsNamed :
      (e : SpecError) (r : RequestError) → HasNames e → as_request e ≡ some r → IsNamed r
  as_request-IsNamed (multi es) r n h = absurd (ground arith)
  as_request-IsNamed (schema s w) r n h = as_request_wrapped-IsNamed w r n h
  as_request-IsNamed (request q w) r n h = let same : q ≡ r = ground arith in subst IsNamed same n.0
  as_request-IsNamed (other w) r n h = as_request_wrapped-IsNamed w r n h

  as_request_wrapped-IsNamed :
      (w : Wrapped) (r : RequestError) → WrapsNames w → as_request_wrapped w ≡ some r → IsNamed r
  as_request_wrapped-IsNamed nothing r n h = absurd (ground arith)
  as_request_wrapped-IsNamed (wraps e) r n h = as_request-IsNamed e r n h

single-Named : (e : SpecError) → HasNames e → All Named (single e)
unfolding single
single-Named e n = elim (Option-cases (as_schema e)) [
  | inr (s, found) ↦ simp (found, single) (field_error_from_schema-Named s, tt)
  | inl no_schema ↦ elim (Option-cases (as_request e)) [
    | inr (r, found) ↦
        simp (no_schema, found, single)
          (field_error_from_request-Named r (as_request-IsNamed e r n found), tt)
    | inl no_request ↦ simp (no_schema, no_request, single) tt
  ]
]

-- The fields of a multiple error, if there is one.
abbrev AllNamed : Option (List FieldError) → Type 0
AllNamed none = Unit
AllNamed (some fields) = All Named fields

or_single-Named :
    (e : SpecError) (o : Option (List FieldError))
    → HasNames e
    → AllNamed o
    → All Named (or_single e o)
or_single-Named e none n h = single-Named e n
or_single-Named e (some fields) n h = h

mutual
  unfolding collect_multi collect_wrapped collect_all HasNames WrapsNames AllHaveNames

  collect_multi-Named : (e : SpecError) → HasNames e → AllNamed (collect_multi e)
  collect_multi-Named (multi es) n = collect_all-Named es n
  collect_multi-Named (schema s w) n = collect_wrapped-Named w n
  collect_multi-Named (request q w) n = collect_wrapped-Named w n.1
  collect_multi-Named (other w) n = collect_wrapped-Named w n

  collect_wrapped-Named : (w : Wrapped) → WrapsNames w → AllNamed (collect_wrapped w)
  collect_wrapped-Named nothing n = tt
  collect_wrapped-Named (wraps e) n = collect_multi-Named e n

  collect_all-Named : (es : SpecErrors) → AllHaveNames es → All Named (collect_all es)
  collect_all-Named no_more n = tt
  collect_all-Named (more e es) (n, ns) =
      All-append Named (or_single e (collect_multi e)) (collect_all es)
        (or_single-Named e (collect_multi e) n (collect_multi-Named e n)) (collect_all-Named es ns)

-- Whatever tree of errors the validator gives, where the parameters it blames have names: every field
-- error that the producer is sent names a field.
pub spec_fields-Named :
    (e : SpecError) → HasNames e → All Named (field_errors_from_spec_validation e)
unfolding field_errors_from_spec_validation
spec_fields-Named e n = or_single-Named e (collect_multi e) n (collect_multi-Named e n)
