-- ===== src/Transaction/Types/Laws.antt =====
-- Which types a configured set accepts, and in which spelling.
use emovis_micro_service.Base.{
  is_empty, Text, false, if◌then◌else◌, List, [], ◌∷◌, text_eq, text_eq_iff, Option, none, some,
  ◌≡◌, refl, arith, Bool-cases, inl, inr, ◌∙◌,
}
use emovis_micro_service.Base.Space.{trim_space}
use emovis_micro_service.Base.Case.{CaseTables}
use emovis_micro_service.Transaction.Types.{
  TypeSet, lookup, assign, type_key, add_types, replace, canonical,
}

pub lookup-assign :
    (k j v : Text) (m : TypeSet)
    → lookup j (assign k v m) ≡ (if text_eq k j then some v else lookup j m)
unfolding lookup assign
lookup-assign k j v [] = refl
lookup-assign k j v ((i, w) ∷ m) =
    ground (arith, text_eq_iff k j, text_eq_iff i k, text_eq_iff i j, lookup-assign k j v m)

-- `o` where it holds a value, and `p` otherwise.
abbrev pub or_else : Option Text → Option Text → Option Text
or_else none p = p
or_else (some s) p = some s

module _ (tables : CaseTables) where
  -- The spelling of the last configured type with this key, in a list read from the front.
  pub last_with_key : Text → List Text → Option Text
  last_with_key key [] = none
  last_with_key key (t ∷ types) =
      or_else (last_with_key key types)
        (if text_eq (type_key tables t) key then some (trim_space t) else none)

  or_else_assoc : (o p q : Option Text) → or_else (or_else o p) q ≡ or_else o (or_else p q)
  or_else_assoc none p q = refl
  or_else_assoc (some s) p q = refl

  lookup-step :
      (key t : Text) (m : TypeSet)
      → is_empty key ≡ false
      → lookup key
          (if is_empty (type_key tables t) then m else assign (type_key tables t) (trim_space t) m)
        ≡ or_else
            (if text_eq (type_key tables t) key then some (trim_space t) else none)
            (lookup key m)
  lookup-step key t m h = elim (Bool-cases (is_empty (type_key tables t))) [
    | inl e ↦ ground (arith, text_eq_iff (type_key tables t) key)
    | inr e ↦ ground (arith, lookup-assign (type_key tables t) key (trim_space t) m)
  ]

  lookup-add_types :
      (key : Text) (m : TypeSet) (types : List Text)
      → is_empty key ≡ false
      → lookup key (add_types tables m types) ≡ or_else (last_with_key key types) (lookup key m)
  unfolding add_types last_with_key
  lookup-add_types key m [] h = refl
  lookup-add_types key m (t ∷ types) h = ground (
    arith,
    lookup-add_types key
        (if is_empty (type_key tables t) then m else assign (type_key tables t) (trim_space t) m)
        types,
    lookup-step key t m,
    or_else_assoc (last_with_key key types)
        (if text_eq (type_key tables t) key then some (trim_space t) else none) (lookup key m),
  )

  or_else-none : (o : Option Text) → or_else o none ≡ o
  or_else-none none = refl
  or_else-none (some s) = refl

  -- A set accepts what has the key of a configured type, in the spelling of the last such type; an
  -- empty key is accepted by no set.
  pub canonical-replace :
      (old : TypeSet) (types : List Text) (t : Text)
      → canonical tables (replace tables old types) t
        ≡ (if is_empty (type_key tables t) then none else last_with_key (type_key tables t) types)
  unfolding canonical replace lookup
  canonical-replace old types t = elim (Bool-cases (is_empty (type_key tables t))) [
    | inl e ↦ ground arith
    | inr e ↦ rw e (
        lookup-add_types (type_key tables t) [] types e
        ∙ or_else-none (last_with_key (type_key tables t) types))
  ]
