-- ===== src/HttpApi/Telemetry/Keys.antt =====
-- The label values that a series of the handler can have, and their number.
use mathlib.Core.List.{Memᴰ}
use emovis_micro_service.Base.{
  text_eq, suc, ◌*◌, ◌≡◌, refl, sym, ap, arith, Text, text_eq_iff, true, List, [], ◌∷◌, length, map,
  All, All-imp, Bool-cases, inl, inr,
}
use emovis_micro_service.Metrics.{Series}
use emovis_micro_service.Metrics.Labels.{SourceLabels, is_seen, source_overflow, source_unknown}
use emovis_micro_service.Metrics.Labels.Bounded.{Grows, IsLabel}
use emovis_micro_service.Metrics.Series.{keys}
use emovis_micro_service.HttpApi.Reply.{Label, created, duplicate, rejected, failed}
use emovis_micro_service.HttpApi.Telemetry.{result_value}

-- The label values of a series of `ingest_transactions_total`.
abbrev pub IsOutcomeKey : SourceLabels → List Text → Type 0
IsOutcomeKey s k =
    (value : Text) × (result : Label) × IsLabel s value × (k ≡ value ∷ result_value result ∷ [])

-- The label values of a series of `ingest_divergent_duplicates_total`.
abbrev pub IsSourceKey : SourceLabels → List Text → Type 0
IsSourceKey s k = (value : Text) × IsLabel s value × (k ≡ value ∷ [])

IsLabel-Grows :
    (s s' : SourceLabels) (value : Text) → Grows s s' → IsLabel s value → IsLabel s' value
IsLabel-Grows s s' value g (inl (inl seen)) = inl (inl (g value seen))
IsLabel-Grows s s' value g (inl (inr other)) = inl (inr other)
IsLabel-Grows s s' value g (inr unknown) = inr unknown

pub outcomes-Grow :
    (s s' : SourceLabels) (ks : List (List Text))
    → Grows s s'
    → All (IsOutcomeKey s) ks
    → All (IsOutcomeKey s') ks
outcomes-Grow s s' ks g =
    All-imp ks λ k (value, result, l, e). (value, result, IsLabel-Grows s s' value g l, e)

pub replays-Grow :
    (s s' : SourceLabels) (ks : List (List Text))
    → Grows s s'
    → All (IsSourceKey s) ks
    → All (IsSourceKey s') ks
replays-Grow s s' ks g = All-imp ks λ k (value, l, e). (value, IsLabel-Grows s s' value g l, e)

-- Every value that the label can have.
abbrev pub values_of : SourceLabels → List Text
values_of s = source_overflow ∷ source_unknown ∷ s.seen

is_seen-Memᴰ : (source : Text) (seen : List Text) → is_seen source seen ≡ true → Memᴰ source seen
unfolding is_seen
is_seen-Memᴰ source [] h = absurd (ground arith)
is_seen-Memᴰ source (s ∷ seen) h = elim (Bool-cases (text_eq s source)) [
  | inl same ↦ Memᴰ.head (sym ((text_eq_iff s source).0 same))
  | inr other ↦ Memᴰ.tail (is_seen-Memᴰ source seen (ground (arith)))
]

pub IsLabel-Memᴰ : (s : SourceLabels) (value : Text) → IsLabel s value → Memᴰ value (values_of s)
IsLabel-Memᴰ s value (inl (inl seen)) = Memᴰ.tail (Memᴰ.tail (is_seen-Memᴰ value s.seen seen))
IsLabel-Memᴰ s value (inl (inr other)) = Memᴰ.head other
IsLabel-Memᴰ s value (inr unknown) = Memᴰ.tail (Memᴰ.head unknown)

abbrev pub outcome_keys : List Text → List (List Text)
outcome_keys [] = []
outcome_keys (v ∷ vs) =
    (v ∷ result_value created ∷ [])
    ∷ (v ∷ result_value duplicate ∷ [])
    ∷ (v ∷ result_value rejected ∷ [])
    ∷ (v ∷ result_value failed ∷ [])
    ∷ outcome_keys vs

pub outcome_keys-Memᴰ :
    (value : Text) (r : Label) (vs : List Text)
    → Memᴰ value vs
    → Memᴰ {A = List Text} (value ∷ result_value r ∷ []) (outcome_keys vs)
outcome_keys-Memᴰ value r [] m = elim m [ ]
outcome_keys-Memᴰ value r (v ∷ vs) (Memᴰ.tail m) =
    Memᴰ.tail (Memᴰ.tail (Memᴰ.tail (Memᴰ.tail (outcome_keys-Memᴰ value r vs m))))
outcome_keys-Memᴰ value created (v ∷ vs) (Memᴰ.head e) =
    Memᴰ.head (ap (λ (w : Text). w ∷ result_value created ∷ []) e)
outcome_keys-Memᴰ value duplicate (v ∷ vs) (Memᴰ.head e) =
    Memᴰ.tail (Memᴰ.head (ap (λ (w : Text). w ∷ result_value duplicate ∷ []) e))
outcome_keys-Memᴰ value rejected (v ∷ vs) (Memᴰ.head e) =
    Memᴰ.tail (Memᴰ.tail (Memᴰ.head (ap (λ (w : Text). w ∷ result_value rejected ∷ []) e)))
outcome_keys-Memᴰ value failed (v ∷ vs) (Memᴰ.head e) =
    Memᴰ.tail
      (Memᴰ.tail (Memᴰ.tail (Memᴰ.head (ap (λ (w : Text). w ∷ result_value failed ∷ []) e))))

pub length-outcome_keys : (vs : List Text) → length (outcome_keys vs) ≡ 4 * length vs
length-outcome_keys [] = omega arith
length-outcome_keys (v ∷ vs) = omega (arith, length-outcome_keys vs)

abbrev pub source_keys : List Text → List (List Text)
source_keys = map λ v. v ∷ []

pub length-source_keys : (vs : List Text) → length (source_keys vs) ≡ length vs
length-source_keys [] = refl
length-source_keys (v ∷ vs) = ap suc (length-source_keys vs)

pub length-keys : (m : Series) → length (keys m) ≡ length m
length-keys [] = refl
length-keys (e ∷ m) = ap suc (length-keys m)
