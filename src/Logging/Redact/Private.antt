-- ===== src/Logging/Redact/Private.antt =====
-- What redaction leaves in a record.
use mathlib.Core.List.{Memᴰ}
use mathlib.Core.Path.{subst}
use emovis_micro_service.Base.{
  Text, lit, text_eq, text_eq_iff, text_eq_refl, Bool, true, ◌||◌, List, [], ◌∷◌, ◌++◌, ◌≡◌, ◌↔◌,
  ◌⊎◌, inl, inr, refl, ap, sym, arith, Bool-cases,
}
use emovis_micro_service.Base.Case.{CaseTables, to_lower}
use emovis_micro_service.Logging.Redact.{
  Attr, leaf, group, Attrs, none_left, attr, redacted_value, sensitive_keys, has_suffix, is_listed,
  ends_in_listed, is_sensitive_key, redact_sensitive, redact_all,
}

has_suffix_sound : (s t : Text) → has_suffix s t ≡ true → (p : Text) × (s ≡ p ++ t)
unfolding has_suffix
has_suffix_sound [] t h = ([], (text_eq_iff [] t).0 h)
has_suffix_sound (b ∷ s) t h = elim (Bool-cases (text_eq (b ∷ s) t)) [
  | inl same ↦ ([], (text_eq_iff (b ∷ s) t).0 same)
  | inr other ↦ let (p, e) = has_suffix_sound s t (ground arith) in (b ∷ p, ap (λ l. b ∷ l) e)
]

has_suffix-append : (p t : Text) → has_suffix (p ++ t) t ≡ true
unfolding has_suffix text_eq
has_suffix-append [] [] = refl
has_suffix-append [] (b ∷ t) = ground (arith, text_eq_refl (b ∷ t))
has_suffix-append (b ∷ p) t = ground (arith, has_suffix-append p t)

-- A key in its lower-case form: one of the list, or one that ends in `_` and one of the list.
abbrev pub Names : Text → Text → Type 0
Names key k = (key ≡ k) ⊎ ((p : Text) × (key ≡ p ++ (lit "_" ++ k)))

abbrev is_covered : Text → List Text → Bool
is_covered key keys = is_listed key keys || ends_in_listed key keys

is_covered_sound :
    (key : Text) (keys : List Text)
    → is_covered key keys ≡ true
    → (k : Text) × (is_listed k keys ≡ true) × Names key k
unfolding is_listed ends_in_listed
is_covered_sound key [] h = absurd (ground arith)
is_covered_sound key (l ∷ keys) h = elim (Bool-cases (text_eq l key)) [
  | inl same ↦ (l, ground (arith, text_eq_refl l), inl (sym ((text_eq_iff l key).0 same)))
  | inr other ↦ elim (Bool-cases (has_suffix key (lit "_" ++ l))) [
    | inl ends ↦ (l, ground (arith, text_eq_refl l), inr (has_suffix_sound key (lit "_" ++ l) ends))
    | inr not_here ↦
        let (k, listed, names) = is_covered_sound key keys (ground arith) in
        (k, ground arith, names)
  ]
]

is_covered-head : (key k : Text) (keys : List Text) → Names key k → is_covered key (k ∷ keys) ≡ true
unfolding is_listed ends_in_listed
is_covered-head key k keys (inl e) = ground (arith, text_eq_iff k key)
is_covered-head key k keys (inr (p, e)) =
    ground (arith, ap (λ s. has_suffix s (lit "_" ++ k)) e, has_suffix-append p (lit "_" ++ k))

is_covered_complete :
    (key k : Text) (keys : List Text)
    → is_listed k keys ≡ true
    → Names key k
    → is_covered key keys ≡ true
unfolding is_listed ends_in_listed
is_covered_complete key k [] listed names = absurd (ground arith)
is_covered_complete key k (l ∷ keys) listed names = elim (Bool-cases (text_eq l k)) [
  | inl same ↦
      subst (λ m. is_covered key (m ∷ keys) ≡ true) (sym ((text_eq_iff l k).0 same))
        (is_covered-head key k keys names)
  | inr other ↦ ground (arith, is_covered_complete key k keys (ground arith) names)
]

-- A key is sensitive exactly where its lower-case form is one of the listed keys, or ends in one with
-- an underscore before it.
pub is_sensitive_key_iff :
    (tables : CaseTables) (key : Text)
    → (is_sensitive_key tables key ≡ true)
      ↔ ((k : Text) × (is_listed k sensitive_keys ≡ true) × Names (to_lower tables key) k)
unfolding is_sensitive_key
is_sensitive_key_iff tables key = (
  λ h. is_covered_sound (to_lower tables key) sensitive_keys (ground arith),
  λ (k, listed, names).
      ground (arith, is_covered_complete (to_lower tables key) k sensitive_keys listed names),
)

is_listed-Memᴰ : (k : Text) (keys : List Text) → is_listed k keys ≡ true → Memᴰ k keys
unfolding is_listed
is_listed-Memᴰ k [] h = absurd (ground arith)
is_listed-Memᴰ k (l ∷ keys) h = elim (Bool-cases (text_eq l k)) [
  | inl same ↦ Memᴰ.head (sym ((text_eq_iff l k).0 same))
  | inr other ↦ Memᴰ.tail (is_listed-Memᴰ k keys (ground arith))
]

Memᴰ-is_listed : (k : Text) (keys : List Text) → Memᴰ k keys → is_listed k keys ≡ true
unfolding is_listed
Memᴰ-is_listed k [] m = elim m [ ]
Memᴰ-is_listed k (l ∷ keys) (Memᴰ.head e) = ground (arith, text_eq_iff l k, e)
Memᴰ-is_listed k (l ∷ keys) (Memᴰ.tail m) = ground (arith, Memᴰ-is_listed k keys m)

-- The attributes that hold the plate or the transponder of a vehicle: those whose name, in lower case,
-- is listed, or ends in a listed name with an underscore before it.
module _ (tables : CaseTables) where
  abbrev pub IsSensitive : Text → Type 0
  IsSensitive key = (k : Text) × Memᴰ k sensitive_keys × Names (to_lower tables key) k

  unfoldable mutual
    pub Masked : Attr → Attr → Type 0
    Masked (leaf key value) (leaf key' value') =
        (key' ≡ key)
        × ((IsSensitive key × (value' ≡ redacted_value))
            ⊎ ((IsSensitive key → ⊥) × (value' ≡ value)))
    Masked (leaf key value) (group key' attrs') = ⊥
    Masked (group key attrs) (leaf key' value') = ⊥
    Masked (group key attrs) (group key' attrs') = (key' ≡ key) × AllMasked attrs attrs'

    pub AllMasked : Attrs → Attrs → Type 0
    AllMasked none_left none_left = Unit
    AllMasked none_left (attr a' attrs') = ⊥
    AllMasked (attr a attrs) none_left = ⊥
    AllMasked (attr a attrs) (attr a' attrs') = Masked a a' × AllMasked attrs attrs'

  is_sensitive_key-IsSensitive : (key : Text) → is_sensitive_key tables key ≡ true → IsSensitive key
  is_sensitive_key-IsSensitive key h =
      let (k, listed, names) = (is_sensitive_key_iff tables key).0 h in
      (k, is_listed-Memᴰ k sensitive_keys listed, names)

  IsSensitive-is_sensitive_key : (key : Text) → IsSensitive key → is_sensitive_key tables key ≡ true
  IsSensitive-is_sensitive_key key (k, m, names) =
      (is_sensitive_key_iff tables key).1 (k, Memᴰ-is_listed k sensitive_keys m, names)

  mutual
    unfolding redact_sensitive redact_all Masked AllMasked

    redact_sensitive_masks : (a : Attr) → Masked a (redact_sensitive tables a)
    redact_sensitive_masks (leaf key value) = elim (Bool-cases (is_sensitive_key tables key)) [
      | inl secret ↦
          rw (secret, redact_sensitive) (refl, inl (is_sensitive_key-IsSensitive key secret, refl))
      | inr plain ↦
          rw (plain, redact_sensitive)
            (
              refl,
              inr (
                (λ h. let secret = IsSensitive-is_sensitive_key key h in absurd (ground arith)),
                refl,
              ),
            )
    ]
    redact_sensitive_masks (group key attrs) = (refl, redact_all_masks attrs)

    redact_all_masks : (attrs : Attrs) → AllMasked attrs (redact_all tables attrs)
    redact_all_masks none_left = tt
    redact_all_masks (attr a attrs) = (redact_sensitive_masks a, redact_all_masks attrs)
