-- ===== src/Config/Lists.antt =====
-- Which settings leave a list of types: `envStringSlice`.
use mathlib.Core.List.{Memᴰ}
use emovis_micro_service.Base.{
  ap, ◌∙◌, Text, is_empty, true, false, List, [], ◌∷◌, Option, none, some, ◌≡◌, ◌≢◌, ◌↔◌, ◌⊎◌, inl,
  inr, refl, arith, Option-cases, Bool-cases,
}
use emovis_micro_service.Base.Space.{trim_space}
use emovis_micro_service.Config.{Env, env_string_slice, split_comma, trimmed_parts}

-- A list that is left out, blank, or has a part between its commas that is not blank.
abbrev pub LeavesSome : Option Text → Type 0
LeavesSome none = Unit
LeavesSome (some raw) =
    (trim_space raw ≡ []) ⊎ ((part : Text) × Memᴰ part (split_comma raw) × (trim_space part ≢ []))

is_empty_sound : (t : Text) → is_empty t ≡ true → t ≡ []
is_empty_sound [] h = refl
is_empty_sound (b ∷ t) h = absurd (ground arith)

is_empty-ne : (t : Text) → is_empty t ≡ false → t ≢ []
is_empty-ne [] h e = absurd (ground arith)
is_empty-ne (b ∷ t) h e = ground arith

trimmed_parts-some :
    (parts : List Text)
    → trimmed_parts parts ≢ []
    → (part : Text) × Memᴰ part parts × (trim_space part ≢ [])
unfolding trimmed_parts
trimmed_parts-some [] h = absurd (h refl)
trimmed_parts-some (p ∷ parts) h = elim (Bool-cases (is_empty (trim_space p))) [
  | inr text ↦ (p, Memᴰ.head refl, is_empty-ne (trim_space p) text)
  | inl blank ↦
      let (q, m, text) = trimmed_parts-some parts (λ e. h (rw blank e)) in (q, Memᴰ.tail m, text)
]

some-trimmed_parts :
    (parts : List Text) (part : Text)
    → Memᴰ part parts
    → trim_space part ≢ []
    → trimmed_parts parts ≢ []
unfolding trimmed_parts
some-trimmed_parts [] part m text h = elim m [ ]
some-trimmed_parts (p ∷ parts) part m text h = elim (Bool-cases (is_empty (trim_space p))) [
  | inr full ↦ absurd (ground arith)
  | inl blank ↦ elim m [
    | Memᴰ.head e ↦ text (ap trim_space e ∙ is_empty_sound (trim_space p) blank)
    | Memᴰ.tail m' ↦ some-trimmed_parts parts part m' text (rw blank at h)
  ]
]

-- A list of types is left exactly where the setting leaves some.
pub types-LeavesSome :
    (env : Env) (key : Text) (t : Text) (types : List Text)
    → (env_string_slice env key (t ∷ types) ≢ []) ↔ LeavesSome (env key)
unfolding env_string_slice
types-LeavesSome env key t types = elim (Option-cases (env key)) [
  | inl unset ↦ simp (unset, env_string_slice) (λ h. tt, λ h e. ground arith)
  | inr (raw, set) ↦ elim (Bool-cases (is_empty (trim_space raw))) [
    | inl blank ↦
        simp (set, blank, env_string_slice)
          (λ h. inl (is_empty_sound (trim_space raw) blank), λ h e. ground arith)
    | inr full ↦
        simp (set, full, env_string_slice)
          (
            λ h. inr (trimmed_parts-some (split_comma raw) h),
            λ h. elim h [
              | inl blank ↦ absurd (is_empty-ne (trim_space raw) full blank)
              | inr (part, m, text) ↦ some-trimmed_parts (split_comma raw) part m text
            ],
          )
  ]
]
