-- ===== src/Config/Readings.antt =====
-- The settings that are numbers and durations, and the problems that reading them leaves.

use emovis_micro_service.Base.{
  ℕ, ℤ, is_nonpos, Text, is_empty, true, false, List, [], ◌∷◌, ◌++◌, Option, none, some, ◌≡◌, ◌↔◌,
  ◌⊎◌, inl, inr, refl, arith, Option-cases, Bool-cases,
}
use emovis_micro_service.Platform.{Platform}
use emovis_micro_service.Config.{Env, Readers, positive, env_int, env_duration}

pub append-nil_iff : (xs ys : List Text) → (xs ++ ys ≡ []) ↔ ((xs ≡ []) × (ys ≡ []))
append-nil_iff [] ys = (λ h. (refl, h), λ h. h.1)
append-nil_iff (x ∷ xs) ys = (λ h. absurd (ground arith), λ h. absurd (ground (arith, h.0)))

-- A setting that is left out, empty, or a positive number.
abbrev pub Reads : (Text → Option ℤ) → Option Text → Type 0
Reads parse none = Unit
Reads parse (some raw) =
    (is_empty raw ≡ true) ⊎ ((n : ℤ) × (parse raw ≡ some n) × (is_nonpos n ≡ false))

module _ {D : Type 0} (platform : Platform D) (readers : Readers) where
  positive-errs :
      (key shown : Text) (fallback : ℕ) (errs : List Text) (n : ℤ)
      → ((positive platform readers key shown fallback errs n).1 ≡ [])
        ↔ ((errs ≡ []) × (is_nonpos n ≡ false))
  unfolding positive
  positive-errs key shown fallback errs n = elim (Bool-cases (is_nonpos n)) [
    | inl bad ↦
        simp (bad, positive)
          (λ h. absurd (ground (arith, (append-nil_iff errs _).0 h)), λ h. absurd (ground arith))
    | inr good ↦ simp (good, positive) (λ h. (h, refl), λ h. h.0)
  ]

  read_positive :
      (n : ℤ)
      → (false ≡ true) ⊎ ((m : ℤ) × (some n ≡ some m) × (is_nonpos m ≡ false))
      → is_nonpos n ≡ false
  read_positive n (inl h) = absurd (ground arith)
  read_positive n (inr (m, e, p)) = ground arith

  pub env_duration-errs :
      (env : Env) (key : Text) (fallback : ℕ) (errs : List Text)
      → ((env_duration platform readers env key fallback errs).1 ≡ [])
        ↔ ((errs ≡ []) × Reads readers.parse_duration (env key))
  unfolding env_duration
  env_duration-errs env key fallback errs = elim (Option-cases (env key)) [
    | inl unset ↦ simp (unset, env_duration) (λ h. (h, tt), λ h. h.0)
    | inr (raw, set) ↦ elim (Bool-cases (is_empty raw)) [
      | inl empty ↦ simp (set, empty, env_duration) (λ h. (h, inl refl), λ h. h.0)
      | inr some_text ↦ elim (Option-cases (readers.parse_duration raw)) [
        | inl garbage ↦
            simp (set, some_text, garbage, env_duration)
              (
                λ h. absurd (ground (arith, (append-nil_iff errs _).0 h)),
                λ h. absurd (ground arith),
              )
        | inr (n, parsed) ↦
            simp (set, some_text, parsed, env_duration)
              (
                λ h.
                    let (e, p) = (positive-errs key _ fallback errs n).0 h in (e, inr (n, refl, p)),
                λ h. (positive-errs key _ fallback errs n).1 (h.0, read_positive n h.1),
              )
      ]
    ]
  ]

  pub env_int-errs :
      (env : Env) (key : Text) (fallback : ℕ) (errs : List Text)
      → ((env_int platform readers env key fallback errs).1 ≡ [])
        ↔ ((errs ≡ []) × Reads readers.parse_int (env key))
  unfolding env_int
  env_int-errs env key fallback errs = elim (Option-cases (env key)) [
    | inl unset ↦ simp (unset, env_int) (λ h. (h, tt), λ h. h.0)
    | inr (raw, set) ↦ elim (Bool-cases (is_empty raw)) [
      | inl empty ↦ simp (set, empty, env_int) (λ h. (h, inl refl), λ h. h.0)
      | inr some_text ↦ elim (Option-cases (readers.parse_int raw)) [
        | inl garbage ↦
            simp (set, some_text, garbage, env_int)
              (
                λ h. absurd (ground (arith, (append-nil_iff errs _).0 h)),
                λ h. absurd (ground arith),
              )
        | inr (n, parsed) ↦
            simp (set, some_text, parsed, env_int)
              (
                λ h.
                    let (e, p) = (positive-errs key _ fallback errs n).0 h in (e, inr (n, refl, p)),
                λ h. (positive-errs key _ fallback errs n).1 (h.0, read_positive n h.1),
              )
      ]
    ]
  ]
