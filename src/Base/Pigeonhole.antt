-- ===== src/Base/Pigeonhole.antt =====
-- Lists without repetitions, and how long they can be.
use mathlib.Core.List.{List, [], ◌∷◌, Memᴰ}
use mathlib.Core.Path.{◌≡◌, refl, sym, ◌∙◌}
use Prim.Native.Nat.{◌≤◌, suc}
use native.Mathlib.Omega.{arith}
use emovis_micro_service.Base.Lists.{All, length}

module _ {ℓ} {A : Type ℓ} where
  abbrev pub Distinct : List A → Type ℓ
  Distinct [] = Unit
  Distinct (x ∷ xs) = (Memᴰ x xs → ⊥) × Distinct xs

  without : {x : A} (ys : List A) → Memᴰ x ys → List A
  without [] m = []
  without (y ∷ ys) (Memᴰ.head e) = ys
  without (y ∷ ys) (Memᴰ.tail m) = y ∷ without ys m

  length-without : {x : A} (ys : List A) (m : Memᴰ x ys) → length ys ≡ suc (length (without ys m))
  unfolding without
  length-without [] m = elim m [ ]
  length-without (y ∷ ys) (Memᴰ.head e) = refl
  length-without (y ∷ ys) (Memᴰ.tail m) = omega (arith, length-without ys m)

  still_there :
      (x z : A) (ys : List A) (m : Memᴰ x ys) → Memᴰ z ys → (z ≡ x → ⊥) → Memᴰ z (without ys m)
  unfolding without
  still_there x z [] m n d = elim m [ ]
  still_there x z (y ∷ ys) (Memᴰ.head e) (Memᴰ.head f) d = absurd (d (f ∙ sym e))
  still_there x z (y ∷ ys) (Memᴰ.head e) (Memᴰ.tail n) d = n
  still_there x z (y ∷ ys) (Memᴰ.tail m) (Memᴰ.head f) d = Memᴰ.head f
  still_there x z (y ∷ ys) (Memᴰ.tail m) (Memᴰ.tail n) d = Memᴰ.tail (still_there x z ys m n d)

  All_still :
      (x : A) (xs ys : List A) (m : Memᴰ x ys)
      → (Memᴰ x xs → ⊥)
      → All (λ z. Memᴰ z ys) xs
      → All (λ z. Memᴰ z (without ys m)) xs
  All_still x [] ys m d h = tt
  All_still x (z ∷ xs) ys m d (n, h) = (
    still_there x z ys m n (λ e. d (Memᴰ.head (sym e))),
    All_still x xs ys m (λ k. d (Memᴰ.tail k)) h,
  )

  pub length-le_of_Distinct :
      (xs ys : List A) → Distinct xs → All (λ x. Memᴰ x ys) xs → length xs ≤ length ys
  length-le_of_Distinct [] ys d h = omega arith
  length-le_of_Distinct (x ∷ xs) ys (new, d) (m, h) = omega (
    arith,
    length-without ys m,
    length-le_of_Distinct xs (without ys m) d (All_still x xs ys m new h),
  )
