-- ===== src/Metrics/Series.antt =====
-- The series of a counter vector and their sum.
use mathlib.Core.List.{Memᴰ}
use mathlib.Core.Path.{subst, sym, ap, refl, ◌∙◌}
use emovis_micro_service.Base.{
  ℕ, ◌+◌, ◌≡◌, ◌↔◌, ◌⊎◌, arith, Text, text_eq_iff, Bool, true, false, List, [], ◌∷◌, map, Option,
  none, some, All, Option-cases, Bool-cases, inl, inr, if◌then◌else◌,
}
use emovis_micro_service.Base.Maps.{get, put, get-put}
use emovis_micro_service.Base.Pigeonhole.{Distinct}
use emovis_micro_service.Metrics.{Series, same_values, inc}

pub same_values_iff : (v w : List Text) → (same_values v w ≡ true) ↔ (v ≡ w)
unfolding same_values
same_values_iff [] [] = ground arith
same_values_iff [] (y ∷ w) = ground arith
same_values_iff (x ∷ v) [] = ground arith
same_values_iff (x ∷ v) (y ∷ w) = ground (arith, text_eq_iff x y, same_values_iff v w)

-- The counts of all series.
unfoldable pub total : Series → ℕ
total [] = 0
total ((values, n) ∷ m) = n + total m

abbrev counted : Option ℕ → ℕ
counted none = 0
counted (some n) = n

total-put :
    (values : List Text) (n : ℕ) (m : Series)
    → total (put same_values values n m) + counted (get same_values values m) ≡ total m + n
unfolding total put get
total-put values n [] = omega arith
total-put values n ((v, k) ∷ m) = ground (arith, total-put values n m)

pub total-inc : (values : List Text) (m : Series) → total (inc values m) ≡ total m + 1
unfolding inc
total-inc values m = elim (Option-cases (get same_values values m)) [
  | inl new ↦ simp (new, inc) (let t = total-put values 1 m in ground arith)
  | inr (n, old) ↦ simp (old, inc) (let t = total-put values (n + 1) m in ground arith)
]

abbrev pub keys : Series → List (List Text)
keys = map λ e. e.0

put-All :
    (P : List Text → Type 0) (values : List Text) (n : ℕ) (m : Series)
    → P values
    → All P (keys m)
    → All P (keys (put same_values values n m))
unfolding put
put-All P values n [] p h = (p, tt)
put-All P values n ((v, k) ∷ m) p (q, h) = elim (Bool-cases (same_values v values)) [
  | inl same ↦ rw same (p, h)
  | inr other ↦ rw other (q, put-All P values n m p h)
]

pub All-keys-inc :
    (P : List Text → Type 0) (values : List Text) (m : Series)
    → P values
    → All P (keys m)
    → All P (keys (inc values m))
unfolding inc
All-keys-inc P values m p h = elim (Option-cases (get same_values values m)) [
  | inl new ↦ simp (new, inc) (put-All P values 1 m p h)
  | inr (n, old) ↦ simp (old, inc) (put-All P values (n + 1) m p h)
]

mem-put :
    (values z : List Text) (n : ℕ) (m : Series)
    → Memᴰ z (keys (put same_values values n m))
    → (z ≡ values) ⊎ Memᴰ z (keys m)
unfolding put
mem-put values z n [] (Memᴰ.head e) = inl e
mem-put values z n [] (Memᴰ.tail t) = elim t [ ]
mem-put values z n ((v, k) ∷ m) t = elim (Bool-cases (same_values v values)) [
  | inl same ↦
      elim (subst
        (λ b. Memᴰ z (keys (if b then (values, n) ∷ m else (v, k) ∷ put same_values values n m)))
        same t) [ Memᴰ.head e ↦ inl e | Memᴰ.tail u ↦ inr (Memᴰ.tail u) ]
  | inr other ↦
      elim (subst
        (λ b. Memᴰ z (keys (if b then (values, n) ∷ m else (v, k) ∷ put same_values values n m)))
        other t) [
          | Memᴰ.head e ↦ inr (Memᴰ.head e)
          | Memᴰ.tail u ↦ elim (mem-put values z n m u) [
            | inl e ↦ inl e
            | inr w ↦ inr (Memᴰ.tail w)
          ]
        ]
]

put-Distinct :
    (values : List Text) (n : ℕ) (m : Series)
    → Distinct (keys m)
    → Distinct (keys (put same_values values n m))
unfolding put
put-Distinct values n [] d = ((λ t. elim t [ ]), tt)
put-Distinct values n ((v, k) ∷ m) (new, d) = elim (Bool-cases (same_values v values)) [
  | inl same ↦ rw same (subst (λ w. Memᴰ w (keys m) → ⊥) ((same_values_iff v values).0 same) new, d)
  | inr other ↦ rw other (
    (λ t. elim (mem-put values v n m t) [
      | inl e ↦ let yes_same = (same_values_iff v values).1 e in absurd (ground arith)
      | inr u ↦ new u
    ]),
    put-Distinct values n m d,
  )
]

pub Distinct-keys-inc :
    (values : List Text) (m : Series) → Distinct (keys m) → Distinct (keys (inc values m))
unfolding inc
Distinct-keys-inc values m d = elim (Option-cases (get same_values values m)) [
  | inl new ↦ simp (new, inc) (put-Distinct values 1 m d)
  | inr (n, old) ↦ simp (old, inc) (put-Distinct values (n + 1) m d)
]

-- How often a series was counted.
abbrev pub count_at : List Text → Series → ℕ
count_at values m = counted (get same_values values m)

same-count : (v w : List Text) (m : Series) → same_values v w ≡ true → count_at w m ≡ count_at v m
same-count v w m h = let e = (same_values_iff v w).0 h in ap (λ u. count_at u m) (sym e)

one_more :
    (b : Bool) (k : ℕ) (o : Option ℕ)
    → (b ≡ true → counted o ≡ k)
    → counted (if b then some (k + 1) else o) ≡ counted o + (if b then 1 else 0)
one_more true k o h = omega (arith, h refl)
one_more false k o h = omega arith

pub count-inc :
    (v w : List Text) (m : Series)
    → count_at w (inc v m) ≡ count_at w m + (if same_values v w then 1 else 0)
unfolding inc
count-inc v w m = elim (Option-cases (get same_values v m)) [
  | inl new ↦
      simp (new, inc, get-put same_values same_values_iff v w 1 m)
        (one_more (same_values v w) 0 (get same_values w m)
          (λ e. same-count v w m e ∙ ap counted new))
  | inr (n, old) ↦
      simp (old, inc, get-put same_values same_values_iff v w (n + 1) m)
        (one_more (same_values v w) n (get same_values w m)
          (λ e. same-count v w m e ∙ ap counted old))
]
