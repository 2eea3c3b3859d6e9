-- ===== src/Startup/Process/Pool.antt =====
-- The order of the acts on the pool of connections.
use emovis_micro_service.Base.{
  ℤ, Text, lit, Bool, true, false, List, [], ◌∷◌, ◌++◌, Option, none, some, ◌≡◌, ◌⊎◌, inl, inr,
  refl, arith, all, Option-cases,
}
use emovis_micro_service.Startup.{pool_limit}
use emovis_micro_service.Startup.Process.{
  Act, connects, closes, listens, drains, says, PoolReplies, connect,
}

abbrev pub leaves_pool : Act → Bool
leaves_pool (connects limit) = false
leaves_pool closes = false
leaves_pool (listens addr) = true
leaves_pool (drains budget) = true
leaves_pool (says level message) = true

abbrev pub stays_open : Act → Bool
stays_open closes = false
stays_open (connects limit) = true
stays_open (listens addr) = true
stays_open (drains budget) = true
stays_open (says level message) = true

-- No pool is opened, or one is opened first and closed last, and not touched in between.
abbrev pub Brackets : List Act → Type 0
Brackets acts =
    (all leaves_pool acts ≡ true)
    ⊎ ((limit : Option ℤ) × (body : List Act) × (acts ≡ connects limit ∷ (body ++ (closes ∷ [])))
        × (all leaves_pool body ≡ true))

pub all-append :
    (xs ys : List Act)
    → all leaves_pool xs ≡ true
    → all leaves_pool ys ≡ true
    → all leaves_pool (xs ++ ys) ≡ true
all-append [] ys h k = k
all-append (x ∷ xs) ys h k = ground (arith, all-append xs ys)

-- Every step of the connection succeeds.
abbrev pub IsReachable : PoolReplies → Type 0
IsReachable p = (p.parse ≡ none) × (p.create ≡ none) × (p.ping ≡ none)

pub connect-cases :
    (p : PoolReplies) (n : ℤ)
    → ((cause : Text) × ((connect p n).1 ≡ some cause)
        × Brackets (connect p n).0
        × (IsReachable p → ⊥))
      ⊎ ((connect p n ≡ (connects (pool_limit n) ∷ [], none)) × IsReachable p)
unfolding connect
connect-cases p n = elim (Option-cases p.parse) [
  | inr (cause, a) ↦ inl (
    lit "parse database url: " ++ cause,
    simp (a, connect) refl,
    simp (a, connect) (inl refl),
    λ r. ground arith,
  )
  | inl a ↦ elim (Option-cases p.create) [
    | inr (cause, b) ↦ inl (
      lit "create connection pool: " ++ cause,
      simp (a, b, connect) refl,
      simp (a, b, connect) (inl refl),
      λ r. ground arith,
    )
    | inl b ↦ elim (Option-cases p.ping) [
      | inr (cause, c) ↦ inl (
        lit "ping database: " ++ cause,
        simp (a, b, c, connect) refl,
        simp (a, b, c, connect) (inr (pool_limit n, [], refl, refl)),
        λ r. ground arith,
      )
      | inl c ↦ inr (simp (a, b, c, connect) refl, (a, b, c))
    ]
  ]
]

-- What happens between the opening and the closing.
pub Brackets-pool :
    (limit : Option ℤ) (body : List Act)
    → all leaves_pool body ≡ true
    → Brackets ((connects limit ∷ []) ++ (body ++ (closes ∷ [])))
Brackets-pool limit body h = inr (limit, body, refl, h)

pub stays-append :
    (xs ys : List Act)
    → all stays_open xs ≡ true
    → all stays_open ys ≡ true
    → all stays_open (xs ++ ys) ≡ true
stays-append [] ys h k = k
stays-append (x ∷ xs) ys h k = ground (arith, stays-append xs ys)
