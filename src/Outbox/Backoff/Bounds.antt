-- ===== src/Outbox/Backoff/Bounds.antt =====
-- The bounds of the delays of the relay.
use Prim.Native.Nat.{min}
use emovis_micro_service.Base.{
  ℕ, zero, suc, ◌*◌, ◌-◌, ◌^◌, ◌≤◌, ◌<◌, ◌≡◌, ◌⊎◌, inl, inr, arith, ℤ, pos, negsuc,
}
use emovis_micro_service.Outbox.Backoff.{
  RelayOptions, Tuning, or_default, new_relay, FloatApi, backoff_for, is_parked, retry_delay,
  parked_backoff, default_relay_options,
}

-- Positive options, as `NewRelay` makes them.
pub record IsTuned (o : Tuning) : Type 0 where
  pub batch : 0 < o.batch_size
  pub poll : 0 < o.poll_interval
  pub base : 0 < o.base_backoff
  pub cap : 0 < o.max_backoff
  pub tries : 0 < o.max_attempts

or_default-positive : (n : ℤ) (d : ℕ) → 0 < d → 0 < or_default n d
unfolding or_default
or_default-positive (pos n) d h = ground arith
or_default-positive (negsuc n) d h = h

-- Whatever options a relay is given, those it runs with are positive.
pub new_relay-IsTuned : (o : RelayOptions) → IsTuned (new_relay o)
unfolding new_relay default_relay_options
new_relay-IsTuned o = record {
  batch = or_default-positive o.batch_size 100 (omega arith);
  poll = or_default-positive o.poll_interval 2000000000 (omega arith);
  base = or_default-positive o.base_backoff 1000000000 (omega arith);
  cap = or_default-positive o.max_backoff 300000000000 (omega arith);
  tries = or_default-positive o.max_attempts 10 (omega arith);
}

-- base * 2^k
unfoldable pub doubled : ℕ → ℕ → ℕ
doubled base zero = base
doubled base (suc k) = 2 * doubled base k

doubled-positive : (b k : ℕ) → 0 < b → 0 < doubled b k
unfolding doubled
doubled-positive b zero h = h
doubled-positive b (suc k) h = omega (arith, doubled-positive b k h)

-- Floats of 53 bits, and the conversion of a float to an integer of 64 bits: exact in range, and one
-- of the two ends out of it.
pub record IsFloat (float : FloatApi) : Type 0 where
  pub exact : (b k : ℕ) → b ≤ 2 ^ 53 → doubled b k < 2 ^ 63 → float.scaled b k ≡ pos (doubled b k)
  pub beyond :
      (b k : ℕ)
      → b ≤ 2 ^ 53
      → 2 ^ 63 ≤ doubled b k
      → (float.scaled b k ≡ negsuc (2 ^ 63 - 1)) ⊎ (float.scaled b k ≡ pos (2 ^ 63 - 1))

-- For a positive base of at most 2^53 nanoseconds (104 days) that the cap is not below, and a cap that is a
-- 64-bit duration below the greatest, the delay after the n-th failure is the base doubled n - 1
-- times, or the cap where that is less.
pub backoff_for-doubled :
    (float : FloatApi) (o : Tuning) (n : ℕ)
    → IsFloat float
    → 0 < o.base_backoff
    → o.base_backoff ≤ 2 ^ 53
    → o.base_backoff ≤ o.max_backoff
    → o.max_backoff < 2 ^ 63 - 1
    → backoff_for float o (suc n) ≡ min (doubled o.base_backoff n) o.max_backoff
unfolding backoff_for doubled
backoff_for-doubled float o zero h positive small under limit = ground arith
backoff_for-doubled float o (suc n) h positive small under limit =
    elim (total (doubled o.base_backoff (suc n))) [
      | inl fits ↦ ground (
        arith,
        h.exact o.base_backoff (suc n) small fits,
        doubled-positive o.base_backoff (suc n) positive,
      )
      | inr big ↦ elim (h.beyond o.base_backoff (suc n) small big) [
        | inl e ↦ ground (arith, e)
        | inr e ↦ ground (arith, e)
      ]
    ]
  where
    total : (m : ℕ) → (m < 2 ^ 63) ⊎ (2 ^ 63 ≤ m)
    total m = ground arith

-- Whatever the processor makes of a product that is out of range: behind the second failure on, with
-- positive options, a delay is positive, and it is at most the cap, or the event has used up its
-- attempts and is parked for a day.
pub retry_delay-bounds :
    (float : FloatApi) (o : Tuning) (n : ℕ)
    → IsTuned o
    → 1 < n
    → (0 < retry_delay float o n)
      × (((n < o.max_attempts) × (retry_delay float o n ≤ o.max_backoff))
          ⊎ ((o.max_attempts ≤ n) × (retry_delay float o n ≡ parked_backoff)))
unfolding retry_delay backoff_for is_parked parked_backoff
retry_delay-bounds float o n h again =
    let h₁ = h.base in let h₂ = h.cap in (ground arith, ground arith)
