-- ===== src/Outbox/Backoff.antt =====
-- internal/outbox/relay.go: the options of the relay and the delay before an event is tried again.
pub mod Bounds
use emovis_micro_service.Base.{
  ℕ, ◌+◌, ◌*◌, ◌-◌, Bool, true, false, ◌||◌, if◌then◌else◌, ℤ, is_nonpos, pos_part, leb, ltb,
}
use emovis_micro_service.Base.Clock.{second, minute}

-- `RelayOptions` as a caller gives them.
pub record RelayOptions : Type 0 where
  pub batch_size : ℤ
  pub poll_interval : ℤ
  pub base_backoff : ℤ
  pub max_backoff : ℤ
  pub max_attempts : ℤ

-- The options that a relay runs with: all are positive. Durations are in nanoseconds.
pub record Tuning : Type 0 where
  pub batch_size : ℕ
  pub poll_interval : ℕ
  pub base_backoff : ℕ
  pub max_backoff : ℕ
  pub max_attempts : ℕ

unfoldable pub default_relay_options : Tuning
default_relay_options = record {
  batch_size = 100;
  poll_interval = 2 * second;
  base_backoff = second;
  max_backoff = 5 * minute;
  max_attempts = 10;
}

-- A value that is not positive is replaced.
unfoldable pub or_default : ℤ → ℕ → ℕ
or_default n d = if is_nonpos n then d else pos_part n

-- `NewRelay`, as far as it treats the options.
unfoldable pub new_relay : RelayOptions → Tuning
unfolding or_default default_relay_options
new_relay o = record {
  batch_size = or_default o.batch_size default_relay_options.batch_size;
  poll_interval = or_default o.poll_interval default_relay_options.poll_interval;
  base_backoff = or_default o.base_backoff default_relay_options.base_backoff;
  max_backoff = or_default o.max_backoff default_relay_options.max_backoff;
  max_attempts = or_default o.max_attempts default_relay_options.max_attempts;
}

unfoldable pub parked_backoff : ℕ
parked_backoff = 24 * (60 * minute)

-- `time.Duration(float64(base) * math.Pow(2, float64(k)))`, which the processor decides where the
-- product is no 64-bit integer.
pub record FloatApi : Type 0 where
  pub scaled : ℕ → ℕ → ℤ

-- `backoffFor`
unfoldable pub backoff_for : FloatApi → Tuning → ℕ → ℕ
backoff_for float opts attempts =
    if leb attempts 1
    then opts.base_backoff
    else let backoff = float.scaled opts.base_backoff (attempts - 1) in
      if is_nonpos backoff || ltb opts.max_backoff (pos_part backoff)
      then opts.max_backoff
      else pos_part backoff

-- The delay that `recordFailure` writes for an event that failed for the `attempts`-th time, and
-- whether the event is parked.
unfoldable pub is_parked : Tuning → ℕ → Bool
is_parked opts attempts = leb opts.max_attempts attempts

unfoldable pub retry_delay : FloatApi → Tuning → ℕ → ℕ
unfolding is_parked
retry_delay float opts attempts =
    if is_parked opts attempts then parked_backoff else backoff_for float opts attempts
