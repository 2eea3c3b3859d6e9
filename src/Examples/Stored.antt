-- ===== src/Examples/Stored.antt =====
-- The stores and the service on their tables.
use emovis_micro_service.Base.{
  ℕ, Text, lit, Bool, true, false, List, [], ◌∷◌, All, Option, none, some, Result, ok, err, ◌≡◌,
  refl, ℤ, pos,
}
use emovis_micro_service.Money.Currency
use emovis_micro_service.Transaction.Model.{key_of}
use emovis_micro_service.Transaction.Validate.{accept, accepted}
use emovis_micro_service.HttpApi.Mapping.{to_submission}
use emovis_micro_service.Store.Interface.{IsStore}
use emovis_micro_service.Store.Memory.{new, ingest_all, get_transaction}
use emovis_micro_service.Store.Memory.Laws.{IsConsistent, first_with_key, ingest_all-first}
use emovis_micro_service.Store.Memory.Contract.{memory_api, memory_api-IsStore}
use emovis_micro_service.Store.Postgres
use emovis_micro_service.Store.Postgres.{row_of, read_row}
use emovis_micro_service.Store.Postgres.Database.{Tables, stored_row}
use emovis_micro_service.Store.Postgres.Atomic.{Atomic, ingest-Atomic}
use emovis_micro_service.Store.Postgres.RoundTrip.{
  ReadsBack, rounded, read_row-row_of, accepted-ReadsBack,
}
use emovis_micro_service.Store.Postgres.Contract.{postgres_api, IsReadable, postgres_api-IsStore}
use emovis_micro_service.System.{relayed, ingests, relays, migrated, then_step}
use emovis_micro_service.System.Invariants.{IsSound, Reachable-IsSound}
use emovis_micro_service.Outbox.Backoff.{default_relay_options}
use emovis_micro_service.Config.{Env, Readers, load}
use emovis_micro_service.Startup.{rules_of}
use emovis_micro_service.Startup.Wired.{started-read_row}
use emovis_micro_service.Examples.World.{
  platform, rules, system, request, toll, server, calm, pass, float,
}
use emovis_micro_service.Examples.Requests.{accept_first}

abbrev empty : Tables Text
empty = record { transactions = []; outbox_events = [] }

memory_api-IsStore_example :
    IsStore platform (memory_api platform) (IsConsistent platform) (λ tx. Unit)
memory_api-IsStore_example = memory_api-IsStore platform

postgres_api-IsStore_example :
    IsStore platform
      (postgres_api platform server)
      (IsReadable platform server)
      (ReadsBack platform)
postgres_api-IsStore_example = postgres_api-IsStore platform server

ingest-Atomic_example :
    Atomic platform server
      (calm 7)
      empty
      (toll 1)
      (Postgres.ingest platform server (calm 7) empty (toll 1))
ingest-Atomic_example = ingest-Atomic platform server (calm 7) empty (toll 1)

pub usd_known : Currency.lookup platform.tables (lit "USD") ≡ some rules.default_currency
unfolding Currency.currencies Currency.find_code Currency.lookup
    emovis_micro_service.Base.Case.to_upper emovis_micro_service.Base.Space.trim_space
    emovis_micro_service.Base.text_eq
usd_known = refl

storable : ReadsBack platform (toll 1)
storable =
    accepted-ReadsBack platform rules (system 1) (to_submission (request (lit "12.50"))) (toll 1)
      usd_known accept_first

read_row-row_of_example :
    read_row platform (stored_row server (row_of platform (toll 1) (lit "digest")) (lit "12.5000"))
    ≡ ok (rounded platform server (toll 1), lit "digest")
read_row-row_of_example =
    read_row-row_of platform server (toll 1) (lit "digest") (lit "12.5000") storable

ingest_all-first_example :
    get_transaction (ingest_all platform new (toll 1 ∷ toll 2 ∷ [])) (key_of (toll 3))
    ≡ first_with_key platform (key_of (toll 3)) (toll 1 ∷ toll 2 ∷ [])
ingest_all-first_example = ingest_all-first platform (toll 1 ∷ toll 2 ∷ []) (key_of (toll 3))

abbrev after_ingest : Tables Text
after_ingest = (Postgres.ingest platform server (calm 7) empty (toll 1)).0

Reachable-IsSound_example :
    IsSound platform server float
      (relayed platform server float default_relay_options (pass 9) after_ingest)
Reachable-IsSound_example =
    Reachable-IsSound platform server float
      (relayed platform server float default_relay_options (pass 9) after_ingest)
      (then_step after_ingest _
        (then_step empty after_ingest migrated (ingests (calm 7) empty (toll 1)))
        (relays default_relay_options (pass 9) after_ingest))

-- An environment in which nothing is set.
abbrev unset : Env
unset = λ key. none

abbrev readers : Readers
readers = record { parse_int = λ s. none; parse_duration = λ s. none; duration_text = λ d. [] }

loads : (load platform readers unset).1 ≡ []
unfolding Currency.currencies Currency.find_code Currency.lookup
    emovis_micro_service.Base.Case.to_lower emovis_micro_service.Base.Case.to_upper
    emovis_micro_service.Base.Space.trim_space emovis_micro_service.Base.text_eq load
loads = refl

accepts_toll :
    accept platform
      (rules_of platform (load platform readers unset).0)
      (system 1)
      (to_submission (request (lit "12.50")))
    ≡ accepted (record (toll 1) { kind = lit "toll" })
unfolding Currency.currencies Currency.entry Currency.find_code Currency.is_zero Currency.lookup
    accept emovis_micro_service.Base.Case.is_ascii emovis_micro_service.Base.Case.to_lower
    emovis_micro_service.Base.Case.to_upper emovis_micro_service.Base.Clock.add
    emovis_micro_service.Base.Clock.after emovis_micro_service.Base.Clock.time_is_zero
    emovis_micro_service.Base.Clock.to_utc emovis_micro_service.Base.Format.decimal_text
    emovis_micro_service.Base.Space.trim_space emovis_micro_service.Base.int32
    emovis_micro_service.Base.text_eq emovis_micro_service.Money.Amount.is_negative
    emovis_micro_service.Money.Amount.parse emovis_micro_service.Money.Syntax.all_digits
    emovis_micro_service.Money.Syntax.decimal_places emovis_micro_service.Money.Syntax.last_dot
    emovis_micro_service.Money.Syntax.match_string
    emovis_micro_service.Money.Syntax.matches_fraction
    emovis_micro_service.Money.Syntax.matches_unsigned emovis_micro_service.Money.Syntax.skip_digits
    emovis_micro_service.Transaction.Identity.canonicalize
    emovis_micro_service.Transaction.Identity.new_plate
    emovis_micro_service.Transaction.Identity.new_transponder
    emovis_micro_service.Transaction.Identity.plate_is_empty
    emovis_micro_service.Transaction.Identity.transponder_is_empty
    emovis_micro_service.Transaction.Types.add_types emovis_micro_service.Transaction.Types.assign
    emovis_micro_service.Transaction.Types.canonical emovis_micro_service.Transaction.Types.lookup
    emovis_micro_service.Transaction.Types.new_type_set
    emovis_micro_service.Transaction.Types.replace emovis_micro_service.Transaction.Types.type_key
    emovis_micro_service.Transaction.Validate.amount_if
    emovis_micro_service.Transaction.Validate.amount_reason
    emovis_micro_service.Transaction.Validate.append_if
    emovis_micro_service.Transaction.Validate.identity_problem
    emovis_micro_service.Transaction.Validate.plate_of
    emovis_micro_service.Transaction.Validate.problem
    emovis_micro_service.Transaction.Validate.resolve_currency
    emovis_micro_service.Transaction.Validate.rules_new_id
    emovis_micro_service.Transaction.Validate.rules_now
    emovis_micro_service.Transaction.Validate.skew_of
    emovis_micro_service.Transaction.Validate.transponder_of
    emovis_micro_service.Transaction.Validate.truncate
    emovis_micro_service.Transaction.Validate.validate_amount
    emovis_micro_service.Transaction.Validate.validate_identity
    emovis_micro_service.Transaction.Validate.validate_time
    emovis_micro_service.Transaction.Validate.validate_type lit load rules_of to_submission
accepts_toll = refl

started-read_row_example :
    read_row platform (
      stored_row server
        (row_of platform (record (toll 1) { kind = lit "toll" }) (lit "digest"))
        (lit "12.5000"))
    ≡ ok (rounded platform server (record (toll 1) { kind = lit "toll" }), lit "digest")
started-read_row_example =
    started-read_row platform readers server unset (system 1)
      (to_submission (request (lit "12.50"))) (record (toll 1) { kind = lit "toll" }) (lit "digest")
      (lit "12.5000") loads accepts_toll
