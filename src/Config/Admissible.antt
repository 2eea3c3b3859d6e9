-- ===== src/Config/Admissible.antt =====
-- Which environments a process starts in.

use emovis_micro_service.Base.{
  Text, lit, text_eq_iff, List, [], ◌∷◌, Option, none, some, ◌≡◌, ◌≢◌, ◌↔◌, ◌⊎◌, inl, inr, refl,
  arith, Option-cases,
}
use emovis_micro_service.Base.Case.{to_upper, to_lower}
use emovis_micro_service.Platform.{Platform}
use emovis_micro_service.Money.Currency
use emovis_micro_service.Money.Currency.{Currency}
use emovis_micro_service.Config.Readings.{append-nil_iff, Reads, env_duration-errs, env_int-errs}
use emovis_micro_service.Config.Lists.{LeavesSome, types-LeavesSome}
use emovis_micro_service.Config.{
  Env, Readers, LogLevel, env_string, parse_log_level, types_errors, currency_errors, level_errors,
  format_errors, addr_errors, load,
}

-- The names of the log levels.
abbrev pub IsLevel : Text → Type 0
IsLevel name =
    (name ≡ lit "debug")
    ⊎ ((name ≡ lit "info")
        ⊎ ((name ≡ lit "warn") ⊎ ((name ≡ lit "warning") ⊎ (name ≡ lit "error"))))

module _ {D : Type 0} (platform : Platform D) (readers : Readers) where
  parse_log_level-IsLevel :
      (raw : Text)
      → ((parse_log_level platform readers raw).1 ≡ none) ↔ IsLevel (to_lower platform.tables raw)
  unfolding parse_log_level
  parse_log_level-IsLevel raw =
      let level = to_lower platform.tables raw in
      ground (
        arith,
        text_eq_iff level (lit "debug"),
        text_eq_iff level (lit "info"),
        text_eq_iff level (lit "warn"),
        text_eq_iff level (lit "warning"),
        text_eq_iff level (lit "error"),
      )

  pub record IsAdmissible (env : Env) : Type 0 where
    pub read : Reads readers.parse_duration (env (lit "HTTP_READ_TIMEOUT"))
    pub write : Reads readers.parse_duration (env (lit "HTTP_WRITE_TIMEOUT"))
    pub idle : Reads readers.parse_duration (env (lit "HTTP_IDLE_TIMEOUT"))
    pub shutdown : Reads readers.parse_duration (env (lit "SHUTDOWN_TIMEOUT"))
    pub skew : Reads readers.parse_duration (env (lit "MAX_CLOCK_SKEW"))
    pub conns : Reads readers.parse_int (env (lit "DATABASE_MAX_CONNS"))
    pub batch : Reads readers.parse_int (env (lit "OUTBOX_BATCH_SIZE"))
    pub poll : Reads readers.parse_duration (env (lit "OUTBOX_POLL_INTERVAL"))
    pub types : LeavesSome (env (lit "TRANSACTION_TYPES"))
    pub currency :
        (c : Currency) × (Currency.lookup platform.tables
            (to_upper platform.tables (env_string env (lit "DEFAULT_CURRENCY") (lit "USD")))
          ≡ some c)
    pub level : IsLevel (to_lower platform.tables (env_string env (lit "LOG_LEVEL") (lit "info")))
    pub format :
        (env_string env (lit "LOG_FORMAT") (lit "json") ≡ lit "json")
        ⊎ (env_string env (lit "LOG_FORMAT") (lit "json") ≡ lit "text")

  types_errors-nil : (types : List Text) → (types_errors platform readers types ≡ []) ↔ (types ≢ [])
  unfolding types_errors
  types_errors-nil [] = (λ h. absurd (ground arith), λ h. absurd (h refl))
  types_errors-nil (t ∷ types) = (λ h k. ground arith, λ h. refl)

  currency_errors-nil :
      (code : Text)
      → (currency_errors platform readers code ≡ [])
        ↔ ((c : Currency) × (Currency.lookup platform.tables code ≡ some c))
  unfolding currency_errors
  currency_errors-nil code = elim (Option-cases (Currency.lookup platform.tables code)) [
    | inl unknown ↦
        simp (unknown, currency_errors)
          (λ h. absurd (ground arith), λ (c, e). absurd (ground arith))
    | inr (c, known) ↦ simp (known, currency_errors) (λ h. (c, refl), λ h. refl)
  ]

  level_errors-nil :
      (level : LogLevel × Option Text)
      → (level_errors platform readers level ≡ []) ↔ (level.1 ≡ none)
  unfolding level_errors
  level_errors-nil (level, none) = (λ h. refl, λ h. refl)
  level_errors-nil (level, some cause) = (λ h. absurd (ground arith), λ h. absurd (ground arith))

  format_errors-nil :
      (format : Text)
      → (format_errors platform readers format ≡ [])
        ↔ ((format ≡ lit "json") ⊎ (format ≡ lit "text"))
  unfolding format_errors
  format_errors-nil format =
      ground (arith, text_eq_iff format (lit "json"), text_eq_iff format (lit "text"))

  -- `envString` never gives the empty text where its fallback is not empty.
  addr_errors-nil :
      (env : Env)
      → addr_errors platform readers (env_string env (lit "HTTP_ADDR") (lit ":8080")) ≡ []
  unfolding addr_errors env_string lit
  addr_errors-nil env = elim (Option-cases (env (lit "HTTP_ADDR"))) [
    | inl unset ↦ simp (unset, env_string)
    | inr ([], set) ↦ simp (set, env_string)
    | inr (b ∷ v, set) ↦ simp (set, env_string)
  ]

  load-IsAdmissible : (env : Env) → (load platform readers env).1 ≡ [] → IsAdmissible env
  unfolding load
  load-IsAdmissible env h =
      let (read_all, checks) = (append-nil_iff _ _).0 h in
      let (types, checks) = (append-nil_iff _ _).0 checks in
      let (currency, checks) = (append-nil_iff _ _).0 checks in
      let (level, checks) = (append-nil_iff _ _).0 checks in
      let (format, addr) = (append-nil_iff _ _).0 checks in
      let (e, poll) = (env_duration-errs platform readers env _ _ _).0 read_all in
      let (e, batch) = (env_int-errs platform readers env _ _ _).0 e in
      let (e, conns) = (env_int-errs platform readers env _ _ _).0 e in
      let (e, skew) = (env_duration-errs platform readers env _ _ _).0 e in
      let (e, shutdown) = (env_duration-errs platform readers env _ _ _).0 e in
      let (e, idle) = (env_duration-errs platform readers env _ _ _).0 e in
      let (e, write) = (env_duration-errs platform readers env _ _ _).0 e in
      let (e, read) = (env_duration-errs platform readers env _ _ _).0 e in
      record {
        read = read;
        write = write;
        idle = idle;
        shutdown = shutdown;
        skew = skew;
        conns = conns;
        batch = batch;
        poll = poll;
        types = (types-LeavesSome env _ _ _).0 ((types_errors-nil _).0 types);
        currency = (currency_errors-nil _).0 currency;
        level = (parse_log_level-IsLevel (env_string env (lit "LOG_LEVEL") (lit "info"))).0 (
            (level_errors-nil (
                parse_log_level platform readers (env_string env (lit "LOG_LEVEL") (lit "info")))).0
              level);
        format = (format_errors-nil _).0 format;
      }

  IsAdmissible-load : (env : Env) → IsAdmissible env → (load platform readers env).1 ≡ []
  unfolding load
  IsAdmissible-load env a =
      let e = (env_duration-errs platform readers env _ _ _).1 (refl, a.read) in
      let e = (env_duration-errs platform readers env _ _ _).1 (e, a.write) in
      let e = (env_duration-errs platform readers env _ _ _).1 (e, a.idle) in
      let e = (env_duration-errs platform readers env _ _ _).1 (e, a.shutdown) in
      let e = (env_duration-errs platform readers env _ _ _).1 (e, a.skew) in
      let e = (env_int-errs platform readers env _ _ _).1 (e, a.conns) in
      let e = (env_int-errs platform readers env _ _ _).1 (e, a.batch) in
      let e = (env_duration-errs platform readers env _ _ _).1 (e, a.poll) in
      (append-nil_iff _ _).1 (
        e,
        (append-nil_iff _ _).1 (
          (types_errors-nil _).1 ((types-LeavesSome env _ _ _).1 a.types),
          (append-nil_iff _ _).1 (
            (currency_errors-nil _).1 a.currency,
            (append-nil_iff _ _).1 (
              (level_errors-nil (
                    parse_log_level platform readers
                      (env_string env (lit "LOG_LEVEL") (lit "info")))).1
                  ((parse_log_level-IsLevel (env_string env (lit "LOG_LEVEL") (lit "info"))).1
                    a.level),
              (append-nil_iff _ _).1 ((format_errors-nil _).1 a.format, addr_errors-nil env),
            ),
          ),
        ),
      )

  -- `Load` reports no problem exactly for the admissible environments: every duration and number that
  -- is set is positive, the list of types is left out, blank, or has a part that is not blank, the
  -- default currency is in the table, and the log level and format are known.
  pub load_iff : (env : Env) → ((load platform readers env).1 ≡ []) ↔ IsAdmissible env
  load_iff env = (load-IsAdmissible env, IsAdmissible-load env)
