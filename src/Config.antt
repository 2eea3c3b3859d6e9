-- ===== src/Config.antt =====
-- internal/config/config.go: the settings of a process, read from its environment. Every problem is
-- recorded, and reading goes on.
pub mod Admissible
pub mod Lists
pub mod Readings
use emovis_micro_service.Base.{
  ℕ, ◌*◌, ℤ, pos, pos_part, is_nonpos, Text, lit, text_eq, is_empty, Bool, true, false, ◌&&◌, ◌||◌,
  not, if◌then◌else◌, List, [], ◌∷◌, ◌++◌, Option, none, some, Result, ok, err,
}
use emovis_micro_service.Base.Case.{to_lower, to_upper}
use emovis_micro_service.Base.Clock.{second}
use emovis_micro_service.Base.Format.{decimal_text}
use emovis_micro_service.Base.Space.{trim_space}
use emovis_micro_service.Platform.{Platform}
use emovis_micro_service.Transaction.Validate.{default_max_clock_skew}
use emovis_micro_service.Money.Currency
use emovis_micro_service.Money.Currency.{Currency}

-- `os.LookupEnv`, where the environment does not change.
abbrev pub Env : Type 0
Env = Text → Option Text

-- `strconv.Atoi`, `time.ParseDuration` and the text of a duration.
pub record Readers : Type 0 where
  pub parse_int : Text → Option ℤ
  pub parse_duration : Text → Option ℤ
  pub duration_text : ℤ → Text

pub data LogLevel : Type 0 where
  level_debug level_info level_warn level_error : LogLevel

pub record Config : Type 0 where
  pub service_name : Text
  pub environment : Text
  pub http_addr : Text
  pub read_timeout : ℕ
  pub write_timeout : ℕ
  pub idle_timeout : ℕ
  pub shutdown_timeout : ℕ
  pub log_level : LogLevel
  pub log_format : Text
  pub transaction_types : List Text
  pub default_currency : Text
  pub max_clock_skew : ℕ
  pub database_url : Text
  pub database_max_conns : ℕ
  pub outbox_batch_size : ℕ
  pub outbox_poll_interval : ℕ
  pub metrics_addr : Text

-- `UsesDatabase`
unfoldable pub uses_database : Config → Bool
uses_database cfg = not (is_empty cfg.database_url)

-- `envString`
unfoldable pub env_string : Env → Text → Text → Text
env_string env key fallback = elim (env key) [
  | none ↦ fallback
  | some v ↦ if is_empty v then fallback else v
]

-- `strings.SplitSeq` at commas: the text up to the first, and the rest.
unfoldable pub split_comma : Text → List Text
split_comma [] = [] ∷ []
split_comma (b ∷ s) =
    let rest = split_comma s in
    if text_eq (b ∷ []) (lit ",")
    then [] ∷ rest
    else elim rest [ [] ↦ (b ∷ []) ∷ [] | part ∷ parts ↦ (b ∷ part) ∷ parts ]

unfoldable pub trimmed_parts : List Text → List Text
trimmed_parts [] = []
trimmed_parts (part ∷ parts) =
    let rest = trimmed_parts parts in
    if is_empty (trim_space part) then rest else trim_space part ∷ rest

-- `envStringSlice`
unfoldable pub env_string_slice : Env → Text → List Text → List Text
unfolding split_comma trimmed_parts
env_string_slice env key fallback = elim (env key) [
  | none ↦ fallback
  | some raw ↦ if is_empty (trim_space raw) then fallback else trimmed_parts (split_comma raw)
]

module _ {D : Type 0} (platform : Platform D) (readers : Readers) where
  positive : Text → Text → ℕ → List Text → ℤ → ℕ × List Text
  positive key shown fallback errs n =
      if is_nonpos n
      then (fallback, errs ++ ((key ++ (lit ": must be positive, got " ++ shown)) ∷ []))
      else (pos_part n, errs)

  -- `envInt`
  unfoldable pub env_int : Env → Text → ℕ → List Text → ℕ × List Text
  unfolding positive
  env_int env key fallback errs = elim (env key) [
    | none ↦ (fallback, errs)
    | some raw ↦ if is_empty raw then (fallback, errs) else elim (readers.parse_int raw) [
      | none ↦ (
        fallback,
        errs
            ++ ((key ++ (lit ": " ++ (platform.formats.quote raw ++ lit " is not a valid integer")))
                ∷ []),
      )
      | some n ↦ positive key (decimal_text n) fallback errs n
    ]
  ]

  -- `envDuration`
  unfoldable pub env_duration : Env → Text → ℕ → List Text → ℕ × List Text
  unfolding positive
  env_duration env key fallback errs = elim (env key) [
    | none ↦ (fallback, errs)
    | some raw ↦ if is_empty raw then (fallback, errs) else elim (readers.parse_duration raw) [
      | none ↦ (
        fallback,
        errs
            ++ ((key
                  ++ (lit ": "
                      ++ (platform.formats.quote raw
                          ++ (lit " is not a valid duration (e.g. "
                              ++ (platform.formats.quote (lit "5s") ++ lit ")")))))
                ∷ []),
      )
      | some d ↦ positive key (readers.duration_text d) fallback errs d
    ]
  ]

  -- `parseLogLevel`
  unfoldable pub parse_log_level : Text → LogLevel × Option Text
  parse_log_level raw =
      let level = to_lower platform.tables raw in
      if text_eq level (lit "debug")
      then (level_debug, none)
      else if text_eq level (lit "info")
      then (level_info, none)
      else if text_eq level (lit "warn") || text_eq level (lit "warning")
      then (level_warn, none)
      else if text_eq level (lit "error")
      then (level_error, none)
      else (
        level_info,
        some (
            lit "LOG_LEVEL: want one of debug|info|warn|error, got " ++ platform.formats.quote raw),
      )

  -- The checks of `Load` on what it has read.
  unfoldable pub types_errors : List Text → List Text
  types_errors [] = lit "TRANSACTION_TYPES: must list at least one accepted type" ∷ []
  types_errors (t ∷ types) = []

  unfoldable pub currency_errors : Text → List Text
  currency_errors code = elim (Currency.lookup platform.tables code) [
    | some c ↦ []
    | none ↦
        (lit "DEFAULT_CURRENCY: "
          ++ (platform.formats.quote code ++ lit " is not a recognised ISO-4217 code"))
        ∷ []
  ]

  unfoldable pub level_errors : LogLevel × Option Text → List Text
  level_errors (level, none) = []
  level_errors (level, some cause) = cause ∷ []

  unfoldable pub format_errors : Text → List Text
  format_errors format =
      if not (text_eq format (lit "json")) && not (text_eq format (lit "text"))
      then (lit "LOG_FORMAT: want "
          ++ (platform.formats.quote (lit "json")
              ++ (lit " or "
                  ++ (platform.formats.quote (lit "text")
                      ++ (lit ", got " ++ platform.formats.quote format)))))
        ∷ []
      else []

  unfoldable pub addr_errors : Text → List Text
  addr_errors addr = if is_empty addr then lit "HTTP_ADDR: must not be empty" ∷ [] else []

  -- `Load`: the configuration, and the problems, which it joins into one error.
  unfoldable pub load : Env → Config × List Text
  unfolding env_string env_string_slice env_int env_duration parse_log_level types_errors
      currency_errors level_errors format_errors addr_errors
  load env =
      let (read, errs) = env_duration env (lit "HTTP_READ_TIMEOUT") (5 * second) [] in
      let (write, errs) = env_duration env (lit "HTTP_WRITE_TIMEOUT") (10 * second) errs in
      let (idle, errs) = env_duration env (lit "HTTP_IDLE_TIMEOUT") (120 * second) errs in
      let (shutdown, errs) = env_duration env (lit "SHUTDOWN_TIMEOUT") (15 * second) errs in
      let (skew, errs) = env_duration env (lit "MAX_CLOCK_SKEW") default_max_clock_skew errs in
      let (conns, errs) = env_int env (lit "DATABASE_MAX_CONNS") 10 errs in
      let (batch, errs) = env_int env (lit "OUTBOX_BATCH_SIZE") 100 errs in
      let (poll, errs) = env_duration env (lit "OUTBOX_POLL_INTERVAL") (2 * second) errs in
      let types =
        env_string_slice env (lit "TRANSACTION_TYPES")
          (lit "toll" ∷ lit "violation" ∷ lit "fee" ∷ []) in
      let currency =
        to_upper platform.tables (env_string env (lit "DEFAULT_CURRENCY") (lit "USD")) in
      let level = parse_log_level (env_string env (lit "LOG_LEVEL") (lit "info")) in
      let format = env_string env (lit "LOG_FORMAT") (lit "json") in
      let addr = env_string env (lit "HTTP_ADDR") (lit ":8080") in
      (
        record {
          service_name = env_string env (lit "SERVICE_NAME") (lit "transaction-ingest");
          environment = env_string env (lit "ENVIRONMENT") (lit "local");
          http_addr = addr;
          read_timeout = read;
          write_timeout = write;
          idle_timeout = idle;
          shutdown_timeout = shutdown;
          log_level = level.0;
          log_format = format;
          transaction_types = types;
          default_currency = currency;
          max_clock_skew = skew;
          database_url = env_string env (lit "DATABASE_URL") [];
          database_max_conns = conns;
          outbox_batch_size = batch;
          outbox_poll_interval = poll;
          metrics_addr = env_string env (lit "METRICS_ADDR") (lit ":9090");
        },
        errs
            ++ (types_errors types
                ++ (currency_errors currency
                    ++ (level_errors level ++ (format_errors format ++ addr_errors addr)))),
      )
