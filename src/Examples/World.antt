-- ===== src/Examples/World.antt =====
-- A small world to run the definitions in: decimals that are their own text, an encoding that fails
-- for a transaction without a source, and a digest that is the text itself.
use emovis_micro_service.Base.{
  ◌-◌, ◌^◌, ltb, ◌*◌, ◌+◌, ℕ, ◌==◌, pos, Text, lit, Bool, false, is_empty, text_eq, if◌then◌else◌,
  [], ◌∷◌, ◌++◌, none, some, ok, err,
}
use emovis_micro_service.Base.Clock.{Time, utc, zero_instant, second}
use emovis_micro_service.Platform.{Platform}
use emovis_micro_service.Money.Currency.{Currency}
use emovis_micro_service.Transaction.Model.{Transaction, received, priced}
use emovis_micro_service.Transaction.Validate.{Rules, System}
use emovis_micro_service.HttpApi.Request.{IngestRequest}
use emovis_micro_service.Store.Postgres.Database.{Server, EventRow}
use emovis_micro_service.Outbox.Backoff.{FloatApi}
use emovis_micro_service.Outbox.Backoff.Bounds.{doubled}
use emovis_micro_service.Outbox.Relay.{Pass}
use emovis_micro_service.Store.Postgres.{Conditions, commits}

abbrev starts_negative : Text → Bool
starts_negative [] = false
starts_negative (b ∷ s) = b == b'-'

abbrev pub platform : Platform Text
platform = record {
  tables = record { lower_runes = λ s. s; upper_runes = λ s. s };
  formats = record { quote = λ s. s; duration = λ n. n ∷ [] };
  decimal = record {
    zero = lit "0";
    new_from_string = λ s. ok s;
    is_negative = starts_negative;
    is_zero = λ s. text_eq s (lit "0");
    equal = text_eq;
    to_string = λ s. s;
    string_fixed = λ s places. s;
  };
  marshal_fields =
      λ f. if is_empty f.source then err (lit "no source") else ok (f.source ++ f.amount);
  marshal_body = λ b. ok b.source;
  sha256_hex = λ s. s;
  uuid_text = λ n. n ∷ [];
}

abbrev pub at_noon : Time
at_noon = record { instant = zero_instant + 43200 * second; location = utc }

abbrev pub usd : Currency
usd = record { code = lit "USD"; exponent = pos 2 }

abbrev pub rules : Rules
rules = record {
  types = some ((lit "toll", lit "Toll") ∷ []);
  default_currency = usd;
  max_clock_skew = pos 0;
  now = none;
  new_id = none;
}

abbrev pub system : ℕ → System
system id = record { clock = at_noon; new_v7 = ok id }

abbrev pub request : Text → IngestRequest
request amount = record {
  source = lit "lane-7";
  source_reference = lit "918";
  transaction_type = lit "TOLL";
  transaction_time_utc = at_noon;
  base_amount = amount;
  plate = some (record { number = lit "abc-123"; jurisdiction = lit "TX" });
  transponder_number = none;
  currency = none;
  location = none;
  metadata = none;
}

abbrev pub toll : ℕ → Transaction Text
toll id = record {
  id = id;
  source = lit "lane-7";
  source_reference = lit "918";
  kind = lit "Toll";
  occurred_at = at_noon;
  received_at = at_noon;
  plate = some (record {
    number = lit "abc-123";
    jurisdiction = lit "TX";
    number_key = lit "ABC123";
    jurisdiction_key = lit "TX";
  });
  transponder = none;
  base_amount = record { value = lit "12.50"; currency = usd; as_received = lit "12.50" };
  location = none;
  metadata = none;
  association_status = received;
  settlement_status = priced;
}

abbrev pub server : Server Text
server = record {
  store_time = λ t. t;
  store_json = λ j. j;
  store_numeric = λ d. some d;
  numeric_is_negative = starts_negative;
}

-- A call in which nothing fails.
abbrev pub calm : ℕ → Conditions
calm event_id = record {
  begin = none;
  insert = none;
  new_event_id = ok event_id;
  queue = none;
  select = none;
  commit = commits;
  now = 5;
}

-- Floats that stop at the greatest 64-bit integer.
abbrev pub float : FloatApi
float = record {
  scaled = λ b k. if ltb (doubled b k) (2 ^ 63) then pos (doubled b k) else pos (2 ^ 63 - 1);
}

-- A pass of the relay in which nothing fails.
abbrev pub pass : ℕ → Pass
pass now = record {
  begin = none;
  query = none;
  reading = none;
  locked = λ id. false;
  publish = λ e. none;
  mark = λ e. none;
  commit = commits;
  now = now;
}

abbrev pub waiting : ℕ → EventRow
waiting id = record {
  event = record {
    id = id;
    kind = lit "transaction.received";
    aggregate_id = id;
    payload = [];
    created_at = at_noon;
  };
  published_at = none;
  attempts = 0;
  last_error = none;
  next_attempt_at = 5;
}
