-- ===== src/System/Service/Readable.antt =====
-- The rows of the store over what the service does.
use mathlib.Core.Path.{subst}
use emovis_micro_service.Base.{List, [], ◌∷◌, All, Option, none, some, ◌≡◌, sym}
use emovis_micro_service.Platform.{Platform}
use emovis_micro_service.Transaction.Model.{Transaction}
use emovis_micro_service.Transaction.Validate.{Rules, System, accepted, accept}
use emovis_micro_service.Outbox.Backoff.{FloatApi}
use emovis_micro_service.Store.Postgres.Database.{Server}
use emovis_micro_service.Store.Postgres.RoundTrip.{HasKnownDefault, ReadsBack, accepted-ReadsBack}
use emovis_micro_service.Store.Postgres.Contract.{
  Session, postgres_api, IsReadable, postgres_api-IsStore,
}
use emovis_micro_service.HttpApi.Request.{IngestRequest}
use emovis_micro_service.HttpApi.Mapping.{to_submission}
use emovis_micro_service.HttpApi.Contract.{Refusal}
use emovis_micro_service.HttpApi.Ingest.History.{push-IsValid}
use emovis_micro_service.HttpApi.Server.{
  Library, Incoming, Route, live, readies, scrape, ingest, unmatched, matched,
}
use emovis_micro_service.HttpApi.Server.Admitted.{
  let_through, admitted_by, admitted, pushed, exchange-pushed,
}
use emovis_micro_service.System.{relayed}
use emovis_micro_service.System.Service.{Service, Turn, serves, passes_over, turn, turns}

module _ {D : Type 0} (library : Library) (platform : Platform D) (server : Server D)
    (float : FloatApi) where
  -- A request is served under rules whose default currency is in the table.
  abbrev pub HasKnownRules : Turn → Type 0
  HasKnownRules (serves c) = HasKnownDefault platform c.rules
  HasKnownRules (passes_over opts c) = Unit

  pub stores :
      (r : Rules) (sys : System) (body : IngestRequest) (tx : Transaction D)
      → HasKnownDefault platform r
      → accept platform r sys (to_submission body) ≡ accepted tx
      → ReadsBack platform tx
  stores r sys body tx known h = accepted-ReadsBack platform r sys (to_submission body) tx known h

  let_through-IsReadable :
      (o : Option Refusal) (c : Incoming) (s : Session D)
      → HasKnownDefault platform c.rules
      → IsReadable platform server s
      → IsReadable platform server
          (pushed library platform (postgres_api platform server) (let_through o c) s)
  let_through-IsReadable none c s known h =
      push-IsValid platform (postgres_api platform server) (postgres_api-IsStore platform server)
        (HasKnownDefault platform) stores s _ known h
  let_through-IsReadable (some refusal) c s known h = h

  admitted-IsReadable :
      (route : Route) (c : Incoming) (s : Session D)
      → HasKnownDefault platform c.rules
      → IsReadable platform server s
      → IsReadable platform server
          (pushed library platform (postgres_api platform server) (admitted_by route c) s)
  admitted-IsReadable live c s known h = h
  admitted-IsReadable readies c s known h = h
  admitted-IsReadable scrape c s known h = h
  admitted-IsReadable ingest c s known h = let_through-IsReadable c.refusal c s known h
  admitted-IsReadable unmatched c s known h = h

  turn-IsReadable :
      (x : Turn) (v : Service D)
      → HasKnownRules x
      → IsReadable platform server v.session
      → IsReadable platform server (turn library platform server float x v).session
  unfolding turn relayed admitted
  turn-IsReadable (serves c) v known h =
      subst (IsReadable platform server)
        (sym
          (exchange-pushed library platform (postgres_api platform server) c v.session v.metrics))
        (admitted-IsReadable (matched c.http.pattern) c v.session known h)
  turn-IsReadable (passes_over opts c) v known h = h

  pub turns-IsReadable :
      (xs : List Turn) (v : Service D)
      → All HasKnownRules xs
      → IsReadable platform server v.session
      → IsReadable platform server (turns library platform server float xs v).session
  unfolding turns
  turns-IsReadable [] v k h = h
  turns-IsReadable (x ∷ xs) v (k, ks) h =
      turns-IsReadable xs (turn library platform server float x v) ks (turn-IsReadable x v k h)
