-- ===== src/HttpApi/Middleware.antt =====
-- internal/httpapi/middleware: the wrappers of a handler. A request that is served leaves a trace of
-- what was done with it, in order, and may end in a panic.
pub mod Traces
pub mod Accounting
pub mod Passing
pub mod RequestIds
use emovis_micro_service.Base.{
  ℕ, zero, suc, ◌+◌, Text, lit, text_eq, is_empty, Bool, true, false, ◌==◌, ◌||◌, ltb,
  if◌then◌else◌, length, List, [], ◌∷◌, ◌++◌, reverse, Option, none, some,
}

pub record HttpRequest : Type 0 where
  pub method : Text
  pub path : Text
  -- The pattern of the mux that matched, or the empty text.
  pub pattern : Text
  -- The header `X-Request-Id`, empty if there is none, and the identifier in the context.
  pub inbound_id : Text
  pub request_id : Text
  -- How many bytes of the body may be read, if that is limited.
  pub body_limit : Option ℕ

-- What is done in the course of a request.
pub data Action : Type 0 where
  set_header : Text → Text → Action
  write_header : ℕ → Action
  write : Text → Action
  access_log : HttpRequest → ℕ → ℕ → Action
  panic_log : HttpRequest → Action
  count_request : Text → Text → ℕ → Action

pub data Ending : Type 0 where
  returns panics aborts : Ending

pub record Trace : Type 0 where
  pub actions : List Action
  pub ending : Ending

-- `http.Handler`, with the state that it closes over left to the function.
abbrev pub Handler : Type 0
Handler = HttpRequest → Trace

abbrev pub Middleware : Type 0
Middleware = Handler → Handler

-- `Chain`: the loop from the last middleware to the first.
unfoldable pub chain_loop : Handler → List Middleware → Handler
chain_loop h [] = h
chain_loop h (m ∷ middlewares) = chain_loop (m h) middlewares

unfoldable pub chain : Handler → List Middleware → Handler
unfolding chain_loop
chain h middlewares = chain_loop h (reverse middlewares)

-- `responseRecorder`
pub record ResponseRecorder : Type 0 where
  pub status : ℕ
  pub bytes : ℕ

unfoldable pub record_action : ResponseRecorder → Action → ResponseRecorder
record_action r (write_header status) = if r.status == 0 then record r { status = status } else r
record_action r (write b) = record {
  status = if r.status == 0 then 200 else r.status;
  bytes = r.bytes + length b;
}
record_action r _ = r

unfoldable pub record_all : ResponseRecorder → List Action → ResponseRecorder
unfolding record_action
record_all r [] = r
record_all r (a ∷ actions) = record_all (record_action r a) actions

unfoldable pub status_code : ResponseRecorder → ℕ
status_code r = if r.status == 0 then 200 else r.status

abbrev pub new_recorder : ResponseRecorder
new_recorder = record { status = 0; bytes = 0 }

-- What follows a handler that returns.
abbrev after_return : Trace → List Action → Trace
after_return t more = elim t.ending [
  | returns ↦ record t { actions = t.actions ++ more }
  | panics ↦ t
  | aborts ↦ t
]

-- `RequestID`; `fresh` is what `newRequestID` draws.
unfoldable pub request_id : Text → Middleware
request_id fresh next r =
    let id =
      if is_empty r.inbound_id || ltb 128 (length r.inbound_id) then fresh else r.inbound_id in
    let t = next (record r { request_id = id }) in
    record t { actions = set_header (lit "X-Request-Id") id ∷ t.actions }

-- `MaxBody`, for a request that has a body
unfoldable pub default_max_body_bytes : ℕ
default_max_body_bytes = 1048576

unfoldable pub max_body : ℕ → Middleware
unfolding default_max_body_bytes
max_body limit next r =
    next (record r { body_limit = some (if limit == 0 then default_max_body_bytes else limit) })

-- `isProbe`
unfoldable pub is_probe : Text → Bool
is_probe path = text_eq path (lit "/healthz") || text_eq path (lit "/readyz")

-- `Logger`
unfoldable pub logger : Middleware
unfolding is_probe record_all status_code
logger next r =
    let t = next r in
    let rec = record_all new_recorder t.actions in
    if is_probe r.path then t else after_return t (access_log r (status_code rec) rec.bytes ∷ [])

-- `routeOf`
unfoldable pub route_of : HttpRequest → Text
route_of r = if is_empty r.pattern then lit "unmatched" else r.pattern

-- `Metrics`
unfoldable pub metrics : Middleware
unfolding route_of record_all status_code
metrics next r =
    let t = next r in
    let rec = record_all new_recorder t.actions in
    after_return t (count_request r.method (route_of r) (status_code rec) ∷ [])

unfoldable pub panic_body : Text
panic_body = lit "{\"code\":500,\"message\":\"internal server error\"}"

-- `Recover`
unfoldable pub recover : Middleware
unfolding panic_body
recover next r =
    let t = next r in
    elim t.ending [
      | returns ↦ t
      | aborts ↦ t
      | panics ↦ record {
        actions =
            t.actions
            ++ (panic_log r
                ∷ set_header (lit "Content-Type") (lit "application/json")
                ∷ write_header 500
                ∷ write panic_body
                ∷ []);
        ending = returns;
      }
    ]

-- The chain of `NewRouter`
unfoldable pub router : Text → Handler → Handler
unfolding chain request_id max_body logger metrics recover
router fresh mux =
    chain mux (request_id fresh ∷ max_body default_max_body_bytes ∷ logger ∷ metrics ∷ recover ∷ [])
