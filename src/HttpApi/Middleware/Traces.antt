-- ===== src/HttpApi/Middleware/Traces.antt =====
-- What a trace sends, counts and logs, and the order of a chain.
use mathlib.Core.List.{reverse-cons}
use emovis_micro_service.Base.{
  ℕ, ◌==◌, ◌≡◌, ◌≢◌, refl, ap, ◌∙◌, arith, false, if◌then◌else◌, List, [], ◌∷◌, ◌++◌, reverse, All,
}
use emovis_micro_service.HttpApi.Middleware.{
  Action, set_header, write_header, write, access_log, panic_log, count_request, returns, aborts,
  Trace, Handler, Middleware, chain_loop, chain, ResponseRecorder, record_action, record_all,
  status_code,
}

-- The status that goes to the client: that of the first header that is written, and 200 where the
-- body comes first or nothing is written.
unfoldable pub sent_status : List Action → ℕ
sent_status [] = 200
sent_status (write_header status ∷ actions) = status
sent_status (write b ∷ actions) = 200
sent_status (_ ∷ actions) = sent_status actions

-- A status that a handler may write.
abbrev pub HasCode : Action → Type 0
HasCode (write_header status) = (status == 0) ≡ false
HasCode _ = Unit

pub record_all-sent :
    (r : ResponseRecorder) (actions : List Action)
    → All HasCode actions
    → status_code (record_all r actions) ≡ (if r.status == 0 then sent_status actions else r.status)
unfolding status_code record_all record_action sent_status
record_all-sent r [] h = refl
record_all-sent r (set_header k v ∷ actions) h = record_all-sent r actions h.1
record_all-sent r (write_header status ∷ actions) h =
    ground (arith, record_all-sent (record_action r (write_header status)) actions)
record_all-sent r (write b ∷ actions) h =
    ground (arith, record_all-sent (record_action r (write b)) actions)
record_all-sent r (access_log q s n ∷ actions) h = record_all-sent r actions h.1
record_all-sent r (panic_log q ∷ actions) h = record_all-sent r actions h.1
record_all-sent r (count_request m p s ∷ actions) h = record_all-sent r actions h.1

-- What the middlewares add to a trace.
unfoldable pub counted : List Action → List ℕ
counted [] = []
counted (count_request m p s ∷ actions) = s ∷ counted actions
counted (_ ∷ actions) = counted actions

unfoldable pub logged : List Action → List ℕ
logged [] = []
logged (access_log q s n ∷ actions) = s ∷ logged actions
logged (_ ∷ actions) = logged actions

pub counted-append : (xs ys : List Action) → counted (xs ++ ys) ≡ counted xs ++ counted ys
unfolding counted
counted-append [] ys = refl
counted-append (set_header k v ∷ xs) ys = counted-append xs ys
counted-append (write_header s ∷ xs) ys = counted-append xs ys
counted-append (write b ∷ xs) ys = counted-append xs ys
counted-append (access_log q s n ∷ xs) ys = counted-append xs ys
counted-append (panic_log q ∷ xs) ys = counted-append xs ys
counted-append (count_request m p s ∷ xs) ys = ap (λ l. s ∷ l) (counted-append xs ys)

pub logged-append : (xs ys : List Action) → logged (xs ++ ys) ≡ logged xs ++ logged ys
unfolding logged
logged-append [] ys = refl
logged-append (set_header k v ∷ xs) ys = logged-append xs ys
logged-append (write_header s ∷ xs) ys = logged-append xs ys
logged-append (write b ∷ xs) ys = logged-append xs ys
logged-append (access_log q s n ∷ xs) ys = ap (λ l. s ∷ l) (logged-append xs ys)
logged-append (panic_log q ∷ xs) ys = logged-append xs ys
logged-append (count_request m p s ∷ xs) ys = logged-append xs ys

pub sent_status-append_quiet :
    (xs : List Action) (a : Action)
    → sent_status (a ∷ []) ≡ 200
    → sent_status (xs ++ (a ∷ [])) ≡ sent_status xs
unfolding sent_status
sent_status-append_quiet [] a h = h
sent_status-append_quiet (set_header k v ∷ xs) a h = sent_status-append_quiet xs a h
sent_status-append_quiet (write_header s ∷ xs) a h = refl
sent_status-append_quiet (write b ∷ xs) a h = refl
sent_status-append_quiet (access_log q s n ∷ xs) a h = sent_status-append_quiet xs a h
sent_status-append_quiet (panic_log q ∷ xs) a h = sent_status-append_quiet xs a h
sent_status-append_quiet (count_request m p s ∷ xs) a h = sent_status-append_quiet xs a h

-- A trace as a handler leaves it: it returns, writes statuses that there are, and leaves logging and
-- counting to the middlewares.
pub record IsPlain (t : Trace) : Type 0 where
  pub returned : t.ending ≡ returns
  pub codes : All HasCode t.actions
  pub uncounted : counted t.actions ≡ []
  pub unlogged : logged t.actions ≡ []

-- The same where it may panic, but does not abort on purpose.
pub record IsHandled (t : Trace) : Type 0 where
  pub stays : t.ending ≢ aborts
  pub codes : All HasCode t.actions
  pub uncounted : counted t.actions ≡ []
  pub unlogged : logged t.actions ≡ []

pub chain_loop-append :
    (h : Handler) (ms : List Middleware) (m : Middleware)
    → chain_loop h (ms ++ (m ∷ [])) ≡ m (chain_loop h ms)
unfolding chain_loop
chain_loop-append h [] m = refl
chain_loop-append h (k ∷ ms) m = chain_loop-append (k h) ms m

-- The first middleware is the outermost.
pub chain-cons :
    (h : Handler) (m : Middleware) (ms : List Middleware) → chain h (m ∷ ms) ≡ m (chain h ms)
unfolding chain
chain-cons h m ms = ap (chain_loop h) (reverse-cons m ms) ∙ chain_loop-append h (reverse ms) m
