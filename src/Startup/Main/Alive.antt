-- ===== src/Startup/Main/Alive.antt =====
-- A container that asks its own server.
use emovis_micro_service.Base.{◌≡◌, refl, ap, ◌∙◌}
use emovis_micro_service.Platform.{Platform}
use emovis_micro_service.Metrics.{Metrics}
use emovis_micro_service.Store.Interface.{StoreApi}
use emovis_micro_service.Health.{handle_live}
use emovis_micro_service.HttpApi.Middleware.Accounting.{inner_request}
use emovis_micro_service.HttpApi.Middleware.Passing.{shown}
use emovis_micro_service.HttpApi.Server.{
  Library, Incoming, Route, live, liveness, matched, handled, mux, sent, write_json,
}
use emovis_micro_service.HttpApi.Server.Traces.{encoded, write_json-shown, IsQuiet, sent-returned}

module _ {S D : Type 0} (library : Library) (platform : Platform D) (api : StoreApi S D)
    (quiet : IsQuiet library) where
  handled-live :
      (route : Route) (c : Incoming) (w : S × Metrics)
      → route ≡ live
      → (handled library platform api route c (inner_request c.fresh_id c.http) w).trace
        ≡ write_json library 200 (liveness handle_live.1)
  unfolding handled handle_live
  handled-live route c w h = rw h refl

  -- The liveness probe is answered 200 by every server that runs, whatever its store holds or its
  -- checks say.
  pub sent-alive :
      (c : Incoming) (w : S × Metrics)
      → matched c.http.pattern ≡ live
      → shown (sent library platform api c w) ≡ (200, encoded library (liveness handle_live.1))
  unfolding mux inner_request write_json
  sent-alive c w h =
      let here = handled-live (matched c.http.pattern) c w h in
      sent-returned library platform api quiet c w (ap (λ t. t.ending) here)
      ∙ ap shown here
      ∙ write_json-shown library 200 _
