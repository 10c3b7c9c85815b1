-- ===== src/Daemon/Requests/Once.antt =====
-- tep/hb_tep.py: a request that arrives twice.
use node_installer.Prelude.{
  ℕ, ◌+◌, ◌<◌, String, ◌≡◌, refl, ap, ◌∙◌, true, false, Option, List, All, length,
}
use node_installer.Json.{Loaded, Json, Fields}
use node_installer.Outcome.{Outcome, ok, error, exception}
use node_installer.App.Envelope.{Identity, Envelope}
use node_installer.App.Replay.{Cache, check_and_add}
use node_installer.App.Replay.Detection.{Call, run, check_and_add-replay}
use node_installer.Service.{Registered}
use node_installer.Daemon.Requests.{
  Sent, response, failure, Served, as_failure, send_app_error, admitted, handle_app_request,
}

abbrev IsFailure : Sent → Type 0
IsFailure (response raw) = ⊥
IsFailure (failure raw) = Unit

-- The request was not dispatched, and no response was sent.
pub record IsRefused (s : Served) : Type 0 where
  pub not_called : s.dispatched ≡ false
  pub no_response : All IsFailure s.sent

module _ (parse : List ℕ → Loaded) (dump : Fields → Option (List ℕ)) (services : List String)
    (local_identity : Identity) (timestamp : Json) (nonce : String) (text_of : String → Json)
    (transmit : ℕ → List ℕ → Outcome (Unit {0})) (registry : List Registered) where
  as_failure-IsFailure :
      (m : Outcome (List ℕ))
      → All IsFailure (
          as_failure parse dump services local_identity timestamp nonce text_of transmit registry m)
  as_failure-IsFailure (ok raw) = (tt, tt)
  as_failure-IsFailure (error code) = tt
  as_failure-IsFailure exception = tt

  called :
      (env : Envelope) (o : Outcome (Unit {0}) × Cache)
      → (admitted parse dump services local_identity timestamp nonce text_of transmit registry env
          o).dispatched
        ≡ true
      → o.0 ≡ ok tt
  called env (ok u, c) h = refl
  called env (error code, c) h = cc
  called env (exception, c) h = cc

  kept :
      (env : Envelope) (o : Outcome (Unit {0}) × Cache)
      → (admitted parse dump services local_identity timestamp nonce text_of transmit registry env
          o).cache
        ≡ o.1
  kept env (ok u, c) = refl
  kept env (error code, c) = refl
  kept env (exception, c) = refl

  turned_down :
      (env : Envelope) (code : String) (o : Outcome (Unit {0}) × Cache)
      → o.0 ≡ error code
      → IsRefused (
          admitted parse dump services local_identity timestamp nonce text_of transmit registry env
            o)
  unfolding send_app_error
  turned_down env code (ok u, c) h = cc
  turned_down env code (error other, c) h = record {
    not_called = refl;
    no_response = as_failure-IsFailure _;
  }
  turned_down env code (exception, c) h = cc

  -- A request is dispatched to the services at most once. Once a request of a peer has been dispatched at time
  -- `now`, the same request at any time before the window of the replay cache is over is not dispatched and is
  -- sent no response, if in between fewer requests were looked up than the cache has entries, all before the
  -- window is over.
  pub handle_app_request-once :
      (now later : ℕ) (env : Envelope) (between : List Call) (c : Cache)
      → length between < c.max_entries
      → All (λ x. x.now < now + c.window_sec) between
      → later < now + c.window_sec
      → let first =
          handle_app_request parse dump services local_identity timestamp nonce text_of transmit
            registry now env c in
        first.dispatched ≡ true
        → IsRefused (
            handle_app_request parse dump services local_identity timestamp nonce text_of transmit
              registry later env
              (run between first.cache))
  unfolding handle_app_request
  handle_app_request-once now later env between c room before live was_called =
      let first = check_and_add env.source.peer_id env.request_id now c in
      turned_down env "replay_detected" _ (
        ap (λ k. (check_and_add env.source.peer_id env.request_id later (run between k)).0)
          (kept env first)
        ∙ check_and_add-replay env.source.peer_id env.request_id now later between c room before
            live (called env first was_called))
