-- ===== src/Daemon/Requests.antt =====
-- tep/hb_tep.py: TepEngine._handle_app_request with _send_app_error. `transmit` is _send_plain_to_peer: it
-- sends a packet, or raises a ProtocolError or another exception. The nonces of messages come from `secrets`;
-- `text_of` is the text of the error with a code, cut to 160 characters.
pub mod Once
use node_installer.Prelude.{ℕ, String, Bool, true, false, Option, List, [], ◌∷◌, pos}
use node_installer.Json.{Loaded, Json, Fields, obj, str, int}
use node_installer.Outcome.{Outcome, ok, error, exception, ◌>>=◌, ◌>>◌}
use node_installer.App.Envelope.{Identity, Envelope}
use node_installer.App.Message.{encode_message, new_response, new_error}
use node_installer.App.Replay.{Cache, check_and_add}
use node_installer.Service.{
  Registered, Handled, result, protocol_error, service_error, failed, dispatch,
}
use node_installer.Daemon.{pkt_app_response, pkt_app_error}

pub data Sent : Type 0 where
  response : List ℕ → Sent
  failure : List ℕ → Sent

-- What a request leaves: the replay cache, whether it was dispatched, and what was sent.
pub record Served : Type 0 where
  pub cache : Cache
  pub dispatched : Bool
  pub sent : List Sent

module _ (parse : List ℕ → Loaded) (dump : Fields → Option (List ℕ)) (services : List String)
    (local_identity : Identity) (timestamp : Json) (nonce : String) (text_of : String → Json)
    (transmit : ℕ → List ℕ → Outcome (Unit {0})) (registry : List Registered) where
  abbrev error_bytes : Envelope → String → ℕ → Outcome (List ℕ)
  error_bytes env code status = do
    m ←
        new_error parse dump services env.raw local_identity env.source (str code) (text_of code)
          (int (pos status)) timestamp nonce
    raw ← encode_message parse dump services m
    _ ← transmit pkt_app_error raw
    ok raw

  abbrev as_failure : Outcome (List ℕ) → List Sent
  as_failure (ok raw) = failure raw ∷ []
  as_failure _ = []

  -- _send_app_error: an exception drops the packet.
  unfoldable pub send_app_error : Envelope → String → ℕ → List Sent
  send_app_error env code status = as_failure (error_bytes env code status)

  abbrev response_bytes : Envelope → Fields → Outcome (List ℕ)
  response_bytes env payload = do
    m ←
        new_response parse dump services env.raw local_identity env.source (obj payload)
          (int (pos 200)) timestamp nonce
    raw ← encode_message parse dump services m
    _ ← transmit pkt_app_response raw
    ok raw

  abbrev responded : Envelope → Outcome (List ℕ) → List Sent
  responded env (ok raw) = response raw ∷ []
  responded env (error code) = send_app_error env code 400
  responded env exception = send_app_error env "internal_error" 500

  abbrev answered : Envelope → Handled → List Sent
  answered env (result payload) = responded env (response_bytes env payload)
  answered env (protocol_error code) = send_app_error env code 400
  answered env (service_error code) = send_app_error env code 503
  answered env failed = send_app_error env "internal_error" 500

  abbrev pub admitted : Envelope → Outcome (Unit {0}) × Cache → Served
  admitted env (ok u, cache) = record {
    cache = cache;
    dispatched = true;
    sent = answered env (dispatch env registry);
  }
  admitted env (error code, cache) = record {
    cache = cache;
    dispatched = false;
    sent = send_app_error env code 400;
  }
  admitted env (exception, cache) = record {
    cache = cache;
    dispatched = false;
    sent = send_app_error env "internal_error" 500;
  }

  -- TepEngine._handle_app_request
  unfoldable pub handle_app_request : ℕ → Envelope → Cache → Served
  handle_app_request now env cache =
      admitted env (check_and_add env.source.peer_id env.request_id now cache)
