-- ===== src/Relay/Dispatch.antt =====
-- tep/hb_tep_relay.py: RelayDispatcher.handle and new_relay_response. `unbase64` and `base64` stand for the
-- library's decoder (`none` where it fails) and encoder; `forward` is the injected transport to the target.
use node_installer.Prelude.{
  ℕ, String, not, ◌||◌, Option, none, some, List, length, ltb, eqb, ◌==◌, if◌then◌else◌, min, pos,
}
use node_installer.Json.{Loaded, Json, Fields, int, str, obj, field, end, get, py_str}
use node_installer.Outcome.{Outcome, ok, error, exception, ◌>>=◌, ◌>>◌, raise_if}
use node_installer.App.Envelope.{Identity, identity_json, Envelope, validate_envelope}
use node_installer.App.Message.{Raw, in_bytes, decode_message, encode_message}
use node_installer.Relay.{Endpoint, route_to, Policy, authorize, acquire, release}

abbrev pub max_inner_bytes : ℕ
max_inner_bytes = 32768

-- What the transport to the target does: a TimeoutError, a RelayError with its code, another exception,
-- or an answer, which is bytes or a message.
pub data Forwarded : Type 0 where
  timed_out : Forwarded
  refused : String → Forwarded
  failed : Forwarded
  bytes : List ℕ → Forwarded
  message : Fields → Forwarded

-- A request is a message, or what `decode_message` is given.
pub data Incoming : Type 0 where
  request_message : Fields → Incoming
  request_raw : Raw → Incoming

-- What the steps before the slot is acquired come to.
pub record Checked : Type 0 where
  pub env : Envelope
  pub inner : Envelope
  pub inner_raw : List ℕ
  pub target : String
  pub route : Endpoint
  pub budget : ℕ

abbrev pub dict_of : Json → Fields
dict_of (obj d) = d
dict_of _ = end

abbrev pub ttl_or_zero : Option ℕ → ℕ
ttl_or_zero none = 0
ttl_or_zero (some n) = n

abbrev pub service_or_empty : Option String → String
service_or_empty none = ""
service_or_empty (some s) = s

-- An error of the envelope becomes an error with the given code.
abbrev pub as_code : String → Outcome Envelope → Outcome Envelope
as_code code (ok e) = ok e
as_code code (error c) = error code
as_code code exception = exception

module _ (parse : List ℕ → Loaded) (dump : Fields → Option (List ℕ)) (services : List String)
    (repr : Json → String) (unbase64 : String → Option (List ℕ)) (base64 : List ℕ → String) where
  abbrev pub decoded : Option (List ℕ) → Outcome (List ℕ)
  decoded none = error "bad_request"
  decoded (some raw) = if ltb max_inner_bytes (length raw) then error "bad_request" else ok raw

  abbrev pub incoming : ℕ → Incoming → Outcome Envelope
  incoming now (request_message d) = validate_envelope services (some now) (obj d)
  incoming now (request_raw raw) = decode_message parse dump services (some now) raw

  -- `env.raw["relay_target"]["peer_id"]`, which validation has made sure of.
  abbrev pub target_of : Envelope → String
  target_of env = py_str repr (get "peer_id" (dict_of (get "relay_target" env.raw)))

  abbrev pub inner_of : Envelope → String
  inner_of env = py_str repr (get "inner" (dict_of (get "payload" env.raw)))

  -- The part of `handle` before the slot; `timeout` and the freshness are milliseconds.
  unfoldable pub check : Identity → ℕ → ℕ → List Endpoint → Policy → Incoming → ℕ → Outcome Checked
  check local now freshness table policy request timeout = do
    env ← incoming now request
    raise_if (not (env.msg_type == "relay_req")) "unsupported_type"
    raise_if (not (env.destination.peer_id == local.peer_id)) "relay_wrong_destination"
    let target = target_of env
    inner_raw ← decoded (unbase64 (inner_of env))
    inner ← decode_message parse dump services (some now) (in_bytes inner_raw)
    raise_if (not (inner.msg_type == "req")) "unsupported_type"
    raise_if (not (inner.destination.peer_id == target)) "identity_mismatch"
    _ ← authorize env.source.peer_id target (service_or_empty inner.service) policy
    route ← route_to now target freshness table
    raise_if (eqb timeout 0) "relay_ttl_expired"
    raise_if (eqb (min timeout (ttl_or_zero env.ttl_ms)) 0) "relay_ttl_expired"
    ok (record {
      env = env;
      inner = inner;
      inner_raw = inner_raw;
      target = target;
      route = route;
      budget = min timeout (ttl_or_zero env.ttl_ms);
    })

  -- new_relay_response
  unfoldable pub new_relay_response :
      Fields → Identity → Identity → String → List ℕ → Json → String → Outcome Fields
  new_relay_response request source destination target inner timestamp_ms nonce = do
    raise_if (ltb max_inner_bytes (length inner)) "bad_response"
    let message = field "v" (int (pos 1)) (
        field "type" (str "relay_res") (
          field "request_id" (get "request_id" request) (
            field "source" (identity_json source) (
              field "destination" (identity_json destination) (
                field "relay_target" (obj (field "peer_id" (str target) end)) (
                  field "timestamp_ms" timestamp_ms (
                    field "nonce" (str nonce)
                      (field "payload" (obj (field "inner" (str (base64 inner)) end)) end))))))))
    _ ← validate_envelope services none (obj message)
    ok message

  abbrev pub response_bytes : Forwarded → Outcome (List ℕ)
  response_bytes timed_out = error "relay_timeout"
  response_bytes (refused code) = error code
  response_bytes failed = error "relay_unavailable"
  response_bytes (bytes raw) = ok raw
  response_bytes (message d) = encode_message parse dump services d

  -- The part of `handle` inside its `try`; the response is checked at its own time.
  unfoldable pub reply :
      Identity → ℕ → Json → String → (Endpoint → List ℕ → ℕ → Forwarded) → Checked → Outcome Fields
  reply local later timestamp_ms nonce forward c = do
    raw ← response_bytes (forward c.route c.inner_raw c.budget)
    response ←
        as_code "bad_response" (decode_message parse dump services (some later) (in_bytes raw))
    raise_if (not (response.msg_type == "res" || response.msg_type == "err")) "bad_response"
    raise_if (not (response.request_id == c.inner.request_id)) "bad_response"
    raise_if (not (response.source.peer_id == c.target)) "bad_response"
    new_relay_response c.env.raw local c.env.source c.target raw timestamp_ms nonce

  -- The slot is given back on every way out.
  abbrev pub forwarded :
      Identity
      → ℕ
      → Json
      → String
      → (Endpoint → List ℕ → ℕ → Forwarded)
      → Checked
      → Policy
      → Outcome Policy
      → Outcome Fields × Policy
  forwarded local later timestamp_ms nonce forward c policy (ok p) =
      (reply local later timestamp_ms nonce forward c, release c.env.source.peer_id p)
  forwarded local later timestamp_ms nonce forward c policy (error code) = (error code, policy)
  forwarded local later timestamp_ms nonce forward c policy exception = (exception, policy)

  abbrev pub dispatched :
      Identity
      → ℕ
      → Json
      → String
      → (Endpoint → List ℕ → ℕ → Forwarded)
      → Policy
      → Outcome Checked
      → Outcome Fields × Policy
  dispatched local later timestamp_ms nonce forward policy (ok c) =
      forwarded local later timestamp_ms nonce forward c policy
        (acquire c.env.source.peer_id policy)
  dispatched local later timestamp_ms nonce forward policy (error code) = (error code, policy)
  dispatched local later timestamp_ms nonce forward policy exception = (exception, policy)

  -- RelayDispatcher.handle with no other request between its steps; Flight has the others.
  unfoldable pub handle :
      Identity
      → ℕ
      → ℕ
      → Json
      → String
      → ℕ
      → List Endpoint
      → (Endpoint → List ℕ → ℕ → Forwarded)
      → Policy
      → Incoming
      → ℕ
      → Outcome Fields × Policy
  handle local now later timestamp_ms nonce freshness table forward policy request timeout =
      dispatched local later timestamp_ms nonce forward policy
        (check local now freshness table policy request timeout)
