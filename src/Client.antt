-- ===== src/Client.antt =====
-- tep/hb_tep_client.py: PendingRequestTable and TepRpcClient.request. A method of the table is one step under
-- its lock, and reads the clock once. The transport is an argument, and so is what other threads do to the
-- table while it runs. Times are milliseconds; errors keep their codes.
pub mod Pending
pub mod Answers
use node_installer.Prelude.{
  ℕ, suc, ◌+◌, ◌-◌, String, Bool, true, false, not, ◌&&◌, ◌||◌, Option, none, some, List, [], ◌∷◌,
  eqb, leb, ltb, ◌==◌, if◌then◌else◌, contains, length, max, min, pos,
}
use node_installer.Json.{
  Loaded, Json, Fields, int, str, obj, get, as_dict, truthy, text_or_empty, py_str,
}
use node_installer.Outcome.{Outcome, ok, error, exception, ◌>>=◌, ◌>>◌, raise_if}
use node_installer.App.Envelope.{Identity, Envelope, validate_envelope}
use node_installer.App.Message.{Raw, decode_message, encode_message, new_request}

pub record PendingRequest : Type 0 where
  pub request_id : String
  pub expected_peer_id : String
  pub expected_service : String
  pub created_at : ℕ
  pub deadline : ℕ

-- PendingRequestTable
pub record Table : Type 0 where
  pub max_pending : ℕ
  pub items : List PendingRequest

unfoldable pub new_table : ℕ → Outcome Table
new_table n = if eqb n 0 then exception else ok (record { max_pending = n; items = [] })

-- `self._items.get(request_id)`
unfoldable pub find_item : String → List PendingRequest → Option PendingRequest
find_item id [] = none
find_item id (p ∷ ps) = let rest = find_item id ps in if p.request_id == id then some p else rest

-- `self._items.pop(request_id, None)`
unfoldable pub remove_item : String → List PendingRequest → List PendingRequest
remove_item id [] = []
remove_item id (p ∷ ps) =
    let rest = remove_item id ps in if p.request_id == id then rest else p ∷ rest

unfoldable pub unexpired : ℕ → List PendingRequest → List PendingRequest
unexpired now [] = []
unexpired now (p ∷ ps) =
    let rest = unexpired now ps in if ltb p.deadline now then rest else p ∷ rest

-- _expire_locked
abbrev pub expire_locked : ℕ → Table → Table
expire_locked now t = record t { items = unexpired now t.items }

-- What a method returns or raises, and the table that it leaves.
abbrev pub Step {ℓ} : Type ℓ → Type ℓ
Step A = Outcome A × Table

abbrev pub is_some {ℓ} : {A : Type ℓ} → Option A → Bool
is_some none = false
is_some (some a) = true

-- PendingRequestTable.add, after the check of its timeout.
abbrev pub add_locked : ℕ → String → String → String → ℕ → Table → Step PendingRequest
add_locked now id peer service timeout t =
    if leb t.max_pending (length t.items)
    then (error "client_overloaded", t)
    else if is_some (find_item id t.items)
    then (error "duplicate_request_id", t)
    else (let item : PendingRequest = record {
      request_id = id;
      expected_peer_id = peer;
      expected_service = service;
      created_at = now;
      deadline = now + timeout;
    } in
        (ok item, record t { items = item ∷ t.items }))

unfoldable pub add : ℕ → String → String → String → ℕ → Table → Step PendingRequest
add now id peer service timeout t =
    if eqb timeout 0 || ltb 30000 timeout
    then (exception, t)
    else add_locked now id peer service timeout (expire_locked now t)

-- `envelope.service != item.expected_service`; the service of an envelope may be none.
abbrev pub is_service : String → Option String → Bool
is_service s none = false
is_service s (some t) = t == s

abbrev pub matched : ℕ → Envelope → Table → Option PendingRequest → Step PendingRequest
matched now e t none = (error "unknown_response", t)
matched now e t (some item) =
    if not (e.source.peer_id == item.expected_peer_id)
    then (error "response_peer_mismatch", t)
    else if not (is_service item.expected_service e.service)
    then (error "response_service_mismatch", t)
    else if ltb item.deadline now
    then (error "request_timeout", record t { items = remove_item e.request_id t.items })
    else (ok item, record t { items = remove_item e.request_id t.items })

abbrev pub correlate_locked : ℕ → Envelope → Table → Step PendingRequest
correlate_locked now e t = matched now e t (find_item e.request_id t.items)

unfoldable pub correlate : ℕ → Envelope → Table → Step PendingRequest
correlate now e t = correlate_locked now e (expire_locked now t)

unfoldable pub discard : String → Table → Table
discard id t = record t { items = remove_item id t.items }

-- PendingRequestTable.expire; the number of the requests that are dropped.
unfoldable pub expire : ℕ → Table → ℕ × Table
expire now t = (length t.items - length (unexpired now t.items), expire_locked now t)

-- PendingRequestTable.__len__, which expires first.
unfoldable pub size : ℕ → Table → ℕ × Table
size now t = (length (unexpired now t.items), expire_locked now t)

-- What the transport does: bytes, a mapping, an error of the protocol or of the client, a TimeoutError, or
-- another exception.
pub data Reply : Type 0 where
  raw_reply : Raw → Reply
  mapping : Fields → Reply
  raised : String → Reply
  timed_out : Reply
  crashed : Reply

-- What `request` is given and reads: the ids come from `secrets`, the times from the two clocks.
pub record Request : Type 0 where
  pub destination : Identity
  pub service : String
  pub payload : Json
  pub timeout_ms : ℕ
  pub request_id : String
  pub nonce : String
  pub timestamp_ms : ℕ
  pub sent_at : ℕ
  pub answered_at : ℕ
  pub wall_ms : ℕ

module _ (parse : List ℕ → Loaded) (dump : Fields → Option (List ℕ)) (services : List String)
    (repr : Json → String) (local_identity : Identity) where
  unfoldable pub received : ℕ → Reply → Outcome Envelope
  received wall (raw_reply raw) = decode_message parse dump services (some wall) raw
  received wall (mapping d) = validate_envelope services (some wall) (obj d)
  received wall (raised code) = error code
  received wall timed_out = error "request_timeout"
  received wall crashed = exception

  -- The checks before the table is asked.
  unfoldable pub addressed : Envelope → Outcome Envelope
  addressed e = do
    raise_if (not (e.msg_type == "res" || e.msg_type == "err")) "unexpected_response_type"
    raise_if (not (e.destination.peer_id == local_identity.peer_id)) "response_destination_mismatch"
    ok e

  abbrev pub code_or : String → String → String
  code_or code text = if text == "" then code else text

  abbrev pub remote_error : Option Fields → Outcome Fields
  remote_error none = exception
  remote_error (some d) = error (code_or "remote_error" (text_or_empty repr (get "code" d)))

  abbrev pub payload_of : Option Fields → Outcome Fields
  payload_of none = error "bad_response"
  payload_of (some d) = ok d

  -- `env.raw.get("error") or {}`; a validated error is a dictionary.
  unfoldable pub answer_of : Envelope → Outcome Fields
  answer_of e =
      if e.msg_type == "err"
      then remote_error (as_dict (get "error" e.raw))
      else payload_of (as_dict (get "payload" e.raw))

  -- `except Exception`
  abbrev pub as_transport_error {ℓ} : {A : Type ℓ} → Outcome A → Outcome A
  as_transport_error (ok a) = ok a
  as_transport_error (error code) = error code
  as_transport_error exception = error "transport_error"

  abbrev pub after_correlate : Envelope → Step PendingRequest → Step Fields
  after_correlate e (ok item, t) = (answer_of e, t)
  after_correlate e (error code, t) = (error code, t)
  after_correlate e (exception, t) = (exception, t)

  abbrev pub settle : ℕ → Table → Outcome Envelope → Step Fields
  settle now t (ok e) = after_correlate e (correlate now e t)
  settle now t (error code) = (error code, t)
  settle now t exception = (exception, t)

  -- The message of a request; `new_request` puts the id into it.
  abbrev pub new_message : Request → Outcome Fields
  new_message r =
      new_request parse dump services local_identity r.destination (str r.service) r.payload
        (int (pos (min (max 1 r.timeout_ms) 5000))) (int (pos r.timestamp_ms)) r.request_id r.nonce

  module _ (transport : String → List ℕ → ℕ → Reply) (meanwhile : Table → Table) (r : Request) where
    -- The lines under `try` up to the call of the table.
    unfoldable pub exchange : Fields → Outcome Envelope
    exchange req = do
      encoded ← encode_message parse dump services req
      e ← received r.wall_ms (transport r.destination.peer_id encoded r.timeout_ms)
      addressed e

    -- `finally`
    abbrev pub finally_discard : Step Fields → Step Fields
    finally_discard (result, t) = (as_transport_error result, discard r.request_id t)

    abbrev pub after_add : Fields → Step PendingRequest → Step Fields
    after_add req (ok item, t) = finally_discard (settle r.answered_at (meanwhile t) (exchange req))
    after_add req (error code, t) = (error code, t)
    after_add req (exception, t) = (exception, t)

    abbrev pub after_new : Table → Outcome Fields → Step Fields
    after_new t (ok req) =
        after_add req (add r.sent_at r.request_id r.destination.peer_id r.service r.timeout_ms t)
    after_new t (error code) = (error code, t)
    after_new t exception = (exception, t)

    -- TepRpcClient.request
    unfoldable pub request : Table → Step Fields
    request t = after_new t (new_message r)
