-- ===== src/App/Envelope.antt =====
-- tep/hb_tep_app.py: Identity, ValidatedEnvelope and validate_envelope with its helpers. Errors keep
-- their codes, not their texts.
use node_installer.Prelude.{
  ℕ, ◌+◌, String, Bool, true, false, not, ◌&&◌, ◌||◌, Option, none, some, List, [], ◌∷◌, contains,
  ltb, leb, ◌==◌, if◌then◌else◌, ℤ, pos, negsuc, eqb_ℤ,
}
use node_installer.Text.{is_empty, strip, text_len}
use node_installer.Json.{Json, Fields, null, int, str, obj, get, field, end}
use node_installer.Outcome.{Outcome, ok, error, ◌>>=◌, ◌>>◌, raise_if}
use node_installer.App.Hex.{is_hex}

pub record Identity : Type 0 where
  pub node_id : String
  pub peer_id : String

-- Identity.to_dict
abbrev pub identity_json : Identity → Json
identity_json i = obj (field "node_id" (str i.node_id) (field "peer_id" (str i.peer_id) end))

pub record Envelope : Type 0 where
  pub raw : Fields
  pub msg_type : String
  pub request_id : String
  pub source : Identity
  pub destination : Identity
  pub service : Option String
  pub timestamp_ms : ℕ
  pub nonce : String
  pub ttl_ms : Option ℕ

abbrev pub supported_types : List String
supported_types = "req" ∷ "res" ∷ "err" ∷ "relay_req" ∷ "relay_res" ∷ []

-- SUPPORTED_SERVICES; tep/hb_tep_runtime_ha.py extends it, so the functions take it as an argument.
abbrev pub supported_services : List String
supported_services = "storage.summary" ∷ []

abbrev pub require_dict : Json → Outcome Fields
require_dict (obj d) = ok d
require_dict _ = error "bad_request"

abbrev pub require_str : Json → Outcome String
require_str (str s) = ok s
require_str _ = error "bad_request"

-- `isinstance(x, int) and not isinstance(x, bool)`
abbrev pub require_int : Json → Outcome ℤ
require_int (int n) = ok n
require_int _ = error "bad_request"

abbrev require_nat_of : ℤ → Outcome ℕ
require_nat_of (pos n) = ok n
require_nat_of (negsuc n) = error "bad_request"

abbrev pub checked {ℓ} : {A : Type ℓ} → Bool → String → A → Outcome A
checked true code a = ok a
checked false code a = error code

-- A text that is not empty and not too long, stripped.
unfoldable pub require_nonempty : Json → ℕ → Outcome String
unfolding ◌>>=◌
require_nonempty x max_len = do
  s ← require_str x
  checked (not (is_empty (strip s)) && leb (text_len (strip s)) max_len) "bad_request" (strip s)

unfoldable pub validate_identity : Json → Outcome Identity
unfolding require_nonempty
validate_identity value = do
  d ← require_dict value
  node ← require_nonempty (get "node_id" d) 128
  peer ← require_nonempty (get "peer_id" d) 256
  ok (record { node_id = node; peer_id = peer })

unfoldable pub require_hex : Json → Outcome String
unfolding ◌>>=◌
require_hex x = do s ← require_str x; checked (is_hex s 32) "bad_request" s

unfoldable pub require_nat : Json → Outcome ℕ
unfolding ◌>>=◌
require_nat x = do n ← require_int x; require_nat_of n

-- The window of 30 s in the past and 10 s in the future; `none` is `check_time=False`.
abbrev pub in_window : Option ℕ → ℕ → Bool
in_window none t = true
in_window (some now) t = leb now (t + 30000) && leb t (now + 10000)

abbrev pub is_app : String → Bool
is_app t = t == "req" || (t == "res" || t == "err")

abbrev pub is_timed : String → Bool
is_timed t = t == "req" || t == "relay_req"

abbrev pub max_ttl_ms : ℕ
max_ttl_ms = 5000

-- The service of an application message; other messages have none.
unfoldable pub read_service : List String → String → Fields → Outcome (Option String)
unfolding require_nonempty ◌>>=◌
read_service services t d =
    if is_app t
    then (do
      s ← require_nonempty (get "service" d) 128
      checked (contains services s) "unsupported_service" (some s))
    else ok none

abbrev ttl_of : ℤ → Outcome (Option ℕ)
ttl_of (pos n) = checked (ltb 0 n && leb n max_ttl_ms) "bad_request" (some n)
ttl_of (negsuc n) = error "bad_request"

unfoldable pub read_ttl : String → Fields → Outcome (Option ℕ)
unfolding ◌>>=◌
read_ttl t d = if is_timed t then (do n ← require_int (get "ttl_ms" d); ttl_of n) else ok none

abbrev pub status_in : ℕ → ℕ → Json → Bool
status_in lo hi (int (pos n)) = leb lo n && leb n hi
status_in lo hi _ = false

-- The text of an error: none, or a text of at most 512 characters.
abbrev pub message_fits : Json → Bool
message_fits null = true
message_fits (str s) = leb (text_len s) 512
message_fits _ = false

abbrev pub is_text : Json → Bool
is_text (str s) = not (is_empty s)
is_text _ = false

-- The parts that only some types have.
unfoldable pub check_payload : String → Fields → Outcome (Unit {0})
unfolding ◌>>=◌
check_payload t d =
    if t == "req" || t == "res" then (do _ ← require_dict (get "payload" d); ok tt) else ok tt

unfoldable pub error_dict : Json → Outcome (Unit {0})
unfolding ◌>>=◌ raise_if require_nonempty
error_dict x = do
  e ← require_dict x
  _ ← require_nonempty (get "code" e) 128
  raise_if (not (message_fits (get "message" e))) "bad_request"

unfoldable pub error_body : Fields → Outcome (Unit {0})
unfolding ◌>>◌ raise_if error_dict
error_body d = do
  raise_if (not (status_in 400 599 (get "status" d))) "bad_request"
  error_dict (get "error" d)

unfoldable pub check_error : String → Fields → Outcome (Unit {0})
unfolding error_body
check_error t d = if t == "err" then error_body d else ok tt

unfoldable pub check_status : String → Fields → Outcome (Unit {0})
unfolding raise_if
check_status t d =
    if t == "res" then raise_if (not (status_in 200 399 (get "status" d))) "bad_request" else ok tt

unfoldable pub relay_peer : Json → Outcome (Unit {0})
unfolding ◌>>=◌ require_nonempty
relay_peer x = do target ← require_dict x; _ ← require_nonempty (get "peer_id" target) 256; ok tt

unfoldable pub relay_inner : Json → Outcome (Unit {0})
unfolding ◌>>=◌ raise_if
relay_inner x = do
  inner ← require_dict x
  raise_if (not (is_text (get "inner" inner))) "bad_request"

unfoldable pub relay_body : Fields → Outcome (Unit {0})
unfolding ◌>>◌ relay_peer relay_inner
relay_body d = do relay_peer (get "relay_target" d); relay_inner (get "payload" d)

unfoldable pub check_relay : String → Fields → Outcome (Unit {0})
unfolding relay_body
check_relay t d = if t == "relay_req" || t == "relay_res" then relay_body d else ok tt

unfoldable pub validate_envelope : List String → Option ℕ → Json → Outcome Envelope
validate_envelope services now message = do
  d ← require_dict message
  version ← require_int (get "v" d)
  raise_if (not (eqb_ℤ version (pos 1))) "unsupported_version"
  t ← require_str (get "type" d)
  raise_if (not (contains supported_types t)) "unsupported_type"
  request_id ← require_hex (get "request_id" d)
  source ← validate_identity (get "source" d)
  destination ← validate_identity (get "destination" d)
  nonce ← require_hex (get "nonce" d)
  timestamp ← require_nat (get "timestamp_ms" d)
  raise_if (not (in_window now timestamp)) "request_expired"
  service ← read_service services t d
  ttl ← read_ttl t d
  check_payload t d
  check_error t d
  check_status t d
  check_relay t d
  ok (record {
    raw = d;
    msg_type = t;
    request_id = request_id;
    source = source;
    destination = destination;
    service = service;
    timestamp_ms = timestamp;
    nonce = nonce;
    ttl_ms = ttl;
  })
