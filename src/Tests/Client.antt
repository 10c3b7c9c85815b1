-- ===== src/Tests/Client.antt =====
-- Runs of the client of requests, and the theorems about it on a small exchange.
use node_installer.Prelude.{ℕ, String, ◌≡◌, refl, Option, some, List, [], ◌∷◌, arith, pos}
use node_installer.Text.{strip}
use node_installer.Json.{Loaded, malformed, Json, Fields, obj, str, int, field, end}
use node_installer.Outcome.{Outcome, ok, error, ◌>>=◌, ◌>>◌, raise_if, Ensures}
use node_installer.App.Hex.{is_hex}
use node_installer.App.Envelope.{
  Identity, validate_envelope, validate_identity, require_hex, require_nat, read_service, read_ttl,
  check_payload, check_error, check_status, check_relay,
}
use node_installer.App.Message.{decode_message, encode_message, new_request}
use node_installer.Client.{
  Table, Request, Reply, mapping, timed_out, find_item, remove_item, unexpired, add, correlate,
  discard, received, addressed, answer_of, exchange, request,
}
use node_installer.Client.Pending.{IsBounded, IsDistinct, IsFree, request-IsFree, add-IsBounded}
use node_installer.Client.Answers.{IsReply, request-IsReply}

program : Unit {0}
unfolding validate_envelope validate_identity require_hex require_nat read_service read_ttl
    check_payload check_error check_status check_relay strip is_hex ◌>>=◌ ◌>>◌ raise_if
    decode_message encode_message new_request find_item remove_item unexpired add correlate discard
    received addressed answer_of exchange request
program = tt

abbrev id_1 : String
id_1 = "00000000000000000000000000000001"

abbrev id_2 : String
id_2 = "00000000000000000000000000000002"

abbrev party : String → Identity
party n = record { node_id = n; peer_id = n }

abbrev party_json : String → Json
party_json n = obj (field "node_id" (str n) (field "peer_id" (str n) end))

abbrev summary : Fields
summary = field "total" (int (pos 7)) end

abbrev reply_of : String → String → Fields
reply_of id from = field "v" (int (pos 1)) (
    field "type" (str "res") (
      field "request_id" (str id) (
        field "source" (party_json from) (
          field "destination" (party_json "a") (
            field "timestamp_ms" (int (pos 100000)) (
              field "nonce" (str id_2) (
                field "service" (str "storage.summary")
                  (field "status" (int (pos 200)) (field "payload" (obj summary) end)))))))))

abbrev services : List String
services = "storage.summary" ∷ []

abbrev parse : List ℕ → Loaded
parse raw = malformed

abbrev dump : Fields → Option (List ℕ)
dump m = some (1 ∷ [])

abbrev repr : Json → String
repr x = "?"

abbrev to_b : Request
to_b = record {
  destination = party "b";
  service = "storage.summary";
  payload = obj end;
  timeout_ms = 3000;
  request_id = id_1;
  nonce = id_2;
  timestamp_ms = 100000;
  sent_at = 500;
  answered_at = 600;
  wall_ms = 100100;
}

abbrev empty : ℕ → Table
empty n = record { max_pending = n; items = [] }

abbrev asked : Reply → (Table → Table) → ℕ → Outcome Fields × Table
asked reply meanwhile n =
    request parse dump services repr (party "a") (λ peer raw timeout. reply) meanwhile to_b
      (empty n)

answered : asked (mapping (reply_of id_1 "b")) (λ t. t) 4 ≡ (ok summary, empty 4)
unfolding program
answered = refl

late : asked timed_out (λ t. t) 4 ≡ (error "request_timeout", empty 4)
unfolding program
late = refl

forged : asked (mapping (reply_of id_1 "c")) (λ t. t) 4 ≡ (error "response_peer_mismatch", empty 4)
unfolding program
forged = refl

full : asked (mapping (reply_of id_1 "b")) (λ t. t) 0 ≡ (error "client_overloaded", empty 0)
unfolding program
full = refl

-- While the request is under way, another thread asks the peer "c".
abbrev another : Table → Table
another t = (add 550 id_2 "c" "storage.summary" 3000 t).1

-- The answer to the other request is taken for that of this one.
crossed : asked (mapping (reply_of id_2 "c")) another 4 ≡ (ok summary, empty 4)
unfolding program
crossed = refl

empty-IsBounded : (n : ℕ) → IsBounded (empty n)
unfolding IsDistinct
empty-IsBounded n = record { fits = ground arith; distinct = tt }

request-IsFree_example :
    IsFree parse dump services repr
      (party "a")
      (λ peer raw timeout. timed_out)
      another
      to_b
      (asked timed_out another 4).1
unfolding find_item
request-IsFree_example =
    request-IsFree parse dump services repr (party "a") (λ peer raw timeout. timed_out) another to_b
      (empty 4) (λ t b. add-IsBounded 550 id_2 "c" "storage.summary" 3000 t b) (empty-IsBounded 4)
      refl

request-IsReply_example :
    Ensures
      (IsReply parse dump services repr
        (party "a")
        (λ peer raw timeout. mapping (reply_of id_1 "b"))
        to_b)
      (asked (mapping (reply_of id_1 "b")) (λ t. t) 4).0
request-IsReply_example =
    request-IsReply parse dump services repr (party "a")
      (λ peer raw timeout. mapping (reply_of id_1 "b")) to_b 4
