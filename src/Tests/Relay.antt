-- ===== src/Tests/Relay.antt =====
-- Runs of the relay: one request through a relay node, slots, and the failover of a caller.
use node_installer.Prelude.{
  ℕ, String, ◌≡◌, refl, Bool, true, false, Option, none, some, List, [], ◌∷◌, eqb, arith, pos,
  if◌then◌else◌, ◌==◌,
}
use node_installer.Text.{strip}
use node_installer.Json.{Loaded, loaded, malformed, Json, Fields, int, str, obj, field, end}
use node_installer.Outcome.{Outcome, ok, error, ◌>>=◌, ◌>>◌, raise_if, Ensures}
use node_installer.App.Hex.{is_hex}
use node_installer.App.Envelope.{
  Identity, Envelope, validate_envelope, validate_identity, require_hex, require_nat, read_service,
  read_ttl, check_payload, check_error, check_status, check_relay,
}
use node_installer.App.Sorted.{sort_fields, insert_key}
use node_installer.App.Message.Roundtrip.{decode_message-encode_message}
use node_installer.App.Message.{
  in_bytes, decode_message, encode_message, IsDecodedFrom, decode_message-IsDecoded,
}
use node_installer.Relay.{
  Endpoint, Policy, acquire, release, authorize, route_to, pending_of, set_pending, remove_pending,
}
use node_installer.Relay.Flight.{Event, enter, leave, Flight, run, IsCounted, run-IsCounted}
use node_installer.Relay.Dispatch.{
  request_raw, Forwarded, bytes, check, reply, new_relay_response, handle,
}
use node_installer.Relay.Authority.{IsRelayed, handle-IsRelayed}
use node_installer.Relay.Slots.{IsSame, handle-IsSame}
use node_installer.Relay.Transport.{
  Attempt, answered, failed, crashed, Transport, unset, response, call, new_transport,
}
use node_installer.Relay.Transport.Failover.{IsSent, call-IsSent, call-answered}

program : Unit {0}
unfolding validate_envelope validate_identity require_hex require_nat read_service read_ttl
    check_payload check_error check_status check_relay strip is_hex ◌>>=◌ ◌>>◌ raise_if
    decode_message encode_message acquire release authorize route_to pending_of set_pending
    remove_pending check reply new_relay_response handle
program = tt

abbrev id_1 : String
id_1 = "00000000000000000000000000000001"

abbrev id_2 : String
id_2 = "00000000000000000000000000000002"

abbrev party : String → Json
party n = obj (field "node_id" (str n) (field "peer_id" (str n) end))

abbrev envelope : String → String → String → String → Fields → Fields
envelope kind id from to rest = field "v" (int (pos 1)) (
    field "type" (str kind) (
      field "request_id" (str id) (
        field "source" (party from) (
          field "destination" (party to)
            (field "timestamp_ms" (int (pos 100000)) (field "nonce" (str id_2) rest))))))

abbrev inner : Fields
inner = envelope "req" id_1 "a" "c" (
    field "service" (str "storage.summary")
      (field "ttl_ms" (int (pos 2500)) (field "payload" (obj end) end)))

abbrev outer : Fields
outer = envelope "relay_req" id_2 "a" "b" (
    field "relay_target" (obj (field "peer_id" (str "c") end)) (
      field "ttl_ms" (int (pos 2500))
        (field "payload" (obj (field "inner" (str "inner") end)) end)))

abbrev reply_of_c : Fields
reply_of_c = envelope "res" id_1 "c" "a" (
    field "service" (str "storage.summary")
      (field "status" (int (pos 200)) (field "payload" (obj end) end)))

abbrev parse : List ℕ → Loaded
parse [] = malformed
parse (n ∷ ns) =
    if eqb n 1
    then loaded (obj outer)
    else if eqb n 2
    then loaded (obj inner)
    else if eqb n 3
    then loaded (obj reply_of_c)
    else if eqb n 4
    then loaded (obj (sort_fields inner))
    else malformed

abbrev dump : Fields → Option (List ℕ)
dump m = some (2 ∷ [])

-- Other bytes are written for a message whose first key is the first one in order.
abbrev dump_in_order : Fields → Option (List ℕ)
dump_in_order (field k x d) = if k == "destination" then some (4 ∷ []) else some (2 ∷ [])
dump_in_order end = none

abbrev services : List String
services = "storage.summary" ∷ []

abbrev repr : Json → String
repr x = "?"

abbrev unbase64 : String → Option (List ℕ)
unbase64 s = some (2 ∷ [])

abbrev base64 : List ℕ → String
base64 raw = "base64"

abbrev relay_node : Identity
relay_node = record { node_id = "b"; peer_id = "b" }

abbrev table : List Endpoint
table =
    (record { peer_id = "c"; ip = "10.0.0.3"; port = 8765; last_seen = 90000; pubkey = "" }) ∷ []

abbrev policy : Policy
policy = record {
  trusted_sources = "a" ∷ [];
  registered_targets = "c" ∷ [];
  allowed_services = services;
  max_pending = 2;
  max_pending_per_source = 1;
  pending_total = 0;
  pending_by_source = [];
}

abbrev forward : Endpoint → List ℕ → ℕ → Forwarded
forward route raw budget = bytes (3 ∷ [])

abbrev handled : ℕ → Policy → Outcome Fields × Policy
handled timeout p =
    handle parse dump services repr unbase64 base64 relay_node 100000 100100 (int (pos 100100)) id_1
      30000 table forward p (request_raw (in_bytes (1 ∷ []))) timeout

abbrev is_ok : Outcome Fields → Bool
is_ok (ok d) = true
is_ok _ = false

relayed : is_ok (handled 2000 policy).0 ≡ true
unfolding program
relayed = refl

out_of_time : (handled 0 policy).0 ≡ error "relay_ttl_expired"
unfolding program
out_of_time = refl

untrusted : (handled 2000 (record policy { trusted_sources = [] })).0 ≡ error "relay_unauthorized"
unfolding program
untrusted = refl

decode_message-IsDecoded_example :
    Ensures
      (IsDecodedFrom parse dump services (some 100000) (in_bytes (2 ∷ [])))
      (decode_message parse dump services (some 100000) (in_bytes (2 ∷ [])))
decode_message-IsDecoded_example =
    decode_message-IsDecoded parse dump services (some 100000) (in_bytes (2 ∷ []))

decode_message-encode_message_example :
    (e : Envelope) × (validate_envelope services none (obj inner) ≡ ok e)
    × (decode_message parse dump_in_order services none (in_bytes (4 ∷ []))
        ≡ ok (record e { raw = sort_fields inner }))
unfolding program sort_fields insert_key
decode_message-encode_message_example =
    decode_message-encode_message parse dump_in_order services inner (4 ∷ []) refl (λ h. refl) refl

handle-IsRelayed_example :
    Ensures
      (IsRelayed parse dump services repr unbase64 base64 relay_node 100000 30000 table policy
        100100
        (int (pos 100100))
        id_1
        forward
        (request_raw (in_bytes (1 ∷ [])))
        2000)
      (handled 2000 policy).0
handle-IsRelayed_example =
    handle-IsRelayed parse dump services repr unbase64 base64 relay_node 100000 30000 table policy
      100100 (int (pos 100100)) id_1 forward (request_raw (in_bytes (1 ∷ []))) 2000

handle-IsSame_example : IsSame (handled 2000 policy).1 policy
handle-IsSame_example =
    handle-IsSame parse dump services repr unbase64 base64 relay_node 100000 100100
      (int (pos 100100)) id_1 forward policy 30000 table (request_raw (in_bytes (1 ∷ []))) 2000

abbrev empty_flight : Flight
empty_flight = record { policy = policy; active = [] }

empty_flight-IsCounted : IsCounted empty_flight
unfolding program
empty_flight-IsCounted = record {
  total = refl;
  each = λ s. refl;
  total_fits = omega arith;
  each_fits = λ s. omega arith;
}

-- The second request of one source is refused while the first is in flight.
abbrev events : List Event
events = enter "a" ∷ enter "a" ∷ enter "q" ∷ leave "a" ∷ []

run-IsCounted_example : IsCounted (run events empty_flight)
run-IsCounted_example = run-IsCounted events empty_flight empty_flight-IsCounted

in_flight : (run events empty_flight).active ≡ "q" ∷ []
unfolding program
in_flight = refl

abbrev transport : Transport
transport = record {
  relay_peer_ids = "r1" ∷ "r2" ∷ [];
  direct_timeout = 1200;
  max_relay_attempts = 2;
  last = unset;
}

made : new_transport ("r1" ∷ "" ∷ "r1" ∷ "r2" ∷ []) 1200 2 ≡ ok transport
unfolding new_transport
made = refl

abbrev ask : String → ℕ → Attempt
ask p budget = if p == "r2" then answered (7 ∷ []) else failed

ask-calm : (b : Bool) → (if b then answered (7 ∷ []) else failed) ≡ crashed → ⊥
ask-calm true e = cc
ask-calm false e = cc

abbrev send : ℕ → Attempt
send budget = failed

abbrev clock : ℕ → ℕ
clock i = 1200

call-IsSent_example :
    IsSent (send 1000) ask 3000 ("r1" ∷ "r2" ∷ []) 2 (call send ask clock 0 3000 transport)
call-IsSent_example = call-IsSent send ask clock 0 3000 transport

call-answered_example : (r : List ℕ) × ((call send ask clock 0 3000 transport).result ≡ response r)
call-answered_example =
    call-answered send ask clock 0 3000 transport "r2" (omega arith) refl (λ b. (7 ∷ [], refl))
      (λ p b. ask-calm (p == "r2")) (λ i. omega arith) refl
