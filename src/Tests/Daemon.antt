-- ===== src/Tests/Daemon.antt =====
-- Runs of the daemon's packets, peers and services, and the theorems about them at small inputs.
use node_installer.Prelude.{
  ℕ, String, ◌≡◌, refl, Bool, true, false, Option, none, some, List, [], ◌∷◌, arith, eqb, pos,
  if◌then◌else◌,
}
use node_installer.Text.{strip, codes}
use node_installer.Json.{Loaded, loaded, malformed, Json, Fields, obj, str, int, field, end, bool}
use node_installer.Outcome.{ok, ◌>>=◌, ◌>>◌, raise_if, Ensures}
use node_installer.App.Hex.{is_hex}
use node_installer.App.Envelope.{
  Envelope, validate_envelope, validate_identity, require_hex, require_nat, read_service, read_ttl,
  check_payload, check_error, check_status, check_relay,
}
use node_installer.App.Message.{decode_message, encode_message, new_response, new_error}
use node_installer.Relay.{observe}
use node_installer.Daemon.{tep_version}
use node_installer.Daemon.Packet.{
  Packet, nonce_of, build_packet, parse_packet, big_endian, drop, rstrip_zero, ljust, node_id_bytes,
  same_bytes,
}
use node_installer.Daemon.Packet.Roundtrip.{parse_packet-build_packet}
use node_installer.Daemon.Peers.{
  Peer, find_by_node_id, change, mark_seen, update_authenticated_endpoint, find_by_wire_node_id,
  matches, put, refresh, sync_from_blockchain, expire_stale_locked, count_online, online_count,
}
use node_installer.Daemon.Engine.{
  Engine, Address, Action, serve, complete, waits_for, set_raw, pending_complete,
  app_peer_for_packet, authentic, handle_authenticated_app_packet, receive_app,
}
use node_installer.Daemon.Requests.{Sent, Served, send_app_error, handle_app_request}
use node_installer.Daemon.Requests.Once.{IsRefused, handle_app_request-once}
use node_installer.App.Replay.{Cache, check_and_add, admit, evict, member, trim}
use node_installer.App.Replay.Detection.{run}
use node_installer.Daemon.Engine.Authentic.{IsHandled, receive_app-IsHandled}
use node_installer.Service.{
  Registered, find_handler, register, dispatch, Config, valid_config, summary_config, response,
  result, service_error, storage_summary, master_status, build_default_registry,
}

program : Unit {0}
unfolding validate_envelope validate_identity require_hex require_nat read_service read_ttl
    check_payload check_error check_status check_relay strip is_hex ◌>>=◌ ◌>>◌ raise_if
    decode_message encode_message new_response new_error send_app_error handle_app_request
    check_and_add admit evict member trim run observe build_packet parse_packet big_endian drop
    rstrip_zero ljust node_id_bytes same_bytes find_by_node_id change mark_seen
    update_authenticated_endpoint find_by_wire_node_id matches put refresh sync_from_blockchain
    expire_stale_locked count_online online_count waits_for set_raw pending_complete
    app_peer_for_packet authentic handle_authenticated_app_packet receive_app find_handler register
    dispatch valid_config storage_summary master_status build_default_registry
program = tt

abbrev id_1 : String
id_1 = "00000000000000000000000000000001"

abbrev id_2 : String
id_2 = "00000000000000000000000000000002"

abbrev party : String → Json
party n = obj (field "node_id" (str n) (field "peer_id" (str n) end))

abbrev message : String → String → Fields → Fields
message kind from rest = field "v" (int (pos 1)) (
    field "type" (str kind) (
      field "request_id" (str id_1) (
        field "source" (party from) (
          field "destination" (party "b")
            (field "timestamp_ms" (int (pos 100000)) (field "nonce" (str id_2) rest))))))

abbrev asks : String → Fields
asks from = message "req" from (
    field "service" (str "storage.summary")
      (field "ttl_ms" (int (pos 2500)) (field "payload" (obj end) end)))

abbrev answers : Fields
answers = message "res" "a" (
    field "service" (str "storage.summary")
      (field "status" (int (pos 200)) (field "payload" (obj end) end)))

abbrev parse : List ℕ → Loaded
parse [] = malformed
parse (n ∷ ns) =
    if eqb n 1
    then loaded (obj (asks "a"))
    else if eqb n 2
    then loaded (obj (asks "c"))
    else loaded (obj answers)

abbrev dump : Fields → Option (List ℕ)
dump m = some (1 ∷ [])

abbrev services : List String
services = "storage.summary" ∷ []

-- A key is its own text; a payload is the plain bytes after the key.
abbrev derive : String → Option (List ℕ)
derive pubkey = some (codes pubkey)

abbrev decrypt : List ℕ → List ℕ → List ℕ → Option (List ℕ)
decrypt (k ∷ plain) (b ∷ key) nonce = if eqb k b then some plain else none
decrypt _ _ _ = none

abbrev peer_a : Peer
peer_a = record {
  id = "a";
  ip = "10.0.0.1";
  port = 47777;
  last_seen = 0;
  online = false;
  pubkey = "K";
  peer_id = "a";
}

abbrev engine : Engine
engine = record {
  local_identity = record { node_id = "b"; peer_id = "b" };
  have_crypto = true;
  app_ready = true;
  peers = peer_a ∷ [];
  relay_table = [];
  pending = (record { request_id = id_1; raw = none }) ∷ [];
  stats = record { pkts_recv = 1; pkts_dropped = 0; app_auth_rejected = 0 };
}

abbrev from_a : Address
from_a = record { ip = "10.9.9.9"; port = 5000 }

abbrev packet : ℕ → List ℕ → Packet
packet kind payload = record {
  version = 2;
  kind = kind;
  node_id = codes "a";
  nonce = [];
  enc_payload = payload;
}

abbrev received : Packet → Action × Engine
received p = receive_app parse dump services derive decrypt 100100 100 100200 from_a engine p

abbrev is_serve : Action → Bool
is_serve (serve env peer) = true
is_serve _ = false

abbrev is_complete : Action → Bool
is_complete (complete env peer) = true
is_complete _ = false

served : is_serve (received (packet 0x20 (b'K' ∷ 1 ∷ []))).0 ≡ true
unfolding program
served = refl

handed_over :
    (is_complete (received (packet 0x21 (b'K' ∷ 3 ∷ []))).0 ≡ true)
    × ((received (packet 0x21 (b'K' ∷ 3 ∷ []))).1.pending
        ≡ (record { request_id = id_1; raw = some (3 ∷ []) }) ∷ [])
unfolding program
handed_over = (refl, refl)

-- A source that is not the peer, a type that is not that of the packet, another key.
forged :
    ((received (packet 0x20 (b'K' ∷ 2 ∷ []))).1.stats.app_auth_rejected ≡ 1)
    × (((received (packet 0x20 (b'K' ∷ 3 ∷ []))).1.stats.pkts_dropped ≡ 1)
        × ((received (packet 0x20 (b'L' ∷ 1 ∷ []))).1.peers ≡ peer_a ∷ []))
unfolding program
forged = (refl, (refl, refl))

receive_app-IsHandled_example :
    IsHandled parse dump services derive decrypt 100100 100 100200 from_a engine
      (packet 0x20 (b'K' ∷ 1 ∷ []))
      (received (packet 0x20 (b'K' ∷ 1 ∷ [])))
receive_app-IsHandled_example =
    receive_app-IsHandled parse dump services derive decrypt 100100 100 100200 from_a engine
      (packet 0x20 (b'K' ∷ 1 ∷ []))

abbrev encrypted : List ℕ → List ℕ
encrypted nonce = 7 ∷ 8 ∷ 9 ∷ []

parse_packet-build_packet_example :
    Ensures
      (λ bytes.
        parse_packet bytes
        ≡ some (record {
          version = tep_version;
          kind = 0x20;
          node_id = b'a' ∷ b'b' ∷ [];
          nonce = nonce_of 1700000000 5;
          enc_payload = 7 ∷ 8 ∷ 9 ∷ [];
        }))
      (build_packet (b'a' ∷ b'b' ∷ []) 0x20 1700000000 5 encrypted)
parse_packet-build_packet_example =
    parse_packet-build_packet (b'a' ∷ b'b' ∷ []) 0x20 1700000000 5 encrypted
      ((omega arith, omega arith), ((omega arith, omega arith), tt))

-- The registry replaces the table, and keeps when a peer was seen.
synced :
    sync_from_blockchain
      (some
        ((record { id = "c"; ip = "10.0.0.3"; port = some 47777; pubkey = ""; peer_id = "" }) ∷ []))
      (peer_a ∷ [])
    ≡ (
      true,
      (record {
        id = "c";
        ip = "10.0.0.3";
        port = 47777;
        last_seen = 0;
        online = false;
        pubkey = "";
        peer_id = "";
      })
          ∷ [],
    )
unfolding program
synced = refl

gone_stale : (online_count 131 (record peer_a { online = true; last_seen = 100 } ∷ [])).0 ≡ 0
unfolding program
gone_stale = refl

abbrev config : Config
config = record {
  url = record {
    scheme = "http";
    hostname = some "127.0.0.1";
    path = "/api/public/storage-summary";
    query = "";
    fragment = "";
    username = none;
    password = none;
    port = ok (some 8091);
  };
  timeout_ms = 1000;
  max_response_bytes = 4;
}

configured : summary_config config ≡ ok config
unfolding program
configured = refl

abbrev read_json : List ℕ → Option Json
read_json raw = some (obj (field "master_live" (bool true) end))

summarised :
    (storage_summary read_json config (response (some 200) (1 ∷ 2 ∷ [])) end
      ≡ result (field "master_live" (bool true) end))
    × (storage_summary read_json config (response none (1 ∷ 2 ∷ 3 ∷ 4 ∷ 5 ∷ 6 ∷ [])) end
        ≡ service_error "response_too_large")
unfolding program
summarised = (refl, refl)

abbrev asked : Envelope
asked = record {
  raw = asks "a";
  msg_type = "req";
  request_id = id_1;
  source = record { node_id = "a"; peer_id = "a" };
  destination = record { node_id = "b"; peer_id = "b" };
  service = some "storage.summary";
  timestamp_ms = 100000;
  nonce = id_2;
  ttl_ms = some 2500;
}

abbrev registry : List Registered
registry =
    (record {
      service = "storage.summary";
      handler = storage_summary read_json config (response (some 200) (1 ∷ 2 ∷ []));
    })
    ∷ []

abbrev cache : Cache
cache = record { window_sec = 60; max_entries = 8; entries = [] }

abbrev handled : ℕ → Cache → Served
handled now c =
    handle_app_request parse dump services (record { node_id = "b"; peer_id = "b" })
      (int (pos 100100)) id_2 (λ code. str code) (λ kind raw. ok tt) registry now asked c

first_time : (handled 100 cache).dispatched ≡ true
unfolding program
first_time = refl

answered_once : (handled 100 cache).sent ≡ Sent.response (1 ∷ []) ∷ []
unfolding program
answered_once = refl

handle_app_request-once_example : IsRefused (handled 130 (run [] (handled 100 cache).cache))
handle_app_request-once_example =
    handle_app_request-once parse dump services (record { node_id = "b"; peer_id = "b" })
      (int (pos 100100)) id_2 (λ code. str code) (λ kind raw. ok tt) registry 100 130 asked [] cache
      (omega arith) tt (omega arith) first_time
