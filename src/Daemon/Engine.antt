-- ===== src/Daemon/Engine.antt =====
-- tep/hb_tep.py: TepEngine, the handling of one packet and of one request. Key derivation, decryption,
-- encryption and JSON are arguments. A thread that a packet starts is an action; the clocks are arguments, in
-- whole seconds for the peers and the replay cache, in milliseconds for messages and routes.
pub mod Authentic
use node_installer.Prelude.{
  ℕ, suc, ◌+◌, String, Bool, true, false, not, ◌&&◌, ◌||◌, Option, none, some, List, [], ◌∷◌, eqb,
  leb, ◌==◌, if◌then◌else◌, length, pos,
}
use node_installer.Text.{is_empty}
use node_installer.Json.{Loaded, Json, Fields, int}
use node_installer.Outcome.{Outcome, ok, error, exception, ◌>>=◌, ◌>>◌, raise_if}
use node_installer.App.Envelope.{Identity, Envelope}
use node_installer.App.Message.{in_bytes, decode_message}
use node_installer.App.Replay.{Cache}
use node_installer.Relay.{Endpoint, observe}
use node_installer.Daemon.{
  tep_version, pkt_app_request, pkt_app_response, pkt_app_error, pkt_relay_request,
  pkt_relay_response, app_packet_types,
}
use node_installer.Daemon.Packet.{Packet, parse_packet}
use node_installer.Daemon.Peers.{
  Peer, find_by_wire_node_id, update_authenticated_endpoint, mark_seen,
}

-- A request of this node that waits for its answer: an item of `_app_pending`.
pub record Waiting : Type 0 where
  pub request_id : String
  pub raw : Option (List ℕ)

-- The counters that the handling of packets changes.
pub record Stats : Type 0 where
  pub pkts_recv : ℕ
  pub pkts_dropped : ℕ
  pub app_auth_rejected : ℕ

pub record Engine : Type 0 where
  pub local_identity : Identity
  pub have_crypto : Bool
  pub app_ready : Bool
  pub peers : List Peer
  pub relay_table : List Endpoint
  pub pending : List Waiting
  pub stats : Stats

-- The address that a packet came from.
pub record Address : Type 0 where
  pub ip : String
  pub port : ℕ

-- What the handling of a packet does besides the state: nothing, a thread for a request, a thread for a relay
-- request, an answer handed to who waits for it, or an exception that is not caught.
pub data Action : Type 0 where
  dropped : Action
  serve : Envelope → Peer → Action
  relay : Envelope → Peer → Action
  complete : Envelope → Peer → Action
  crashed : Action

unfoldable pub waits_for : String → List Waiting → Bool
waits_for id [] = false
waits_for id (w ∷ ws) = w.request_id == id || waits_for id ws

unfoldable pub set_raw : String → List ℕ → List Waiting → List Waiting
set_raw id raw [] = []
set_raw id raw (w ∷ ws) =
    let rest = set_raw id raw ws in
    if w.request_id == id then record w { raw = some raw } ∷ rest else w ∷ rest

-- _pending_create; the item that it returns is that of the table.
unfoldable pub pending_create : String → List Waiting → Outcome (List Waiting)
pending_create id ws = do
  raise_if (waits_for id ws) "duplicate_request_id"
  raise_if (leb 256 (length ws)) "client_overloaded"
  ok ((record { request_id = id; raw = none }) ∷ ws)

-- _pending_complete
unfoldable pub pending_complete : String → List ℕ → List Waiting → Bool × List Waiting
pending_complete id raw ws = (waits_for id ws, set_raw id raw ws)

unfoldable pub pending_remove : String → List Waiting → List Waiting
pending_remove id [] = []
pending_remove id (w ∷ ws) =
    let rest = pending_remove id ws in if w.request_id == id then rest else w ∷ rest

abbrev pub drop_packet : Engine → Engine
drop_packet e = record e { stats = record e.stats { pkts_dropped = e.stats.pkts_dropped + 1 } }

abbrev pub reject_packet : Engine → Engine
reject_packet e = record e {
  stats = record e.stats {
    pkts_dropped = e.stats.pkts_dropped + 1;
    app_auth_rejected = e.stats.app_auth_rejected + 1;
  };
}

-- The type that the message of a packet has.
abbrev pub expected_type : ℕ → String
expected_type kind =
    if eqb kind pkt_app_request
    then "req"
    else if eqb kind pkt_app_response
    then "res"
    else if eqb kind pkt_app_error
    then "err"
    else if eqb kind pkt_relay_request
    then "relay_req"
    else if eqb kind pkt_relay_response
    then "relay_res"
    else ""

-- _app_peer_for_packet
abbrev usable : Bool → Option Peer → Option Peer
usable have_crypto none = none
usable have_crypto (some p) =
    if is_empty p.pubkey || (is_empty p.peer_id || not have_crypto) then none else some p

unfoldable pub app_peer_for_packet : Engine → Packet → Option Peer
app_peer_for_packet e p = usable e.have_crypto (find_by_wire_node_id p.node_id e.peers)

module _ (parse : List ℕ → Loaded) (dump : Fields → Option (List ℕ)) (services : List String)
    (derive_shared_key : String → Option (List ℕ))
    (decrypt : List ℕ → List ℕ → List ℕ → Option (List ℕ)) (wall_ms now_sec now_ms : ℕ)
    (addr : Address) where
  -- The checks of a decrypted packet, _validate_app_identity among them.
  unfoldable pub authentic : Engine → Packet → Peer → List ℕ → Outcome Envelope
  authentic e p peer plain = do
    raise_if (not (eqb p.version tep_version)) "unsupported_version"
    env ← decode_message parse dump services (some wall_ms) (in_bytes plain)
    raise_if (not (env.source.node_id == peer.id) || not (env.source.peer_id == peer.peer_id))
        "identity_mismatch"
    raise_if
        (not (env.destination.node_id == e.local_identity.node_id)
          || not (env.destination.peer_id == e.local_identity.peer_id))
        "identity_mismatch"
    raise_if (not (env.msg_type == expected_type p.kind)) "packet_envelope_mismatch"
    ok env

  abbrev pub completed : Engine → Envelope → Peer → Bool × List Waiting → Action × Engine
  completed e env peer (true, ws) = (complete env peer, record e { pending = ws })
  completed e env peer (false, ws) = (dropped, drop_packet e)

  abbrev pub routed : Engine → Envelope → Peer → List ℕ → Action × Engine
  routed e env peer plain =
      if env.msg_type == "req"
      then (serve env peer, e)
      else if env.msg_type == "relay_req"
      then (relay env peer, e)
      else completed e env peer (pending_complete env.request_id plain e.pending)

  -- The route and the time of a peer whose packet is authentic.
  abbrev pub observed :
      Engine → Envelope → Peer → List ℕ → Outcome (Endpoint × List Endpoint) → Action × Engine
  observed e env peer plain (ok (route, table)) =
      routed (record e { relay_table = table; peers = mark_seen now_sec peer.id "" e.peers }) env
        peer plain
  observed e env peer plain (error code) = (crashed, e)
  observed e env peer plain exception = (crashed, e)

  abbrev pub on_envelope : Engine → Peer → List ℕ → Outcome Envelope → Action × Engine
  on_envelope e peer plain (ok env) =
      observed
        (record e { peers = update_authenticated_endpoint peer.id addr.ip addr.port e.peers }) env
        peer plain
        (observe now_ms peer.peer_id addr.ip (int (pos addr.port)) peer.pubkey true e.relay_table)
  on_envelope e peer plain (error code) = (
    dropped,
    if code == "identity_mismatch" || code == "authentication_failed"
        then reject_packet e
        else drop_packet e,
  )
  on_envelope e peer plain exception = (crashed, e)

  -- _handle_authenticated_app_packet
  unfoldable pub handle_authenticated_app_packet : Engine → Packet → Peer → List ℕ → Action × Engine
  handle_authenticated_app_packet e p peer plain =
      on_envelope e peer plain (authentic e p peer plain)

  abbrev pub on_plain : Engine → Packet → Peer → Option (List ℕ) → Action × Engine
  on_plain e p peer none = (dropped, reject_packet e)
  on_plain e p peer (some plain) = handle_authenticated_app_packet e p peer plain

  abbrev pub on_key : Engine → Packet → Peer → Option (List ℕ) → Action × Engine
  on_key e p peer none = (dropped, reject_packet e)
  on_key e p peer (some key) = on_plain e p peer (decrypt p.enc_payload key p.nonce)

  abbrev pub on_peer : Engine → Packet → Option Peer → Action × Engine
  on_peer e p none = (dropped, reject_packet e)
  on_peer e p (some peer) = on_key e p peer (derive_shared_key peer.pubkey)

  -- The part of _recv_loop for a packet of the application types.
  unfoldable pub receive_app : Engine → Packet → Action × Engine
  receive_app e p =
      if e.app_ready then on_peer e p (app_peer_for_packet e p) else (dropped, drop_packet e)
