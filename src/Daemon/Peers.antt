-- ===== src/Daemon/Peers.antt =====
-- tep/hb_tep.py: PeerManager, over a dictionary in the order of insertion. A method holds the lock; times are
-- seconds. A public key or a peer id that is None is the empty text, and the latency is left out.
use node_installer.Prelude.{
  ℕ, suc, ◌+◌, String, Bool, true, false, not, ◌&&◌, ◌||◌, Option, none, some, List, [], ◌∷◌, ltb,
  leb, ◌==◌, if◌then◌else◌, take, map,
}
use node_installer.Text.{is_empty, codes}
use node_installer.Daemon.Packet.{ascii, from_ascii, same_bytes}

pub record Peer : Type 0 where
  pub id : String
  pub ip : String
  pub port : ℕ
  pub last_seen : ℕ
  pub online : Bool
  pub pubkey : String
  pub peer_id : String

unfoldable pub find_by_node_id : String → List Peer → Option Peer
find_by_node_id id [] = none
find_by_node_id id (p ∷ ps) =
    let rest = find_by_node_id id ps in if p.id == id then some p else rest

-- A change of the peer with an id; nothing if there is none.
unfoldable pub change : String → (Peer → Peer) → List Peer → List Peer
change id f [] = []
change id f (p ∷ ps) = let rest = change id f ps in if p.id == id then f p ∷ rest else p ∷ rest

abbrev pub seen : ℕ → String → Peer → Peer
seen now pubkey p = record p {
  last_seen = now;
  online = true;
  pubkey = if is_empty pubkey then p.pubkey else pubkey;
}

unfoldable pub mark_seen : ℕ → String → String → List Peer → List Peer
mark_seen now id pubkey peers = change id (seen now pubkey) peers

unfoldable pub mark_offline : String → List Peer → List Peer
mark_offline id peers = change id (λ p. record p { online = false }) peers

abbrev moved : String → ℕ → Peer → Peer
moved ip port p = record p { ip = ip; port = port }

unfoldable pub update_authenticated_endpoint : String → String → ℕ → List Peer → List Peer
update_authenticated_endpoint id ip port peers = change id (moved ip port) peers

-- `self._peers[peer.id] = peer`
unfoldable pub put : Peer → List Peer → List Peer
put new [] = new ∷ []
put new (p ∷ ps) = if p.id == new.id then new ∷ ps else p ∷ put new ps

abbrev is_some : Option Peer → Bool
is_some none = false
is_some (some p) = true

unfoldable pub add_peer : String → String → ℕ → String → List Peer → List Peer
add_peer id ip port pubkey peers =
    if is_some (find_by_node_id id peers)
    then peers
    else put
        (record {
          id = id;
          ip = ip;
          port = port;
          last_seen = 0;
          online = false;
          pubkey = pubkey;
          peer_id = "";
        })
        peers

-- The first 16 bytes of an id, as a packet carries it.
abbrev pub wire_id : Peer → List ℕ
wire_id p = map from_ascii (take 16 (map ascii (codes p.id)))

unfoldable pub matches : List ℕ → List Peer → List Peer
matches id [] = []
matches id (p ∷ ps) =
    let rest = matches id ps in if same_bytes (wire_id p) id then p ∷ rest else rest

abbrev only : List Peer → Option Peer
only [] = none
only (p ∷ []) = some p
only (p ∷ q ∷ ps) = none

unfoldable pub find_by_wire_node_id : List ℕ → List Peer → Option Peer
find_by_wire_node_id id peers = only (matches id peers)

unfoldable pub find_by_peer_id : String → List Peer → Option Peer
find_by_peer_id id [] = none
find_by_peer_id id (p ∷ ps) =
    let rest = find_by_peer_id id ps in if p.peer_id == id then some p else rest

-- PEER_ONLINE_TTL_SEC
abbrev pub peer_online_ttl : ℕ
peer_online_ttl = 30

abbrev pub peer_is_fresh : ℕ → Peer → Bool
peer_is_fresh now p =
    p.online
    && (ltb 0 p.last_seen && (leb p.last_seen now && leb now (p.last_seen + peer_online_ttl)))

abbrev pub expire : ℕ → Peer → Peer
expire now p = if p.online && not (peer_is_fresh now p) then record p { online = false } else p

unfoldable pub expire_stale_locked : ℕ → List Peer → List Peer
expire_stale_locked now [] = []
expire_stale_locked now (p ∷ ps) = expire now p ∷ expire_stale_locked now ps

unfoldable pub count_online : List Peer → ℕ
count_online [] = 0
count_online (p ∷ ps) = let rest = count_online ps in if p.online then suc rest else rest

unfoldable pub online_count : ℕ → List Peer → ℕ × List Peer
online_count now peers = let left = expire_stale_locked now peers in (count_online left, left)

-- An entry of the registry of the blockchain; no port if `int` of it raises.
pub record Listed : Type 0 where
  pub id : String
  pub ip : String
  pub port : Option ℕ
  pub pubkey : String
  pub peer_id : String

abbrev last_seen_of : Option Peer → ℕ
last_seen_of none = 0
last_seen_of (some p) = p.last_seen

abbrev online_of : Option Peer → Bool
online_of none = false
online_of (some p) = p.online

abbrev peer_of : Listed → ℕ → Option Peer → Peer
peer_of l port prev = record {
  id = l.id;
  ip = l.ip;
  port = port;
  last_seen = last_seen_of prev;
  online = online_of prev;
  pubkey = l.pubkey;
  peer_id = l.peer_id;
}

abbrev put_listed : List Peer → Listed → Option ℕ → List Peer → Option (List Peer)
put_listed old l none fresh = none
put_listed old l (some port) fresh = some (put (peer_of l port (find_by_node_id l.id old)) fresh)

abbrev continue_with : (List Peer → Option (List Peer)) → Option (List Peer) → Option (List Peer)
continue_with f none = none
continue_with f (some peers) = f peers

-- The loop that makes the fresh table; none if it raises.
unfoldable pub refresh : List Peer → List Listed → List Peer → Option (List Peer)
refresh old [] fresh = some fresh
refresh old (l ∷ ls) fresh =
    if is_empty l.id || is_empty l.ip
    then refresh old ls fresh
    else continue_with (refresh old ls) (put_listed old l l.port fresh)

abbrev swapped : List Peer → Option (List Peer) → Bool × List Peer
swapped old none = (false, old)
swapped old (some fresh) = (true, fresh)

-- PeerManager.sync_from_blockchain; no registry if the request or its JSON fails.
unfoldable pub sync_from_blockchain : Option (List Listed) → List Peer → Bool × List Peer
sync_from_blockchain none peers = (false, peers)
sync_from_blockchain (some []) peers = (false, peers)
sync_from_blockchain (some (l ∷ ls)) peers = swapped peers (refresh peers (l ∷ ls) [])
