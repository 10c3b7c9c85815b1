-- ===== src/Relay.antt =====
-- tep/hb_tep_relay.py: RelayTable and RelayPolicy. A method holds the lock of its object; the clock is an
-- argument, and times are milliseconds.
pub mod Flight
pub mod Dispatch
pub mod Transport
pub mod Authority
pub mod Slots
use node_installer.Prelude.{
  ℕ, suc, ◌+◌, ◌-◌, String, Bool, true, false, not, ◌&&◌, ◌||◌, Option, none, some, List, [], ◌∷◌,
  contains, ltb, leb, eqb, ◌==◌, if◌then◌else◌, pos,
}
use node_installer.Text.{is_empty, strip}
use node_installer.Json.{Json, int}
use node_installer.Outcome.{Outcome, ok, error, exception, ◌>>=◌, ◌>>◌, raise_if}

-- ObservedEndpoint
pub record Endpoint : Type 0 where
  pub peer_id : String
  pub ip : String
  pub port : ℕ
  pub last_seen : ℕ
  pub pubkey : String

abbrev without : String → List Endpoint → List Endpoint
without peer [] = []
without peer (r ∷ rs) = let rest = without peer rs in if r.peer_id == peer then rest else r ∷ rest

abbrev pub lookup : String → List Endpoint → Option Endpoint
lookup peer [] = none
lookup peer (r ∷ rs) = let rest = lookup peer rs in if r.peer_id == peer then some r else rest

-- An `int` from 1 to 65535.
abbrev udp_port : Json → Outcome ℕ
udp_port (int (pos n)) = if leb 1 n && leb n 65535 then ok n else error "bad_route"
udp_port _ = error "bad_route"

-- RelayTable.observe
unfoldable pub observe :
    ℕ → String → String → Json → String → Bool → List Endpoint → Outcome (Endpoint × List Endpoint)
unfolding ◌>>=◌ ◌>>◌ raise_if
observe now peer_id ip port pubkey authenticated table = do
  raise_if (not authenticated) "authentication_failed"
  raise_if (is_empty (strip peer_id) || is_empty (strip ip)) "bad_route"
  p ← udp_port port
  let route : Endpoint = record {
    peer_id = strip peer_id;
    ip = strip ip;
    port = p;
    last_seen = now;
    pubkey = pubkey;
  }
  ok (route, route ∷ without (strip peer_id) table)

abbrev pub fresh : ℕ → ℕ → Option Endpoint → Outcome Endpoint
fresh now max_age none = error "destination_unknown"
fresh now max_age (some r) = if ltb max_age (now - r.last_seen) then error "peer_offline" else ok r

-- RelayTable.get
unfoldable pub route_to : ℕ → String → ℕ → List Endpoint → Outcome Endpoint
route_to now peer_id max_age table =
    if leb max_age 0 then exception else fresh now max_age (lookup peer_id table)

-- RelayTable.discard
abbrev pub discard : String → List Endpoint → List Endpoint
discard peer_id table = without peer_id table

-- How many requests of a source are pending.
pub record Pending : Type 0 where
  pub source : String
  pub count : ℕ

-- RelayPolicy
pub record Policy : Type 0 where
  pub trusted_sources : List String
  pub registered_targets : List String
  pub allowed_services : List String
  pub max_pending : ℕ
  pub max_pending_per_source : ℕ
  pub pending_total : ℕ
  pub pending_by_source : List Pending

-- RelayPolicy.__init__
unfoldable pub new_policy : List String → List String → List String → ℕ → ℕ → Outcome Policy
new_policy sources targets services limit per_source =
    if leb limit 0 || leb per_source 0
    then exception
    else ok (record {
      trusted_sources = sources;
      registered_targets = targets;
      allowed_services = services;
      max_pending = limit;
      max_pending_per_source = per_source;
      pending_total = 0;
      pending_by_source = [];
    })

-- RelayPolicy.authorize
unfoldable pub authorize : String → String → String → Policy → Outcome (Unit {0})
unfolding ◌>>=◌ ◌>>◌ raise_if
authorize source target service p = do
  raise_if (not (contains p.trusted_sources source)) "relay_unauthorized"
  raise_if (not (contains p.registered_targets target)) "destination_unknown"
  raise_if (not (contains p.allowed_services service)) "unsupported_service"

-- `_pending_by_source.get(source, 0)`
unfoldable pub pending_of : String → List Pending → ℕ
pending_of source [] = 0
pending_of source (e ∷ es) = if e.source == source then e.count else pending_of source es

unfoldable pub remove_pending : String → List Pending → List Pending
remove_pending source [] = []
remove_pending source (e ∷ es) =
    if e.source == source then remove_pending source es else e ∷ remove_pending source es

unfoldable pub set_pending : String → ℕ → List Pending → List Pending
set_pending source n [] = (record { source = source; count = n }) ∷ []
set_pending source n (e ∷ es) =
    if e.source == source
    then (record { source = source; count = n }) ∷ es
    else e ∷ set_pending source n es

-- RelayPolicy.acquire
unfoldable pub acquire : String → Policy → Outcome Policy
acquire source p =
    let n = pending_of source p.pending_by_source in
    if leb p.max_pending p.pending_total || leb p.max_pending_per_source n
    then error "relay_overloaded"
    else ok (record p {
      pending_total = p.pending_total + 1;
      pending_by_source = set_pending source (n + 1) p.pending_by_source;
    })

abbrev pub decrease : String → ℕ → List Pending → List Pending
decrease source n entries =
    if ltb 1 n
    then set_pending source (n - 1) entries
    else if eqb n 1
    then remove_pending source entries
    else entries

-- RelayPolicy.release; the total does not go below 0.
unfoldable pub release : String → Policy → Policy
release source p = record p {
  pending_total = p.pending_total - 1;
  pending_by_source = decrease source (pending_of source p.pending_by_source) p.pending_by_source;
}
