-- ===== src/Ingress.antt =====
-- ha/hashburst_master_ingress.py: MasterResolver and the requests of the HTTP handler. The three local
-- services that it calls are values of `Fetched`; errors keep their codes, not their texts.
pub mod Trust
pub mod Http
use node_installer.Prelude.{
  ℕ, ◌/◌, ◌≤◌, String, Bool, true, false, not, ◌&&◌, ◌||◌, Option, none, some, eqb, leb, ltb, ◌==◌,
  if◌then◌else◌, ℤ, pos, ltb_ℤ, eqb_ℤ,
}
use node_installer.Text.{is_empty, strip}
use node_installer.Json.{
  Json, Fields, Items, nil, cons, null, str, arr, obj, PyInt, value, invalid, overflow, get,
  as_dict, py_int, or_zero, is_true, truthy, text_or_empty, py_str,
}
use node_installer.Outcome.{Outcome, ok, error, exception, ◌>>=◌, ◌>>◌, raise_if}

-- What `opener(request)` and reading do: an HTTPError, another error of the connection (URLError or
-- OSError), an exception of another class, or a response with its
-- status, the length of its body, and what the body is as JSON (`none` if it is not).
pub data Fetched : Type 0 where
  rejected : Fetched
  unreachable : Fetched
  broke : Fetched
  response : ℕ → ℕ → Option Json → Fetched

abbrev pub max_response_bytes : ℕ
max_response_bytes = 131072

abbrev pub min_lease_remaining_ms : ℕ
min_lease_remaining_ms = 1000

abbrev pub pcb_tep_port : ℕ
pcb_tep_port = 8765

abbrev body_dict : Option Json → Outcome Fields
body_dict none = error "invalid_upstream_response"
body_dict (some (obj d)) = ok d
body_dict (some _) = error "invalid_upstream_response"

-- MasterResolver._request_json
unfoldable pub request_json : Fetched → Outcome Fields
request_json rejected = error "upstream_rejected"
request_json unreachable = error "upstream_unavailable"
request_json broke = exception
request_json (response status size body) =
    if not (eqb (status / 100) 2)
    then error "upstream_unavailable"
    else if ltb max_response_bytes size
    then error "response_too_large"
    else body_dict body

abbrev pub dict_or : String → Json → Outcome Fields
dict_or code (obj d) = ok d
dict_or code _ = error code

-- MasterResolver.ha_status
unfoldable pub ha_status : Fetched → Outcome Fields
ha_status ha = do d ← request_json ha; dict_or "ha_status_invalid" (get "status" d)

-- MasterResolver.tep_status
unfoldable pub tep_status : Fetched → Outcome Fields
tep_status tep = do
  d ← request_json tep
  raise_if (not (is_true (get "app_ready" d))) "tep_not_ready"
  ok d

pub record MasterRoute : Type 0 where
  pub node_id : String
  pub peer_id : String
  pub host : String
  pub port : ℕ
  pub term : ℤ
  pub lease_remaining_ms : ℤ
  pub voters_reachable : ℤ
  pub quorum : ℤ

-- `int(x or 0)` where TypeError and ValueError are caught; an OverflowError is not.
abbrev pub to_int_or : String → PyInt → Outcome ℤ
to_int_or code (value n) = ok n
to_int_or code invalid = error code
to_int_or code overflow = exception

abbrev pub number : Json → Outcome ℤ
number x = to_int_or "ha_view_invalid" (py_int (or_zero x))

abbrev pub is_peer : String → Json → Bool
is_peer holder (str s) = s == holder
is_peer holder _ = false

-- The first dictionary in the registry whose id is the holder.
unfoldable pub find_peer : String → Items → Option Fields
find_peer holder nil = none
find_peer holder (cons (obj d) xs) =
    if is_peer holder (get "id" d) then some d else find_peer holder xs
find_peer holder (cons _ xs) = find_peer holder xs

abbrev pub require_list : Json → Outcome Items
require_list (arr xs) = ok xs
require_list _ = error "tep_registry_invalid"

abbrev pub require_peer : Option Fields → Outcome Fields
require_peer none = error "master_not_registered"
require_peer (some d) = ok d

-- What `master_status` returns.
pub record MasterStatus : Type 0 where
  pub result : Fields
  pub route : MasterRoute
  pub path : String
  pub relay_peer_id : Option String

module _ (repr : Json → String) where
  abbrev pub text : Json → String
  text x = strip (text_or_empty repr x)

  -- MasterResolver.resolve
  unfoldable pub resolve : Fetched → Fetched → Outcome MasterRoute
  resolve ha tep = do
    status ← ha_status ha
    view ← dict_or "ha_view_invalid" (get "cluster_view" status)
    let holder = text (get "holder" status)
    raise_if (is_empty holder) "master_unavailable"
    raise_if (not (text (get "holder" view) == holder)) "ha_holder_mismatch"
    term ← number (get "term" status)
    holder_term ← number (get "holder_term" view)
    lease_ms ← number (get "lease_remaining_ms" status)
    voters ← number (get "voters_reachable" view)
    quorum ← number (get "quorum" view)
    raise_if (ltb_ℤ term (pos 1) || not (eqb_ℤ holder_term term)) "ha_term_invalid"
    raise_if (ltb_ℤ quorum (pos 1) || ltb_ℤ voters quorum) "ha_no_quorum"
    raise_if (ltb_ℤ lease_ms (pos min_lease_remaining_ms)) "ha_lease_expiring"
    registry ← tep_status tep
    peers ← require_list (get "peers" registry)
    peer ← require_peer (find_peer holder peers)
    raise_if (not (is_true (get "online" peer))) "master_offline"
    let peer_id = text (get "peer_id" peer)
    let host = text (get "ip" peer)
    raise_if (is_empty peer_id || is_empty host) "master_identity_incomplete"
    ok (record {
      node_id = holder;
      peer_id = peer_id;
      host = host;
      port = pcb_tep_port;
      term = term;
      lease_remaining_ms = lease_ms;
      voters_reachable = voters;
      quorum = quorum;
    })

  -- MasterResolver.master_status; `ask` is the answer of the TEP daemon to the request for a route.
  unfoldable pub master_status :
      Fetched → Fetched → (String → String → Fetched) → Outcome MasterStatus
  master_status ha tep ask = do
    route ← resolve ha tep
    answer ← request_json (ask route.node_id route.peer_id)
    raise_if (not (is_true (get "ok" answer))) "tep_master_request_failed"
    result ← dict_or "invalid_master_response" (get "result" answer)
    raise_if (not (is_true (get "master_live" result))) "master_not_live"
    let path = text_or_empty repr (get "path" answer)
    raise_if (not (path == "direct" || path == "relay")) "invalid_transport_path"
    ok (record {
      result = result;
      route = route;
      path = path;
      relay_peer_id =
          if truthy (get "relay_peer_id" answer)
          then some (py_str repr (get "relay_peer_id" answer))
          else none;
    })
