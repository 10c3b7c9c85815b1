-- ===== src/Ingress/Trust.antt =====
-- ha/hashburst_master_ingress.py: what a route that is handed to a client rests on.
use node_installer.Prelude.{
  subst, Bool-cases, inl, inr, String, ◌≡◌, refl, true, false, not, Option, some, arith, eq_iff,
  pos, ◌≤ℤ◌, ltb_ℤ, eqb_ℤ, not-false, str-eq, or-false, ltb_ℤ-false, int-eq, ap, ◌∙◌, ◌⊎◌,
}
use node_installer.Text.{is_empty}
use node_installer.Json.{
  nil, cons, str, null, bool, int, real, infinity, Json, Fields, Items, arr, obj, get, is_true,
}
use node_installer.Outcome.{ok, Ensures, Ensures-bind, Ensures-raise_if, Ensures-ok}
use node_installer.Ingress.{
  is_peer, Fetched, MasterRoute, MasterStatus, ha_status, tep_status, number, find_peer,
  require_list, require_peer, dict_or, text, resolve, min_lease_remaining_ms, pcb_tep_port,
}

-- A dictionary is an element of a JSON list.
abbrev Listed : Fields → Items → Type 0
Listed d nil = ⊥
Listed d (cons x xs) = (x ≡ obj d) ⊎ Listed d xs

-- A route is the holder that the local HA agent and its cluster view agree on, in its term, with a
-- quorum of voters and a lease that still runs for a second, and an online peer with its id in the TEP
-- registry.
pub record IsTrusted (repr : Json → String) (ha tep : Fetched) (r : MasterRoute) : Type 0 where
  pub status : Fields
  pub view : Fields
  pub registry : Fields
  pub peers : Items
  pub peer : Fields
  pub from_ha : ha_status ha ≡ ok status
  pub from_view : get "cluster_view" status ≡ obj view
  pub holder : r.node_id ≡ text repr (get "holder" status)
  pub holder_agrees : text repr (get "holder" view) ≡ r.node_id
  pub holder_named : is_empty r.node_id ≡ false
  pub term : (number (get "term" status) ≡ ok r.term) × (pos 1 ≤ℤ r.term)
  pub holder_term : number (get "holder_term" view) ≡ ok r.term
  pub quorum : (number (get "quorum" view) ≡ ok r.quorum) × (pos 1 ≤ℤ r.quorum)
  pub voters :
      (number (get "voters_reachable" view) ≡ ok r.voters_reachable)
      × (r.quorum ≤ℤ r.voters_reachable)
  pub lease :
      (number (get "lease_remaining_ms" status) ≡ ok r.lease_remaining_ms)
      × (pos min_lease_remaining_ms ≤ℤ r.lease_remaining_ms)
  pub from_tep : tep_status tep ≡ ok registry
  pub from_registry : get "peers" registry ≡ arr peers
  pub found : (get "id" peer ≡ str r.node_id) × Listed peer peers
  pub online : is_true (get "online" peer) ≡ true
  pub peer_id : (r.peer_id ≡ text repr (get "peer_id" peer)) × (is_empty r.peer_id ≡ false)
  pub host : (r.host ≡ text repr (get "ip" peer)) × (is_empty r.host ≡ false)
  pub port : r.port ≡ pcb_tep_port

is_peer-eq : (holder : String) (x : Json) → is_peer holder x ≡ true → x ≡ str holder
is_peer-eq holder (str s) h = let same : s ≡ holder = ground (arith, eq_iff s holder) in ap str same
is_peer-eq holder null h = cc
is_peer-eq holder (bool b) h = cc
is_peer-eq holder (int n) h = cc
is_peer-eq holder (real m e) h = cc
is_peer-eq holder infinity h = cc
is_peer-eq holder (arr xs) h = cc
is_peer-eq holder (obj d) h = cc

some-injective : (c d : Fields) → some c ≡ some d → c ≡ d
some-injective c d h = cc

further : {A B C : Type 0} → A × B → A × (C ⊎ B)
further (a, b) = (a, inr b)

find_peer-Listed :
    (holder : String) (xs : Items) (d : Fields)
    → find_peer holder xs ≡ some d
    → (get "id" d ≡ str holder) × Listed d xs
unfolding find_peer
find_peer-Listed holder nil d = λ h. cc
find_peer-Listed holder (cons (obj c) xs) d = elim (Bool-cases (is_peer holder (get "id" c))) [
  | inl e ↦ rw e (λ h.
      let same = some-injective c d h in
      (
        subst (λ (m : Fields). get "id" m ≡ str holder) same (is_peer-eq holder _ e),
        inl (ap obj same),
      ))
  | inr e ↦ rw e (λ h. further (find_peer-Listed holder xs d h))
]
find_peer-Listed holder (cons null xs) d = λ h. further (find_peer-Listed holder xs d h)
find_peer-Listed holder (cons (bool b) xs) d = λ h. further (find_peer-Listed holder xs d h)
find_peer-Listed holder (cons (int n) xs) d = λ h. further (find_peer-Listed holder xs d h)
find_peer-Listed holder (cons (real m e) xs) d = λ h. further (find_peer-Listed holder xs d h)
find_peer-Listed holder (cons infinity xs) d = λ h. further (find_peer-Listed holder xs d h)
find_peer-Listed holder (cons (str s) xs) d = λ h. further (find_peer-Listed holder xs d h)
find_peer-Listed holder (cons (arr ys) xs) d = λ h. further (find_peer-Listed holder xs d h)

dict_or-eq : (code : String) (x : Json) {d : Fields} → dict_or code x ≡ ok d → x ≡ obj d
dict_or-eq code x e = ground arith

require_list-eq : (x : Json) {xs : Items} → require_list x ≡ ok xs → x ≡ arr xs
require_list-eq x e = ground arith

require_peer-eq : (o : Option Fields) {d : Fields} → require_peer o ≡ ok d → o ≡ some d
require_peer-eq o e = ground arith

-- Every route that `resolve` returns is that of a named holder on which the HA status and its cluster
-- view agree, in one term of at least 1, with a quorum of at least one voter reached and a second of the
-- lease left, and of a peer that the TEP registry lists under this id and has online, with a peer id and
-- a host.
pub resolve-IsTrusted :
    (repr : Json → String) (ha tep : Fetched)
    → Ensures (IsTrusted repr ha tep) (resolve repr ha tep)
unfolding resolve
resolve-IsTrusted repr ha tep = Ensures-bind _ _ λ status p_status. Ensures-bind _ _ λ view p_view.
    Ensures-raise_if _ _ _ λ named. Ensures-raise_if _ _ _ λ agrees. Ensures-bind _ _ λ term p_term.
      Ensures-bind _ _ λ holder_term p_holder. Ensures-bind _ _ λ lease p_lease.
        Ensures-bind _ _ λ voters p_voters. Ensures-bind _ _ λ quorum p_quorum.
          Ensures-raise_if _ _ _ λ current. Ensures-raise_if _ _ _ λ enough.
            Ensures-raise_if _ _ _ λ lasting. Ensures-bind _ _ λ registry p_registry.
              Ensures-bind _ _ λ peers p_peers. Ensures-bind _ _ λ peer p_peer.
                Ensures-raise_if _ _ _ λ online. Ensures-raise_if _ _ _ λ complete. Ensures-ok _ (
                  let (late, same) =
                    or-false (ltb_ℤ term (pos 1)) (not (eqb_ℤ holder_term term)) current in
                  let (some_quorum, reached) =
                    or-false (ltb_ℤ quorum (pos 1)) (ltb_ℤ voters quorum) enough in
                  let (some_peer, some_host) = or-false _ _ complete in
                  record {
                    status = status;
                    view = view;
                    registry = registry;
                    peers = peers;
                    peer = peer;
                    from_ha = p_status;
                    from_view = dict_or-eq _ _ p_view;
                    holder = refl;
                    holder_agrees = str-eq _ _ agrees;
                    holder_named = named;
                    term = (p_term, ltb_ℤ-false term (pos 1) late);
                    holder_term = p_holder ∙ ap ok (int-eq holder_term term same);
                    quorum = (p_quorum, ltb_ℤ-false quorum (pos 1) some_quorum);
                    voters = (p_voters, ltb_ℤ-false voters quorum reached);
                    lease = (p_lease, ltb_ℤ-false lease (pos min_lease_remaining_ms) lasting);
                    from_tep = p_registry;
                    from_registry = require_list-eq _ p_peers;
                    found = find_peer-Listed _ peers _ (require_peer-eq _ p_peer);
                    online = not-false _ online;
                    peer_id = (refl, some_peer);
                    host = (refl, some_host);
                    port = refl;
                  })

-- Its route is trusted, it came over one of the two transports, and it says that the master is live.
pub record IsServed (repr : Json → String) (ha tep : Fetched) (s : MasterStatus) : Type 0 where
  pub trusted : IsTrusted repr ha tep s.route
  pub live : is_true (get "master_live" s.result) ≡ true
  pub transport : (s.path ≡ "direct") ⊎ (s.path ≡ "relay")
