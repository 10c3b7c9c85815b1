-- ===== src/Replication/Controller.antt =====
-- replication/hb_replication_controller.py: Controller. Each call of the database is a transaction of its own,
-- so what was written before an exception stays. `uuid4` is a function of the number of the call; logs, audit
-- rows and texts of reasons are left out. Times are seconds.
pub mod Effects
pub mod Loops
pub mod Assignments
pub mod Health
use node_installer.Prelude.{
  ℕ, suc, ◌+◌, ◌-◌, String, Bool, true, false, not, ◌&&◌, ◌||◌, Option, none, some, List, [], ◌∷◌,
  eqb, leb, ltb, ◌==◌, if◌then◌else◌, contains, length,
}
use node_installer.Text.{is_empty}
use node_installer.Outcome.{Outcome, ok, error, exception}
use node_installer.Placement.{
  PlacementPolicy, Node, Load, choose_placements, committable, best_effort,
}
use node_installer.Replication.Rows.{
  ReplicaState, assigned, pinning, pinned, grace, failed, missing, NodeRow, ObjectRow, Replica, Db,
  find_node, find_object,
}
use node_installer.Replication.Jobs.{is_active, create_pin_assignment, create_verify_job}
use node_installer.Replication.Reports.{mark_replica_state, update_object_health}

pub data Mode : Type 0 where
  observe pin_only : Mode

-- The settings of the process and of the policy.
pub record Settings : Type 0 where
  pub mode : Mode
  pub prefer_edge_for_extra : Bool
  pub safety_margin_bytes : ℕ
  pub edge_grace : ℕ
  pub committable_grace : ℕ
  pub node_stale : ℕ
  pub verify_interval : ℕ
  pub shared_node_token : String

abbrev or_token : String → String → String
or_token a b = if is_empty a then b else a

abbrev pub token_matches : String → String → Bool
token_matches expected supplied = not (is_empty expected) && expected == supplied

abbrev authenticate : Settings → String → Option NodeRow → Bool
authenticate cfg supplied none = false
authenticate cfg supplied (some n) =
    token_matches (or_token n.auth_token cfg.shared_node_token) supplied

-- Controller.authenticate_node; `compare_digest` is equality.
unfoldable pub authenticate_node : Settings → String → String → Db → Bool
authenticate_node cfg node supplied db = authenticate cfg supplied (find_node node db.nodes)

-- Controller._node_online
unfoldable pub node_online : Settings → ℕ → NodeRow → Bool
node_online cfg now n = n.enabled && (ltb 0 n.last_seen && leb now (n.last_seen + cfg.node_stale))

-- ReplicationDB.replica_rows
unfoldable pub replica_rows : String → List Replica → List Replica
replica_rows cid [] = []
replica_rows cid (r ∷ rs) =
    let rest = replica_rows cid rs in if r.cid == cid then r ∷ rest else rest

abbrev pub or_else : ℕ → ℕ → ℕ
or_else a b = if eqb a 0 then b else a

abbrev is_grace : ReplicaState → Bool
is_grace grace = true
is_grace _ = false

abbrev pub is_pinned : ReplicaState → Bool
is_pinned pinned = true
is_pinned _ = false

module _ (cfg : Settings) (now : ℕ) (cid : String) where
  -- The end of the grace of a replica whose node is offline.
  abbrev pub grace_end : NodeRow → Replica → ℕ
  grace_end n r =
      or_else n.last_seen (or_else r.confirmed_at (or_else r.assigned_at now))
      + (if r.class_at_assignment == best_effort then cfg.edge_grace else cfg.committable_grace)

  -- The state that a replica is put into; none leaves the row.
  unfoldable pub observed : Option NodeRow → Replica → Option ReplicaState
  unfolding node_online
  observed none r = some missing
  observed (some n) r =
      if node_online cfg now n
      then (if is_grace r.state then some pinned else none)
      else if not (is_pinned r.state || is_grace r.state)
      then none
      else if ltb now (grace_end n r)
      then some grace
      else some missing

  abbrev pub mark : String → Option ReplicaState → Db → Db
  mark node none db = db
  mark node (some s) db = mark_replica_state now cid node s db

  -- The loop over the rows that were read before it.
  unfoldable pub classify_rows : List NodeRow → List Replica → Db → Db
  classify_rows nodes [] db = db
  classify_rows nodes (r ∷ rs) db =
      classify_rows nodes rs (mark r.node_id (observed (find_node r.node_id nodes) r) db)

  -- Controller._classify_observed_replicas
  unfoldable pub classify : Db → Db
  classify db = classify_rows db.nodes (replica_rows cid db.replicas) db

-- How many rows pass a test.
unfoldable pub count : (Replica → Bool) → List Replica → ℕ
count p [] = 0
count p (r ∷ rs) = let rest = count p rs in if p r then suc rest else rest

-- A replica that counts: desired and pinned.
abbrev pub is_confirmed : Replica → Bool
is_confirmed r = r.desired && is_pinned r.state

abbrev pub confirmed_total : List Replica → ℕ
confirmed_total rs = count is_confirmed rs

abbrev pub confirmed_committable : List Replica → ℕ
confirmed_committable rs = count (λ r. is_confirmed r && r.class_at_assignment == committable) rs

-- A replica in its grace counts for placement only.
abbrev in_grace : Replica → Bool
in_grace r = r.desired && is_grace r.state

abbrev pub effective_total : List Replica → ℕ
effective_total rs = confirmed_total rs + count in_grace rs

abbrev pub effective_committable : List Replica → ℕ
effective_committable rs =
    confirmed_committable rs + count (λ r. in_grace r && r.class_at_assignment == committable) rs

-- A row of `nodes` as the policy reads it; the table has no columns for domains.
abbrev pub as_candidate : Settings → ℕ → NodeRow → Node
as_candidate cfg now n = record {
  node_id = n.node_id;
  enabled = n.enabled;
  online = node_online cfg now n;
  capacity_class = n.capacity_class;
  total_bytes = n.total_bytes;
  used_bytes = n.used_bytes;
  stability_score = n.stability_score;
  failure_penalty = n.failure_penalty;
  failure_domain = "";
  provider = "";
  region = "";
  rack = "";
}

unfoldable pub online_nodes : Settings → ℕ → List NodeRow → List Node
online_nodes cfg now [] = []
online_nodes cfg now (n ∷ ns) = as_candidate cfg now n ∷ online_nodes cfg now ns

unfoldable pub desired_nodes : List Replica → List String
desired_nodes [] = []
desired_nodes (r ∷ rs) = if r.desired then r.node_id ∷ desired_nodes rs else desired_nodes rs

abbrev is_load : String → Replica → Bool
is_load node r = r.node_id == node && (r.desired && is_active r.state)

abbrev size_of : Option ObjectRow → ℕ
size_of none = 0
size_of (some o) = o.size_bytes

unfoldable pub bytes_on : String → List ObjectRow → List Replica → ℕ
bytes_on node objects [] = 0
bytes_on node objects (r ∷ rs) =
    let rest = bytes_on node objects rs in
    if is_load node r then size_of (find_object r.cid objects) + rest else rest

-- ReplicationDB.placement_load; every replica has its object.
unfoldable pub placement_load : Db → Load
unfolding bytes_on count
placement_load db = record {
  reserved = λ node. bytes_on node db.objects db.replicas;
  desired = λ node. count (is_load node) db.replicas;
  assigned = λ node. bytes_on node db.objects db.replicas;
}

abbrev pub policy_of : Settings → ObjectRow → PlacementPolicy
policy_of cfg object = record {
  replication_n = object.replication_n;
  committable_m = object.committable_m;
  prefer_edge_for_extra = cfg.prefer_edge_for_extra;
  safety_margin_bytes = cfg.safety_margin_bytes;
}

-- The state of an object by its confirmed replicas.
unfoldable pub health : ObjectRow → List Replica → String
health object replicas =
    if ltb (confirmed_committable replicas) object.committable_m
    then "degraded_committable"
    else if ltb (confirmed_total replicas) object.replication_n
    then "degraded_total"
    else "healthy"

-- What a method that may raise leaves.
abbrev pub Left : Type 0
Left = Outcome (Unit {0}) × Db

module _ (cfg : Settings) (tiebreak : String → String → ℕ) (uuid : ℕ → String) (now : ℕ)
    (cid : String) where
  -- The loop over the nodes that were picked; `k` is the number of the call of `uuid4`.
  unfoldable pub assign_all : ℕ → List Node → Db → Left
  assign_all k [] db = (ok tt, db)
  assign_all k (n ∷ ns) db =
      elim (create_pin_assignment now (uuid k) cid n.node_id n.capacity_class db) [
        | ok (job, db') ↦ assign_all (suc k) ns db'
        | error c ↦ (error c, db)
        | exception ↦ (exception, db)
      ]

  abbrev pub is_online : Option NodeRow → Bool
  is_online none = false
  is_online (some n) = node_online cfg now n

  -- A confirmed replica on an online node that is to be verified again.
  abbrev pub is_unverified : List NodeRow → Replica → Bool
  is_unverified nodes r =
      is_confirmed r
      && (is_online (find_node r.node_id nodes)
          && leb (r.last_verified_at + cfg.verify_interval) now)

  unfoldable pub verify_all : ℕ → ObjectRow → List NodeRow → List Replica → Db → Left
  verify_all k object nodes [] db = (ok tt, db)
  verify_all k object nodes (r ∷ rs) db = elim (is_unverified nodes r) [
    | false ↦ verify_all k object nodes rs db
    | true ↦
        elim (create_verify_job now (uuid k) cid r.node_id (or_else r.generation object.generation)
          db) [
            | ok (job, db') ↦ verify_all (suc k) object nodes rs db'
            | error c ↦ (error c, db)
            | exception ↦ (exception, db)
          ]
  ]

  -- What follows the assignments: the replicas as they were read before them are verified.
  abbrev pub then_verify : ObjectRow → List Node → Db → Left → Left
  then_verify object picks seen (ok u, db) =
      verify_all (length picks) object seen.nodes (replica_rows cid seen.replicas) db
  then_verify object picks seen (error c, db) = (error c, db)
  then_verify object picks seen (exception, db) = (exception, db)

  -- In pin-only mode the picks are assigned and replicas are verified; else nothing is written.
  abbrev pub act : Mode → ObjectRow → List Node → Db → Left
  act observe object picks db = (ok tt, db)
  act pin_only object picks db = then_verify object picks db (assign_all 0 picks db)

  -- The last lines: the state of the object by the replicas as they are then.
  abbrev pub report_health : ObjectRow → Left → Left
  report_health object (ok u, db) =
      (ok tt, update_object_health cid (health object (replica_rows cid db.replicas)) db)
  report_health object (error c, db) = (error c, db)
  report_health object (exception, db) = (exception, db)

  abbrev pub picks_for : ObjectRow → Db → Outcome (List Node)
  picks_for object db =
      let rows = replica_rows cid db.replicas in
      choose_placements tiebreak cid object.size_bytes (online_nodes cfg now db.nodes)
        (desired_nodes rows) (effective_committable rows) (effective_total rows) (placement_load db)
        (policy_of cfg object)

  abbrev pub plan : ObjectRow → Db → Outcome (List Node) → Left
  plan object db (ok picks) = report_health object (act cfg.mode object picks db)
  plan object db (error c) = (error c, db)
  plan object db exception = (exception, db)

  abbrev pub reconcile_object : Db → Option ObjectRow → Left
  reconcile_object db none = (ok tt, db)
  reconcile_object db (some object) =
      if eqb object.refcount 0
      then (ok tt, db)
      else (let seen = classify cfg now cid db in plan object seen (picks_for object seen))

  -- Controller.reconcile_cid; marks of replicas leave the objects, so the object is read once.
  unfoldable pub reconcile_cid : Db → Left
  reconcile_cid db = reconcile_object db (find_object cid db.objects)
