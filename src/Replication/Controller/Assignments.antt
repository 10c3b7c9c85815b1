-- ===== src/Replication/Controller/Assignments.antt =====
-- replication/hb_replication_controller.py: the jobs that reconcile_cid makes.
use node_installer.Prelude.{
  eqb_pos, Among, ℕ, ◌<◌, String, ◌≡◌, refl, ◌∙◌, ap, sym, subst, inl, inr, true, false, Option,
  none, some, List, [], ◌∷◌, Bool-cases, Option-cases, All, All-each, All-mono, ◌==◌, contains,
  eq_iff, arith,
}
use node_installer.Outcome.{Outcome, ok, error, exception, Ensures}
use node_installer.Placement.{Node, PlacementPolicy, eligible}
use node_installer.Placement.Eligibility.{IsChoice, choose_placements-IsChoice}
use node_installer.Replication.Rows.{
  pending, Operation, pin, verify, NodeRow, ObjectRow, Replica, ReplicaState, Job, Db, find_node,
  find_object, update_replica,
}
use node_installer.Replication.Jobs.{new_job}
use node_installer.Replication.Reports.{mark_replica_state, update_object_health}
use node_installer.Replication.Controller.{
  Settings, Mode, observe, pin_only, Left, node_online, as_candidate, online_nodes, desired_nodes,
  replica_rows, observed, mark, classify_rows, classify, act, report_health, plan, picks_for,
  policy_of, placement_load, reconcile_cid, is_unverified,
}
use node_installer.Replication.Controller.Effects.{Grown, Extends, Extends-refl, Extends-trans}
use node_installer.Replication.Controller.Loops.{classify-Extends, act-Extends}

desired_nodes-update :
    (cid node : String) (f : Replica → Replica) (rs : List Replica)
    → ((r : Replica)
        → ((f r).cid ≡ r.cid) × (((f r).node_id ≡ r.node_id) × ((f r).desired ≡ r.desired)))
    → desired_nodes (replica_rows cid (update_replica cid node f rs))
      ≡ desired_nodes (replica_rows cid rs)
unfolding desired_nodes replica_rows update_replica
desired_nodes-update cid node f [] k = refl
desired_nodes-update cid node f (r ∷ rs) k = ground (
  arith,
  desired_nodes-update cid node f rs k,
  k r,
  eq_iff r.cid cid,
  eq_iff (f r).cid cid,
  eq_iff r.node_id node,
)

found-Among :
    (id : String) (ns : List NodeRow) (n : NodeRow)
    → find_node id ns ≡ some n
    → Among n ns × (n.node_id ≡ id)
found-Among id [] n e = ground arith
found-Among id (m ∷ ms) n e = elim (Bool-cases (m.node_id == id)) [
  | inl same ↦ ground (arith, eq_iff m.node_id id)
  | inr other ↦ let rest = found-Among id ms n (ground arith) in (inr rest.0, rest.1)
]

eligible-online :
    (n : Node) (size reserved : ℕ) (policy : PlacementPolicy)
    → eligible n size reserved policy ≡ true
    → n.online ≡ true
unfolding eligible
eligible-online n size reserved policy e = ground arith

module _ (cfg : Settings) (now : ℕ) where
  online_nodes-row :
      (ns : List NodeRow) (n : Node)
      → Among n (online_nodes cfg now ns)
      → (row : NodeRow) × (Among row ns × (n ≡ as_candidate cfg now row))
  unfolding online_nodes
  online_nodes-row [] n p = elim p [ ]
  online_nodes-row (m ∷ ms) n (inl e) = (m, (inl refl, e))
  online_nodes-row (m ∷ ms) n (inr p) =
      let rest = online_nodes-row ms n p in (rest.0, (inr rest.1.0, rest.1.1))

  module _ (cid : String) where
    mark-desired :
        (node : String) (s : Option ReplicaState) (db : Db)
        → desired_nodes (replica_rows cid (mark cfg now cid node s db).replicas)
          ≡ desired_nodes (replica_rows cid db.replicas)
    unfolding mark_replica_state
    mark-desired node none db = refl
    mark-desired node (some s) db =
        desired_nodes-update cid node _ db.replicas (λ r. (refl, (refl, refl)))

    classify_rows-desired :
        (nodes : List NodeRow) (rs : List Replica) (db : Db)
        → desired_nodes (replica_rows cid (classify_rows cfg now cid nodes rs db).replicas)
          ≡ desired_nodes (replica_rows cid db.replicas)
    unfolding classify_rows
    classify_rows-desired nodes [] db = refl
    classify_rows-desired nodes (r ∷ rs) db =
        classify_rows-desired nodes rs _
        ∙ mark-desired r.node_id (observed cfg now cid (find_node r.node_id nodes) r) db

    classify-desired :
        (db : Db)
        → desired_nodes (replica_rows cid (classify cfg now cid db).replicas)
          ≡ desired_nodes (replica_rows cid db.replicas)
    unfolding classify
    classify-desired db = classify_rows-desired db.nodes _ db

    -- What a job asks for: a pin stands on an eligible node without a desired replica of the object.
    abbrev pub IsWanted : ObjectRow → Db → Operation → NodeRow → Type 0
    IsWanted object db verify row = Unit
    IsWanted object db pin row =
        (contains (desired_nodes (replica_rows cid db.replicas)) row.node_id ≡ false)
        × (eligible (as_candidate cfg now row) object.size_bytes
              ((placement_load (classify cfg now cid db)).reserved row.node_id)
              (policy_of cfg object)
            ≡ true)

    -- A job that a reconciliation makes.
    pub record IsNew (object : ObjectRow) (db : Db) (j : Job) : Type 0 where
      pub mode : cfg.mode ≡ pin_only
      pub for_cid : j.cid ≡ cid
      pub waits : j.state ≡ pending
      pub unleased : j.lease_until ≡ 0
      pub row : NodeRow
      pub listed : Among row db.nodes
      pub for_node : j.node_id ≡ row.node_id
      pub online : node_online cfg now row ≡ true
      pub wanted : IsWanted object db j.operation row

    module _ (tiebreak : String → String → ℕ) (uuid : ℕ → String) (object : ObjectRow)
        (db : Db) where
      unverified-row :
          (nodes : List NodeRow) (r : Replica)
          → is_unverified cfg tiebreak uuid now cid nodes r ≡ true
          → (row : NodeRow) × ((find_node r.node_id nodes ≡ some row)
              × (node_online cfg now row ≡ true))
      unverified-row nodes r due = elim (Option-cases (find_node r.node_id nodes)) [
        | inl e ↦ ground arith
        | inr (row, e) ↦ (row, (e, ground arith))
      ]

      verify-IsNew :
          (nodes : List NodeRow) (r : Replica) (id : String) (g : ℕ)
          → nodes ≡ db.nodes
          → cfg.mode ≡ pin_only
          → is_unverified cfg tiebreak uuid now cid nodes r ≡ true
          → IsNew object db (new_job now id cid r.node_id verify g)
      verify-IsNew nodes r id g same mode due =
          let (row, (found, online)) = unverified-row nodes r due in
          let (listed, named) = found-Among r.node_id nodes row found in
          record {
            mode = mode;
            for_cid = refl;
            waits = refl;
            unleased = refl;
            row = row;
            listed = subst (Among row) same listed;
            for_node = sym named;
            online = online;
            wanted = tt;
          }

      pin-IsNew :
          (n : Node) (id : String) (g : ℕ)
          → cfg.mode ≡ pin_only
          → IsChoice
              (online_nodes cfg now db.nodes)
              (desired_nodes (replica_rows cid db.replicas))
              (λ n.
                eligible n object.size_bytes
                  ((placement_load (classify cfg now cid db)).reserved n.node_id)
                  (policy_of cfg object))
              n
          → IsNew object db (new_job now id cid n.node_id pin g)
      pin-IsNew n id g mode c =
          let (row, (listed, e)) = online_nodes-row db.nodes n c.among in
          let reserved = (placement_load (classify cfg now cid db)).reserved in
          let policy = policy_of cfg object in
          let fit =
            subst (λ n. eligible n object.size_bytes (reserved n.node_id) policy ≡ true) e c.fit in
          record {
            mode = mode;
            for_cid = refl;
            waits = refl;
            unleased = refl;
            row = row;
            listed = listed;
            for_node = ap (λ n. n.node_id) e;
            online = eligible-online (as_candidate cfg now row) object.size_bytes _ policy fit;
            wanted = (
              subst (λ n. contains (desired_nodes (replica_rows cid db.replicas)) n.node_id ≡ false)
                  e c.new,
              fit,
            );
          }

      report_health-IsNew :
          (o : ObjectRow) (left : Left)
          → Grown (IsNew object db) db.jobs left.1.jobs
          → Grown (IsNew object db) db.jobs (report_health cfg tiebreak uuid now cid o left).1.jobs
      unfolding update_object_health
      report_health-IsNew o (ok u, db') g = g
      report_health-IsNew o (error c, db') g = g
      report_health-IsNew o (exception, db') g = g

      abbrev seen : Db
      seen = classify cfg now cid db

      seen-Extends : Extends (IsNew object db) db seen
      seen-Extends = classify-Extends (IsNew object db) cfg now cid db

      -- The nodes that are picked when the marks are set.
      picks-IsChoice :
          Ensures
            (All (
              IsChoice
                (online_nodes cfg now db.nodes)
                (desired_nodes (replica_rows cid db.replicas))
                (λ n.
                  eligible n object.size_bytes
                    ((placement_load seen).reserved n.node_id)
                    (policy_of cfg object))))
            (picks_for cfg tiebreak uuid now cid object seen)
      unfolding classify placement_load
      picks-IsChoice =
          let nodes = seen-Extends.nodes in
          let current = classify-desired db in
          rw (nodes, current)
            (choose_placements-IsChoice tiebreak cid object.size_bytes
              (online_nodes cfg now db.nodes) _ _ _ (placement_load seen) (policy_of cfg object))

      act-IsNew :
          (mode : Mode) (ns : List Node)
          → cfg.mode ≡ mode
          → All
              (IsChoice
                (online_nodes cfg now db.nodes)
                (desired_nodes (replica_rows cid db.replicas))
                (λ n.
                  eligible n object.size_bytes
                    ((placement_load seen).reserved n.node_id)
                    (policy_of cfg object)))
              ns
          → Extends (IsNew object db) seen (act cfg tiebreak uuid now cid mode object ns seen).1
      act-IsNew observe ns mode h = Extends-refl _ seen
      act-IsNew pin_only ns mode h =
          act-Extends (IsNew object db) cfg now cid tiebreak uuid pin_only object ns seen (
            All-mono ns (λ n c id g. pin-IsNew n id g mode c) h,
            All-each _ _ (λ r due id g. verify-IsNew seen.nodes r id g seen-Extends.nodes mode due),
          )

      plan-IsNew :
          (picks : Outcome (List Node))
          → picks_for cfg tiebreak uuid now cid object seen ≡ picks
          → Grown
              (IsNew object db)
              db.jobs
              (plan cfg tiebreak uuid now cid object seen picks).1.jobs
      plan-IsNew (ok ns) e =
          report_health-IsNew object (act cfg tiebreak uuid now cid cfg.mode object ns seen)
            (Extends-trans _ seen-Extends
              (act-IsNew cfg.mode ns refl (picks-IsChoice.at ns e))).jobs
      plan-IsNew (error c) e = seen-Extends.jobs
      plan-IsNew exception e = seen-Extends.jobs

      -- Whether `reconcile_cid` returns or raises, each job of the tables that it leaves for an object with a
      -- reference was there before, or the mode is pin-only and the job is a new one for this cid: pending,
      -- without a lease, and for a node of the registry that is online. A new pin job is for a node that had
      -- no desired replica of the object before, and that is eligible for its size with the bytes reserved on
      -- it after the replicas are marked.
      pub reconcile_cid-IsNew :
          find_object cid db.objects ≡ some object
          → 0 < object.refcount
          → Grown (IsNew object db) db.jobs (reconcile_cid cfg tiebreak uuid now cid db).1.jobs
      unfolding reconcile_cid
      reconcile_cid-IsNew e p = rw (e, eqb_pos object.refcount p) (plan-IsNew _ refl)
