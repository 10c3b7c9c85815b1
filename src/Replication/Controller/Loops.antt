-- ===== src/Replication/Controller/Loops.antt =====
-- replication/hb_replication_controller.py: what the loops of a reconciliation leave and add.
use node_installer.Prelude.{
  ℕ, suc, String, ◌≡◌, inl, inr, true, Option, none, some, List, [], ◌∷◌, All, Bool-cases, length,
}
use node_installer.Outcome.{ok, error, exception, Outcome-cases}
use node_installer.Placement.{Node}
use node_installer.Replication.Rows.{
  ReplicaState, pin, verify, NodeRow, ObjectRow, Replica, Job, Db, find_node,
}
use node_installer.Replication.Jobs.{new_job, create_pin_assignment, create_verify_job}
use node_installer.Replication.Reports.{mark_replica_state}
use node_installer.Replication.Controller.{
  Settings, Mode, observe, pin_only, Left, replica_rows, observed, mark, classify_rows, classify,
  is_unverified, assign_all, verify_all, then_verify, act, or_else,
}
use node_installer.Replication.Controller.Effects.{
  Extends, Extends-refl, Extends-trans, Extends-replicas, create_pin_assignment-Extends,
  create_verify_job-Extends,
}

module _ (J : Job → Type 0) (cfg : Settings) (now : ℕ) (cid : String) where
  mark-Extends :
      (node : String) (s : Option ReplicaState) (db : Db)
      → Extends J db (mark cfg now cid node s db)
  unfolding mark_replica_state
  mark-Extends node none db = Extends-refl J db
  mark-Extends node (some s) db = Extends-replicas J db _

  classify_rows-Extends :
      (nodes : List NodeRow) (rs : List Replica) (db : Db)
      → Extends J db (classify_rows cfg now cid nodes rs db)
  unfolding classify_rows
  classify_rows-Extends nodes [] db = Extends-refl J db
  classify_rows-Extends nodes (r ∷ rs) db =
      Extends-trans J
        (mark-Extends r.node_id (observed cfg now cid (find_node r.node_id nodes) r) db)
        (classify_rows-Extends nodes rs _)

  pub classify-Extends : (db : Db) → Extends J db (classify cfg now cid db)
  unfolding classify
  classify-Extends db = classify_rows-Extends db.nodes _ db

  module _ (tiebreak : String → String → ℕ) (uuid : ℕ → String) where
    assign_all-Extends :
        (k : ℕ) (ns : List Node) (db : Db)
        → All (λ n. (id : String) (g : ℕ) → J (new_job now id cid n.node_id pin g)) ns
        → Extends J db (assign_all cfg tiebreak uuid now cid k ns db).1
    unfolding assign_all
    assign_all-Extends k [] db p = Extends-refl J db
    assign_all-Extends k (n ∷ ns) db p =
        elim (Outcome-cases
          (create_pin_assignment now (uuid k) cid n.node_id n.capacity_class db)) [
            | inl ((job, db'), e) ↦
                rw (e, assign_all)
                  (Extends-trans J
                    ((create_pin_assignment-Extends J now cid n.node_id (uuid k) n.capacity_class db
                        (p.0 (uuid k))).at
                      (job, db') e)
                    (assign_all-Extends (suc k) ns db' p.1))
            | inr (inl (c, e)) ↦ rw (e, assign_all) (Extends-refl J db)
            | inr (inr e) ↦ rw (e, assign_all) (Extends-refl J db)
          ]

    verify_all-Extends :
        (k : ℕ) (object : ObjectRow) (nodes : List NodeRow) (rs : List Replica) (db : Db)
        → All
            (λ r.
              is_unverified cfg tiebreak uuid now cid nodes r ≡ true
              → (id : String) (g : ℕ) → J (new_job now id cid r.node_id verify g))
            rs
        → Extends J db (verify_all cfg tiebreak uuid now cid k object nodes rs db).1
    unfolding verify_all
    verify_all-Extends k object nodes [] db p = Extends-refl J db
    verify_all-Extends k object nodes (r ∷ rs) db p =
        elim (Bool-cases (is_unverified cfg tiebreak uuid now cid nodes r)) [
          | inr later ↦ rw (later, verify_all) (verify_all-Extends k object nodes rs db p.1)
          | inl due ↦
              let g = or_else r.generation object.generation in
              elim (Outcome-cases (create_verify_job now (uuid k) cid r.node_id g db)) [
                | inl ((job, db'), e) ↦
                    rw (due, e, verify_all)
                      (Extends-trans J
                        ((create_verify_job-Extends J now cid r.node_id (uuid k) g db
                            (p.0 due (uuid k) g)).at
                          (job, db') e)
                        (verify_all-Extends (suc k) object nodes rs db' p.1))
                | inr (inl (c, e)) ↦ rw (due, e, verify_all) (Extends-refl J db)
                | inr (inr e) ↦ rw (due, e, verify_all) (Extends-refl J db)
              ]
        ]

    -- The jobs that the picks and the replicas allow.
    abbrev pub Allowed : List NodeRow → List Replica → List Node → Type 0
    Allowed nodes rs ns =
        All (λ n. (id : String) (g : ℕ) → J (new_job now id cid n.node_id pin g)) ns
        × All
            (λ r.
              is_unverified cfg tiebreak uuid now cid nodes r ≡ true
              → (id : String) (g : ℕ) → J (new_job now id cid r.node_id verify g))
            rs

    then_verify-Extends :
        (object : ObjectRow) (ns : List Node) (db : Db) (left : Left)
        → Allowed db.nodes (replica_rows cid db.replicas) ns
        → Extends J db left.1
        → Extends J db (then_verify cfg tiebreak uuid now cid object ns db left).1
    then_verify-Extends object ns db (ok u, db') p x =
        Extends-trans J x (verify_all-Extends (length ns) object db.nodes _ db' p.1)
    then_verify-Extends object ns db (error c, db') p x = x
    then_verify-Extends object ns db (exception, db') p x = x

    pub act-Extends :
        (mode : Mode) (object : ObjectRow) (ns : List Node) (db : Db)
        → Allowed db.nodes (replica_rows cid db.replicas) ns
        → Extends J db (act cfg tiebreak uuid now cid mode object ns db).1
    act-Extends observe object ns db p = Extends-refl J db
    act-Extends pin_only object ns db p =
        then_verify-Extends object ns db _ p (assign_all-Extends 0 ns db p.0)
