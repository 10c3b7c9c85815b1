-- ===== src/Replication/Controller/Health.antt =====
-- replication/hb_replication_controller.py: the state of an object that reconcile_cid reports.
use node_installer.Prelude.{
  eqb_pos, ℕ, ◌<◌, ◌≤◌, String, ◌≡◌, refl, ◌∙◌, ap, ◌↔◌, some, List, All-each, eq_iff, eq_refl,
  arith,
}
use node_installer.Outcome.{Outcome, ok, error, exception}
use node_installer.Placement.{Node}
use node_installer.Replication.Rows.{ObjectRow, Replica, Db, find_object, update_object}
use node_installer.Replication.Reports.{update_object_health}
use node_installer.Replication.Controller.{
  Settings, Left, replica_rows, classify, act, health, report_health, plan, picks_for,
  reconcile_cid, confirmed_total, confirmed_committable,
}
use node_installer.Replication.Objects.References.{find_object-update}
use node_installer.Replication.Controller.Loops.{classify-Extends, act-Extends}

-- The row of the object is as it was but for its state, which says whether the pinned desired replicas of
-- the tables meet both targets, and if not, which one they miss first.
pub record IsReported (cid : String) (object : ObjectRow) (db : Db) : Type 0 where
  pub row : ObjectRow
  pub found : find_object cid db.objects ≡ some row
  pub kept : row ≡ record object { state = row.state }
  pub healthy : (row.state ≡ "healthy") ↔ (
      object.committable_m ≤ confirmed_committable (replica_rows cid db.replicas)
      × object.replication_n ≤ confirmed_total (replica_rows cid db.replicas))
  pub short_committable :
      (row.state ≡ "degraded_committable")
      ↔ (confirmed_committable (replica_rows cid db.replicas) < object.committable_m)

health-healthy :
    (object : ObjectRow) (rs : List Replica)
    → (health object rs ≡ "healthy") ↔ (
        object.committable_m ≤ confirmed_committable rs × object.replication_n ≤ confirmed_total rs)
unfolding health
health-healthy object rs =
    ground (arith, eq_iff "healthy" "degraded_committable", eq_iff "healthy" "degraded_total")

health-short :
    (object : ObjectRow) (rs : List Replica)
    → (health object rs ≡ "degraded_committable")
      ↔ (confirmed_committable rs < object.committable_m)
unfolding health
health-short object rs =
    ground (
      arith,
      eq_iff "healthy" "degraded_committable",
      eq_iff "degraded_committable" "degraded_total",
    )

module _ (cfg : Settings) (tiebreak : String → String → ℕ) (uuid : ℕ → String) (now : ℕ)
    (cid : String) where
  -- The table of the objects after the last lines.
  updated :
      (s : String) (os : List ObjectRow) (o : ObjectRow)
      → find_object cid os ≡ some o
      → find_object cid (update_object cid (λ o. record o { state = s }) os)
        ≡ some (record o { state = s })
  updated s os o e =
      rw (find_object-update (λ o. record o { state = s }) (λ a. refl) cid cid os, eq_refl cid, e)
        refl

  report_health-IsReported :
      (object : ObjectRow) (left : Left)
      → find_object cid left.1.objects ≡ some object
      → (report_health cfg tiebreak uuid now cid object left).0 ≡ ok tt
      → IsReported cid object (report_health cfg tiebreak uuid now cid object left).1
  unfolding update_object_health
  report_health-IsReported object (ok u, db) e h =
      let rows = replica_rows cid db.replicas in
      record {
        row = record object { state = health object rows };
        found = updated (health object rows) db.objects object e;
        kept = refl;
        healthy = health-healthy object rows;
        short_committable = health-short object rows;
      }
  report_health-IsReported object (error c, db) e h = cc
  report_health-IsReported object (exception, db) e h = cc

  plan-IsReported :
      (object : ObjectRow) (db : Db) (picks : Outcome (List Node))
      → find_object cid db.objects ≡ some object
      → (plan cfg tiebreak uuid now cid object db picks).0 ≡ ok tt
      → IsReported cid object (plan cfg tiebreak uuid now cid object db picks).1
  plan-IsReported object db (ok ns) e h =
      let left = act cfg tiebreak uuid now cid cfg.mode object ns db in
      let x =
        act-Extends (λ j. Unit) cfg now cid tiebreak uuid cfg.mode object ns db
          (
            All-each _ ns (λ n id g. tt),
            All-each _ (replica_rows cid db.replicas) (λ r due id g. tt),
          ) in
      report_health-IsReported object left (ap (find_object cid) x.objects ∙ e) h
  plan-IsReported object db (error c) e h = cc
  plan-IsReported object db exception e h = cc

  -- When `reconcile_cid` returns for an object with a reference, the row of the object is the one before
  -- but for its state. The state is "healthy" exactly when the desired replicas that are pinned in the
  -- tables after the call are at least `replication_n`, of which at least `committable_m` are
  -- committable, and "degraded_committable" exactly when fewer than `committable_m` are committable.
  pub reconcile_cid-IsReported :
      (object : ObjectRow) (db : Db)
      → find_object cid db.objects ≡ some object
      → 0 < object.refcount
      → (reconcile_cid cfg tiebreak uuid now cid db).0 ≡ ok tt
      → IsReported cid object (reconcile_cid cfg tiebreak uuid now cid db).1
  unfolding reconcile_cid
  reconcile_cid-IsReported object db e p =
      let seen = classify cfg now cid db in
      let known = ap (find_object cid) (classify-Extends (λ j. Unit) cfg now cid db).objects ∙ e in
      rw (e, eqb_pos object.refcount p)
        (plan-IsReported object seen (picks_for cfg tiebreak uuid now cid object seen) known)
