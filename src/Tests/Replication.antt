-- ===== src/Tests/Replication.antt =====
-- Runs of the replication tables and of the controller, and the theorems about them on a small registry.
use node_installer.Prelude.{
  some, ℕ, zero, suc, String, ◌≡◌, refl, true, false, List, [], ◌∷◌, All, arith, map,
}
use node_installer.Text.{strip, lstrip, rstrip}
use node_installer.Json.{Json, bool}
use node_installer.Outcome.{error, Outcome, ok, ◌>>=◌, ◌>>◌, raise_if}
use node_installer.Placement.{
  committable, best_effort, validate, node_score, eligible, candidates, insert, sort, of_class,
  pop_domain_preferred, fill_committable, fill_extra, held_domains, node_failure_domain, choose,
  choose_placements,
}
use node_installer.Replication.Rows.{
  pending, pinned, pin, done, find_object, find_replica, upsert_replica, update_object,
  update_replica, NodeRow, ObjectRow, Replica, Job, Db,
}
use node_installer.Replication.Objects.References.{IsConsistent, IsDistinct, count_refs}
use node_installer.Replication.Objects.Calls.{
  Call, register, release, run, Refines, run-IsConsistent, call-Refines,
}
use node_installer.Replication.Jobs.{
  create_pin_assignment, create_verify_job, has_job, pending_jobs, find_job, update_job,
}
use node_installer.Replication.Jobs.Leases.{listed, pending_jobs-exclusive}
use node_installer.Replication.Reports.{
  Report, mark_replica_state, update_object_health, apply_job_report,
}
use node_installer.Replication.Reports.Replay.{apply_job_report-twice}
use node_installer.Replication.Controller.{
  authenticate_node, Settings, pin_only, reconcile_cid, health, classify, classify_rows,
  replica_rows, observed, node_online, online_nodes, desired_nodes, count, placement_load, bytes_on,
  assign_all, verify_all,
}
use node_installer.Replication.Api.{
  Configured, class_of, Post, beat, elsewhere, sync_nodes, sync_registry, controller_heartbeat,
  do_post,
}
use node_installer.Replication.Controller.Effects.{Grown}
use node_installer.Replication.Controller.Health.{IsReported, reconcile_cid-IsReported}
use node_installer.Replication.Controller.Assignments.{IsNew, reconcile_cid-IsNew}

abbrev node : String → String → ℕ → NodeRow
node id class seen = record {
  node_id = id;
  capacity_class = class;
  enabled = true;
  last_seen = seen;
  total_bytes = 1000;
  used_bytes = 100;
  stability_score = 0;
  failure_penalty = 0;
  auth_token = "";
}

abbrev object : ℕ → String → ObjectRow
object refs state = record {
  cid = "Qm";
  size_bytes = 50;
  created_at = 5;
  replication_n = 2;
  committable_m = 1;
  state = state;
  generation = 1;
  refcount = refs;
}

abbrev empty : Db
empty = record {
  nodes = node "a" committable 990 ∷ node "b" best_effort 995 ∷ [];
  objects = [];
  refs = [];
  replicas = [];
  jobs = [];
}

empty-IsConsistent : IsConsistent empty
unfolding find_object count_refs IsDistinct
empty-IsConsistent = record { counts = λ cid. refl; once = tt }

-- Two references, one of them twice, and a release of each.
abbrev calls : List Call
calls =
    register 1000 "Qm" 50 2 1 "" "r1"
    ∷ register 1001 "Qm" 50 2 1 "" "r2"
    ∷ register 1002 "Qm" 50 2 1 "" "r1"
    ∷ release "Qm" "r2"
    ∷ release "Qm" "r3"
    ∷ []

run-IsConsistent_example : IsConsistent (run calls empty)
unfolding strip lstrip rstrip
run-IsConsistent_example =
    run-IsConsistent calls empty
      (("r1", refl), (("r2", refl), (("r1", refl), (("r2", refl), (("r3", refl), tt)))))
      empty-IsConsistent

call-Refines_example : Refines (register 1000 "Qm" 50 2 1 "" "r1") "r1" empty
unfolding strip lstrip rstrip
call-Refines_example =
    call-Refines (register 1000 "Qm" 50 2 1 "" "r1") "r1" empty empty-IsConsistent refl

abbrev pin_job_a : ℕ → Job
pin_job_a leased = record {
  job_id = "j1";
  cid = "Qm";
  node_id = "a";
  operation = pin;
  generation = 1;
  state = pending;
  attempts = 0;
  next_attempt_at = 0;
  lease_until = leased;
  created_at = 10;
}

abbrev replica : String → String → Replica
replica id class = record {
  cid = "Qm";
  node_id = id;
  desired = true;
  state = pinned;
  class_at_assignment = class;
  assigned_at = 900;
  confirmed_at = 900;
  last_verified_at = 0;
  failure_since = 0;
  generation = 1;
}

abbrev waiting : Db
waiting = record empty {
  objects = object 1 "healthy" ∷ [];
  replicas = replica "a" committable ∷ [];
  jobs = pin_job_a 1120 ∷ [];
}

pending_jobs-exclusive_example :
    let (first, db') = pending_jobs "a" 1120 100 waiting in
    All (λ j. listed first j.job_id ≡ false) (pending_jobs "a" 1200 100 db').0
pending_jobs-exclusive_example =
    pending_jobs-exclusive "a" "a" 1120 1200 100 100 waiting (omega arith)

abbrev done_report : Report
done_report = record { job_id = "j1"; state = "pinned"; lease_until = 1120 }

abbrev reported : Db
reported = record waiting {
  replicas = record (replica "a" committable) { last_verified_at = 1000 } ∷ [];
  jobs = record (pin_job_a 0) { state = done } ∷ [];
}

apply_job_report-twice_example : apply_job_report 1001 "a" done_report reported ≡ ok reported
unfolding apply_job_report find_job find_object update_job update_replica
apply_job_report-twice_example =
    apply_job_report-twice 1000 1001 "a" done_report waiting reported (omega arith) refl

abbrev settings : Settings
settings = record {
  mode = pin_only;
  prefer_edge_for_extra = true;
  safety_margin_bytes = 10;
  edge_grace = 600;
  committable_grace = 300;
  node_stale = 90;
  verify_interval = 3600;
  shared_node_token = "";
}

abbrev tie : String → String → ℕ
tie cid id = 0

abbrev uuid : ℕ → String
uuid zero = "k0"
uuid (suc n) = "k1"

abbrev left : Outcome (Unit {0}) × Db
left = reconcile_cid settings tie uuid 1000 "Qm" waiting

-- A pin for the node that has none; the replica that is there is not yet to be verified.
ran : (left.0 ≡ ok tt) × (map (λ j. j.job_id) left.1.jobs ≡ "k0" ∷ "j1" ∷ [])
unfolding find_object reconcile_cid classify classify_rows replica_rows observed node_online
    online_nodes desired_nodes count placement_load bytes_on choose_placements ◌>>=◌ ◌>>◌ validate
    choose candidates eligible node_score held_domains node_failure_domain insert sort of_class
    pop_domain_preferred fill_committable fill_extra assign_all verify_all create_pin_assignment
    create_verify_job raise_if has_job find_replica upsert_replica update_replica health
    update_object_health update_object mark_replica_state
ran = (refl, refl)

reconcile_cid-IsNew_example :
    Grown (IsNew settings 1000 "Qm" (object 1 "healthy") waiting) (pin_job_a 1120 ∷ []) left.1.jobs
unfolding find_object
reconcile_cid-IsNew_example =
    reconcile_cid-IsNew settings 1000 "Qm" tie uuid (object 1 "healthy") waiting refl (omega arith)

reconcile_cid-IsReported_example : IsReported "Qm" (object 1 "healthy") left.1
unfolding find_object
reconcile_cid-IsReported_example =
    reconcile_cid-IsReported settings tie uuid 1000 "Qm" (object 1 "healthy") waiting refl
      (omega arith) ran.0

abbrev posted : String → Post → ℕ × Db
posted token p = do_post settings tie uuid 2 1 1000 "secret" token p waiting

-- Without the token nothing is done; a heartbeat beyond its capacity and a job that is not there are refused.
guarded :
    (posted "guess" (Post.release "Qm" "r1") ≡ (403, waiting))
    × ((posted "" (beat "a" 100 100 []) ≡ (403, waiting))
        × (posted "secret" elsewhere ≡ (404, waiting)))
unfolding do_post authenticate_node
guarded = (refl, (refl, refl))

over_capacity : controller_heartbeat 1000 "a" 100 111 [] waiting ≡ (error "ValueError", waiting)
unfolding controller_heartbeat
over_capacity = refl

abbrev edge_entry : Json → Configured
edge_entry enabled = record {
  node_id = "";
  name = "a";
  role = "edge";
  capacity_class = "";
  enabled = enabled;
  replication_token = "t";
}

-- The class follows the role; an entry that is disabled leaves the row as it was.
configured :
    (class_of (edge_entry (bool true)) ≡ best_effort)
    × (sync_registry (some (edge_entry (bool false) ∷ [])) empty ≡ empty)
unfolding class_of sync_registry sync_nodes strip lstrip rstrip
configured = (refl, refl)
