-- ===== src/Replication/Jobs.antt =====
-- replication/hb_replication_db.py: create_pin_assignment, create_verify_job, pending_jobs and
-- apply_job_report. The id that `uuid4` makes is an argument. Rows of nodes and objects are never deleted,
-- so the foreign keys are looked at where a row is inserted.
pub mod Leases
use node_installer.Prelude.{
  ℕ, suc, ◌+◌, ◌-◌, String, Bool, true, false, not, ◌&&◌, ◌||◌, Option, none, some, List, [], ◌∷◌,
  eqb, leb, ltb, ◌==◌, if◌then◌else◌, take, map, min,
}
use node_installer.Outcome.{Outcome, ok, error, exception, ◌>>=◌, ◌>>◌, raise_if}
use node_installer.Replication.Rows.{
  JobState, pending, retry, done, stale, ReplicaState, assigned, pinning, pinned, grace, failed,
  missing, Operation, pin, verify, NodeRow, ObjectRow, Replica, Job, Db, find_node, find_object,
  find_replica, update_replica, upsert_replica,
}

-- `state IN ('pending','retry')`
abbrev pub is_open : JobState → Bool
is_open pending = true
is_open retry = true
is_open _ = false

abbrev pub is_done : JobState → Bool
is_done done = true
is_done _ = false

abbrev pub is_retry : JobState → Bool
is_retry retry = true
is_retry _ = false

abbrev pub is_pin : Operation → Bool
is_pin pin = true
is_pin verify = false

-- `state IN ('assigned','pinning','pinned','grace')`
abbrev pub is_active : ReplicaState → Bool
is_active failed = false
is_active missing = false
is_active _ = true

abbrev pub is_job : String → String → Job → Bool
is_job id node j = j.job_id == id && j.node_id == node

unfoldable pub find_job : String → String → List Job → Option Job
find_job id node [] = none
find_job id node (j ∷ js) =
    let rest = find_job id node js in if is_job id node j then some j else rest

-- `UPDATE jobs SET … WHERE job_id=?`
unfoldable pub update_job : String → (Job → Job) → List Job → List Job
update_job id f [] = []
update_job id f (j ∷ js) =
    let rest = update_job id f js in if j.job_id == id then f j ∷ rest else j ∷ rest

unfoldable pub has_job : (Job → Bool) → List Job → Bool
has_job p [] = false
has_job p (j ∷ js) = p j || has_job p js

-- The primary key of `jobs`.
abbrev pub insert_job : Job → Db → Outcome Db
insert_job job db = do
  raise_if (has_job (λ j. j.job_id == job.job_id) db.jobs) "IntegrityError"
  ok (record db { jobs = job ∷ db.jobs })

abbrev pub new_job : ℕ → String → String → String → Operation → ℕ → Job
new_job now job_id cid node op generation = record {
  job_id = job_id;
  cid = cid;
  node_id = node;
  operation = op;
  generation = generation;
  state = pending;
  attempts = 0;
  next_attempt_at = now;
  lease_until = 0;
  created_at = now;
}

abbrev pub is_assigned : Option Replica → Bool
is_assigned none = false
is_assigned (some r) = r.desired && is_active r.state

abbrev pub no_row {ℓ} : {A : Type ℓ} → Option A → Bool
no_row none = true
no_row (some a) = false

module _ (now : ℕ) (job_id cid node : String) where
  -- The replica that is to be pinned.
  abbrev pub assign : String → ℕ → Db → Db
  assign class generation db = record db {
    replicas =
        upsert_replica
          (record {
            cid = cid;
            node_id = node;
            desired = true;
            state = assigned;
            class_at_assignment = class;
            assigned_at = now;
            confirmed_at = 0;
            last_verified_at = 0;
            failure_since = 0;
            generation = generation;
          })
          (λ r. record r {
            desired = true;
            state = assigned;
            class_at_assignment = class;
            assigned_at = now;
            generation = generation;
          })
          db.replicas;
  }

  -- A job for the assignment, if none is open; the assignment stays in either case.
  abbrev pub pin_job : ℕ → Db → Outcome (Option String × Db)
  pin_job generation db =
      if has_job
        (λ j.
          j.cid == cid
          && (j.node_id == node
              && (is_pin j.operation && (eqb j.generation generation && is_open j.state))))
        db.jobs
      then ok (none, db)
      else (do
        db' ← insert_job (new_job now job_id cid node pin generation) db
        ok (some job_id, db'))

  abbrev pub pin_object : String → Db → Option ObjectRow → Outcome (Option String × Db)
  pin_object class db none = error "KeyError"
  pin_object class db (some object) =
      if is_assigned (find_replica cid node db.replicas) then ok (none, db) else (do
        raise_if (no_row (find_node node db.nodes)) "IntegrityError"
        pin_job object.generation (assign class object.generation db))

  unfoldable pub create_pin_assignment : String → Db → Outcome (Option String × Db)
  create_pin_assignment class db = pin_object class db (find_object cid db.objects)

  unfoldable pub create_verify_job : ℕ → Db → Outcome (Option String × Db)
  create_verify_job generation db =
      if has_job
        (λ j. j.cid == cid && (j.node_id == node && (not (is_pin j.operation) && is_open j.state)))
        db.jobs
      then ok (none, db)
      else (do
        raise_if (no_row (find_node node db.nodes) || no_row (find_object cid db.objects))
            "IntegrityError"
        db' ← insert_job (new_job now job_id cid node verify generation) db
        ok (some job_id, db'))

-- A job that may be delivered to the node.
abbrev pub is_due : String → ℕ → Job → Bool
is_due node now j =
    j.node_id == node
    && (is_open j.state
        && (leb j.next_attempt_at now && (eqb j.lease_until 0 || leb j.lease_until now)))

-- `JOIN objects … WHERE …`
unfoldable pub due_jobs : String → ℕ → List ObjectRow → List Job → List Job
due_jobs node now objects [] = []
due_jobs node now objects (j ∷ js) =
    let rest = due_jobs node now objects js in
    if is_due node now j && not (no_row (find_object j.cid objects)) then j ∷ rest else rest

-- `ORDER BY created_at`, with equal times in the order of the table.
unfoldable pub insert_by_age : Job → List Job → List Job
insert_by_age j [] = j ∷ []
insert_by_age j (k ∷ ks) =
    if leb j.created_at k.created_at then j ∷ k ∷ ks else k ∷ insert_by_age j ks

unfoldable pub by_age : List Job → List Job
by_age [] = []
by_age (j ∷ js) = insert_by_age j (by_age js)

abbrev pub lease : ℕ → Job → Job
lease now j = record j { lease_until = now + 120 }

-- The loop that leases each of the jobs.
unfoldable pub lease_all : ℕ → List Job → List Job → List Job
lease_all now [] jobs = jobs
lease_all now (j ∷ js) jobs = lease_all now js (update_job j.job_id (lease now) jobs)

-- ReplicationDB.pending_jobs; the jobs are returned with their leases.
unfoldable pub pending_jobs : String → ℕ → ℕ → Db → List Job × Db
pending_jobs node now limit db =
    let due = take limit (by_age (due_jobs node now db.objects db.jobs)) in
    (map (lease now) due, record db { jobs = lease_all now due db.jobs })
