-- ===== src/Replication/Reports.antt =====
-- replication/hb_replication_db.py: apply_job_report, mark_replica_state, update_object_health and heartbeat.
pub mod Replay
use node_installer.Prelude.{
  ℕ, zero, suc, ◌+◌, ◌-◌, String, Bool, true, false, not, ◌&&◌, ◌||◌, Option, none, some, List, [],
  ◌∷◌, eqb, ltb, min, ◌==◌, if◌then◌else◌,
}
use node_installer.Outcome.{Outcome, ok, error, exception}
use node_installer.Replication.Rows.{
  pending, retry, done, stale, ReplicaState, pinned, grace, failed, missing, NodeRow, ObjectRow,
  Replica, Job, Db, find_node, find_object, update_node, update_object, update_replica,
}
use node_installer.Replication.Jobs.{find_job, update_job, is_done, is_retry}

-- The report of an agent; `lease_until` is 0 if it names none, and no negative number.
pub record Report : Type 0 where
  pub job_id : String
  pub state : String
  pub lease_until : ℕ

abbrev nth : List ℕ → ℕ → ℕ
nth [] i = 0
nth (x ∷ xs) zero = x
nth (x ∷ xs) (suc i) = nth xs i

-- `delays[min(attempts - 1, len(delays) - 1)]`
abbrev pub backoff : ℕ → ℕ
backoff attempts = nth (30 ∷ 60 ∷ 120 ∷ 300 ∷ 900 ∷ 1800 ∷ []) (min (attempts - 1) 5)

-- The report is not for the delivery that the job is leased for.
abbrev pub wrong_lease : Report → Job → Bool
wrong_lease r job =
    if not (eqb r.lease_until 0)
    then eqb job.lease_until 0 || not (eqb r.lease_until job.lease_until)
    else not (eqb job.lease_until 0)

-- A second failure without a lease, before the retry is due.
abbrev pub early_failure : ℕ → Report → Job → Bool
early_failure now r job =
    r.state == "failed"
    && (eqb r.lease_until 0 && (is_retry job.state && ltb now job.next_attempt_at))

abbrev pub is_success : String → Bool
is_success s = s == "pinned" || s == "verified"

abbrev pub outdate : Job → Job
outdate j = record j { state = stale }

abbrev pub finish : Job → Job
finish j = record j { state = done; lease_until = 0 }

abbrev pub postpone : ℕ → ℕ → Job → Job
postpone now attempts j = record j {
  state = retry;
  attempts = attempts;
  next_attempt_at = now + backoff attempts;
  lease_until = 0;
}

abbrev pub confirm : ℕ → Replica → Replica
confirm now r = record r {
  state = pinned;
  confirmed_at = if eqb r.confirmed_at 0 then now else r.confirmed_at;
  last_verified_at = now;
  failure_since = 0;
}

abbrev pub reverify : ℕ → Replica → Replica
reverify now r = record r { state = pinned; last_verified_at = now; failure_since = 0 }

abbrev pub fail : ℕ → Replica → Replica
fail now r = record r {
  state = failed;
  failure_since = if eqb r.failure_since 0 then now else r.failure_since;
}

-- The generation of the job is that of its object.
abbrev pub is_current : Job → Option ObjectRow → Bool
is_current job none = false
is_current job (some object) = eqb job.generation object.generation

module _ (now : ℕ) (node : String) (r : Report) (db : Db) where
  abbrev pub update : Job → (Job → Job) → (Replica → Replica) → Db
  update job f g = record db {
    jobs = update_job r.job_id f db.jobs;
    replicas = update_replica job.cid node g db.replicas;
  }

  -- The branches on the state that is reported.
  abbrev pub transition : Job → Outcome Db
  transition job =
      if r.state == "pinned"
      then ok (update job finish (confirm now))
      else if r.state == "verified"
      then ok (update job finish (reverify now))
      else if r.state == "failed"
      then ok (update job (postpone now (job.attempts + 1)) (fail now))
      else error "ValueError"

  abbrev pub accept : Job → Outcome Db
  accept job =
      if wrong_lease r job
      then ok db
      else if early_failure now r job
      then ok db
      else if is_done job.state && is_success r.state
      then ok db
      else transition job

  abbrev pub report_on : Option Job → Outcome Db
  report_on none = error "KeyError"
  report_on (some job) =
      if not (is_current job (find_object job.cid db.objects))
      then ok (record db { jobs = update_job r.job_id outdate db.jobs })
      else accept job

  -- ReplicationDB.apply_job_report
  unfoldable pub apply_job_report : Outcome Db
  apply_job_report = report_on (find_job r.job_id node db.jobs)

abbrev is_lost : ReplicaState → Bool
is_lost missing = true
is_lost failed = true
is_lost grace = true
is_lost _ = false

abbrev is_pinned : ReplicaState → Bool
is_pinned pinned = true
is_pinned _ = false

-- ReplicationDB.mark_replica_state
unfoldable pub mark_replica_state : ℕ → String → String → ReplicaState → Db → Db
mark_replica_state now cid node state db = record db {
  replicas =
      update_replica cid node
        (λ r. record r {
          state = state;
          failure_since =
              if is_lost state && eqb r.failure_since 0
              then now
              else if is_pinned state
              then 0
              else r.failure_since;
        })
        db.replicas;
}

-- ReplicationDB.update_object_health
unfoldable pub update_object_health : String → String → Db → Db
update_object_health cid state db = record db {
  objects = update_object cid (λ o. record o { state = state }) db.objects;
}

abbrev beaten : ℕ → String → ℕ → ℕ → Db → Option NodeRow → Outcome Db
beaten now node total used db none = error "KeyError"
beaten now node total used db (some row) = ok (record db {
  nodes =
      update_node node (λ n. record n { last_seen = now; total_bytes = total; used_bytes = used })
        db.nodes;
})

-- ReplicationDB.heartbeat; the numbers of bytes are no negative numbers.
unfoldable pub heartbeat : ℕ → String → ℕ → ℕ → Db → Outcome Db
heartbeat now node total used db = beaten now node total used db (find_node node db.nodes)
