-- ===== src/Replication/Reports/Replay.antt =====
-- replication/hb_replication_db.py: a report that arrives twice.
use node_installer.Prelude.{
  ℕ, ◌+◌, ◌<◌, String, ◌≡◌, refl, ap, ◌∙◌, subst, inl, inr, true, false, not, ◌&&◌, Option, none,
  some, List, [], ◌∷◌, ◌==◌, eq_iff, arith, Option-cases, not-false,
}
use node_installer.Outcome.{ok, Ensures, Ensures-if, Ensures-ok, Ensures-error}
use node_installer.Replication.Rows.{Job, Replica, Db, find_object}
use node_installer.Replication.Jobs.{find_job, update_job, is_done}
use node_installer.Replication.Reports.{
  Report, wrong_lease, early_failure, is_success, update, finish, postpone, confirm, reverify, fail,
  outdate, transition, accept, is_current, report_on, apply_job_report,
}

abbrev mapped : (Job → Job) → Option Job → Option Job
mapped f none = none
mapped f (some j) = some (f j)

-- The update leaves the keys of a row.
abbrev Keeps : (Job → Job) → Type 0
Keeps f = (j : Job) → ((f j).job_id ≡ j.job_id) × ((f j).node_id ≡ j.node_id)

find_job-update :
    (id node : String) (f : Job → Job) (js : List Job)
    → Keeps f
    → find_job id node (update_job id f js) ≡ mapped f (find_job id node js)
unfolding find_job update_job
find_job-update id node f [] k = refl
find_job-update id node f (j ∷ js) k = ground (
  arith,
  find_job-update id node f js k,
  k j,
  eq_iff j.job_id id,
  eq_iff j.node_id node,
  eq_iff (f j).job_id id,
  eq_iff (f j).node_id node,
)

update_job-twice :
    (id : String) (f : Job → Job) (js : List Job)
    → ((j : Job) → ((f j).job_id ≡ j.job_id) × (f (f j) ≡ f j))
    → update_job id f (update_job id f js) ≡ update_job id f js
unfolding update_job
update_job-twice id f [] k = refl
update_job-twice id f (j ∷ js) k =
    ground (arith, update_job-twice id f js k, k j, eq_iff j.job_id id, eq_iff (f j).job_id id)

wrong_lease-free :
    (r : Report) (job : Job) → 0 < r.lease_until → job.lease_until ≡ 0 → wrong_lease r job ≡ true
wrong_lease-free r job h e = ground arith

not_early : (now : ℕ) (r : Report) (job : Job) → 0 < r.lease_until → early_failure now r job ≡ false
not_early now r job h = ground arith

same_current :
    (j k : Job) (db : Db)
    → j.cid ≡ k.cid
    → j.generation ≡ k.generation
    → is_current j (find_object j.cid db.objects) ≡ is_current k (find_object k.cid db.objects)
same_current j k db p q = ground (arith, ap (λ c. find_object c db.objects) p)

module _ (now later : ℕ) (node : String) (r : Report) (leased : 0 < r.lease_until) where
  -- What a second application needs to find: the job, current, and not leased.
  over :
      (db : Db) (job : Job)
      → find_job r.job_id node db.jobs ≡ some job
      → is_current job (find_object job.cid db.objects) ≡ true
      → job.lease_until ≡ 0
      → apply_job_report later node r db ≡ ok db
  unfolding apply_job_report
  over db job found current free = rw (found, current, wrong_lease-free r job leased free) refl

  module _ (db : Db) (job : Job) (found : find_job r.job_id node db.jobs ≡ some job) where
    -- After an update of the job that ends its lease, a second application changes nothing.
    update-over :
        (f : Job → Job) (g : Replica → Replica)
        → Keeps f
        → ((j : Job) → ((f j).cid ≡ j.cid) × ((f j).generation ≡ j.generation))
        → (f job).lease_until ≡ 0
        → is_current job (find_object job.cid db.objects) ≡ true
        → apply_job_report later node r (update now node r db job f g)
          ≡ ok (update now node r db job f g)
    update-over f g k c free current =
        over (update now node r db job f g) (f job)
          (find_job-update r.job_id node f db.jobs k ∙ ap (mapped f) found)
          (same_current (f job) job db (c job).0 (c job).1 ∙ current) free

    -- A second application of the report leaves the tables as they are.
    abbrev IsOver : Db → Type 0
    IsOver db' = apply_job_report later node r db' ≡ ok db'

    transition-IsOver :
        is_current job (find_object job.cid db.objects) ≡ true
        → Ensures IsOver (transition now node r db job)
    transition-IsOver current =
        Ensures-if (r.state == "pinned") _ _
          (λ _.
            Ensures-ok _ (
              update-over finish (confirm now) (λ j. (refl, refl)) (λ j. (refl, refl)) refl
                current))
          λ _.
            Ensures-if (r.state == "verified") _ _
              (λ _. Ensures-ok _ (
                update-over finish (reverify now) (λ j. (refl, refl)) (λ j. (refl, refl)) refl
                  current))
              λ _.
                Ensures-if (r.state == "failed") _ _
                  (λ _. Ensures-ok _ (
                    update-over (postpone now (job.attempts + 1)) (fail now) (λ j. (refl, refl))
                      (λ j. (refl, refl)) refl current))
                  (λ _. Ensures-error _)

    accept-IsOver :
        is_current job (find_object job.cid db.objects) ≡ true
        → Ensures IsOver (accept now node r db job)
    accept-IsOver current =
        Ensures-if (wrong_lease r job) _ _
          (λ wrong. Ensures-ok _ (unfold apply_job_report in rw (found, current, wrong) refl))
          λ right.
            Ensures-if (early_failure now r job) _ _
              (λ early. let late = not_early now r job leased in record { at = λ a e. cc })
              λ _.
                Ensures-if (is_done job.state && is_success r.state) _ _
                  (λ again. Ensures-ok _ (
                    unfold apply_job_report in
                    rw (found, current, right, not_early later r job leased, again) refl))
                  (λ _. transition-IsOver current)

    stale-IsOver :
        not (is_current job (find_object job.cid db.objects)) ≡ true
        → IsOver (record db { jobs = update_job r.job_id outdate db.jobs })
    unfolding apply_job_report
    stale-IsOver old =
        rw
          (
            find_job-update r.job_id node outdate db.jobs (λ j. (refl, refl)),
            found,
            old,
            update_job-twice r.job_id outdate db.jobs (λ j. (refl, refl)),
          )
          refl

    report-IsOver : Ensures IsOver (report_on now node r db (some job))
    report-IsOver =
        Ensures-if (not (is_current job (find_object job.cid db.objects))) _ _
          (λ old. Ensures-ok _ (stale-IsOver old)) (λ new. accept-IsOver (not-false _ new))

-- A report that names a lease is applied at most once: where it has been applied, or turned down without an
-- exception, a second application at any time leaves the tables as they are.
pub apply_job_report-twice :
    (now later : ℕ) (node : String) (r : Report) (db : Db) (db' : Db)
    → 0 < r.lease_until
    → apply_job_report now node r db ≡ ok db'
    → apply_job_report later node r db' ≡ ok db'
unfolding apply_job_report
apply_job_report-twice now later node r db db' leased e =
    elim (Option-cases (find_job r.job_id node db.jobs)) [
      | inl gone ↦
          let bad : report_on now node r db none ≡ ok db' =
            subst (λ o. report_on now node r db o ≡ ok db') gone e in
          cc
      | inr (job, found) ↦
          (report-IsOver now later node r leased db job found).at db'
            (subst (λ o. report_on now node r db o ≡ ok db') found e)
    ]
