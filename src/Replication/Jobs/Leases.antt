-- ===== src/Replication/Jobs/Leases.antt =====
-- replication/hb_replication_db.py: jobs that are leased and polled for again.
use node_installer.Prelude.{
  ℕ, zero, suc, ◌+◌, ◌<◌, String, ◌≡◌, refl, sym, ◌∙◌, subst, inl, inr, Bool, true, false, not,
  ◌&&◌, ◌||◌, List, [], ◌∷◌, leb, ◌==◌, eq_iff, take, map, arith, Bool-cases, All,
}
use mathlib.Core.Path.{fun_ext}
use node_installer.Replication.Rows.{ObjectRow, Job, Db, find_object}
use node_installer.Replication.Jobs.{
  update_job, is_due, due_jobs, insert_by_age, by_age, lease, lease_all, pending_jobs, no_row,
}

-- A job with this id is among the jobs.
unfoldable pub listed : List Job → String → Bool
listed [] s = false
listed (j ∷ js) s = j.job_id == s || listed js s

and-left : (a b : Bool) → (a && b) ≡ true → a ≡ true
and-left a b h = ground arith

or-first : (a b : Bool) → b ≡ false → (a || b) ≡ true → a ≡ true
or-first a b h e = ground arith

or_false : (a : Bool) → (a || false) ≡ a
or_false a = ground arith

or_assoc : (a b c : Bool) → (a || (b || c)) ≡ ((a || b) || c)
or_assoc a b c = ground arith

eq-flip : (a b : String) → (a == b) ≡ false → (b == a) ≡ false
eq-flip a b h = ground (arith, eq_iff a b, eq_iff b a)

module _ (P : Job → Type 0) where
  take-All : (n : ℕ) (js : List Job) → All P js → All P (take n js)
  take-All zero js h = tt
  take-All (suc n) [] h = tt
  take-All (suc n) (j ∷ js) h = (h.0, take-All n js h.1)

  insert_by_age-All : (j : Job) (js : List Job) → P j → All P js → All P (insert_by_age j js)
  unfolding insert_by_age
  insert_by_age-All j [] p h = (p, tt)
  insert_by_age-All j (k ∷ ks) p h = elim (Bool-cases (leb j.created_at k.created_at)) [
    | inl e ↦ rw e (p, h)
    | inr e ↦ rw e (h.0, insert_by_age-All j ks p h.1)
  ]

  by_age-All : (js : List Job) → All P js → All P (by_age js)
  unfolding by_age
  by_age-All [] h = tt
  by_age-All (j ∷ js) h = insert_by_age-All j (by_age js) h.0 (by_age-All js h.1)

  -- What every job of the table that is due satisfies, every job that is delivered satisfies.
  due_jobs-All :
      (node : String) (now : ℕ) (objects : List ObjectRow) (js : List Job)
      → All (λ j. is_due node now j ≡ true → P j) js
      → All P (due_jobs node now objects js)
  unfolding due_jobs
  due_jobs-All node now objects [] h = tt
  due_jobs-All node now objects (j ∷ js) h =
      let rest = due_jobs-All node now objects js h.1 in
      elim (Bool-cases (is_due node now j && not (no_row (find_object j.cid objects)))) [
        | inl e ↦ rw e (h.0 (and-left _ _ e), rest)
        | inr e ↦ rw e rest
      ]

module _ (now : ℕ) where
  -- The rows whose id passes the test carry the lease.
  abbrev Carry : (String → Bool) → List Job → Type 0
  Carry p = All (λ j. p j.job_id ≡ true → j.lease_until ≡ now + 120)

  -- The lease of one more job.
  lease-Carry :
      (p : String → Bool) (id : String) (js : List Job)
      → Carry p js
      → Carry (λ s. p s || id == s) (update_job id (lease now) js)
  unfolding update_job
  lease-Carry p id [] h = tt
  lease-Carry p id (j ∷ js) h =
      let rest = lease-Carry p id js h.1 in
      elim (Bool-cases (j.job_id == id)) [
        | inl e ↦ rw e (λ _. refl, rest)
        | inr e ↦
            rw e (λ q. h.0 (or-first (p j.job_id) (id == j.job_id) (eq-flip j.job_id id e) q), rest)
      ]

  Carry-mono :
      (p q : String → Bool) (js : List Job) → ((s : String) → q s ≡ p s) → Carry p js → Carry q js
  Carry-mono p q [] e h = tt
  Carry-mono p q (j ∷ js) e h = (λ k. h.0 (sym (e j.job_id) ∙ k), Carry-mono p q js e h.1)

  lease_all-Carry :
      (p : String → Bool) (ks js : List Job)
      → Carry p js
      → Carry (λ s. p s || listed ks s) (lease_all now ks js)
  unfolding lease_all listed
  lease_all-Carry p [] js h = Carry-mono p _ js (λ s. or_false (p s)) h
  lease_all-Carry p (k ∷ ks) js h =
      Carry-mono (λ s. (p s || k.job_id == s) || listed ks s) _
        (lease_all now ks (update_job k.job_id (lease now) js))
        (λ s. or_assoc (p s) (k.job_id == s) (listed ks s))
        (lease_all-Carry (λ s. p s || k.job_id == s) ks (update_job k.job_id (lease now) js)
          (lease-Carry p k.job_id js h))

  listed-map : (ks : List Job) (s : String) → listed (map (lease now) ks) s ≡ listed ks s
  unfolding listed
  listed-map [] s = refl
  listed-map (k ∷ ks) s = rw (listed-map ks s) refl

-- A row that carries a lease is not due before the lease is over.
not_due :
    (node : String) (now later : ℕ) (j : Job)
    → later < now + 120
    → j.lease_until ≡ now + 120
    → is_due node later j ≡ false
not_due node now later j h e = ground arith

Carry-none : (now : ℕ) (js : List Job) → Carry now (λ s. false) js
Carry-none now [] = tt
Carry-none now (j ∷ js) = (λ e. cc, Carry-none now js)

map-All :
    (now : ℕ) (P : String → Type 0) (js : List Job)
    → All (λ j. P j.job_id) js
    → All (λ j. P j.job_id) (map (lease now) js)
map-All now P [] h = tt
map-All now P (j ∷ js) h = (h.0, map-All now P js h.1)

none_due :
    (node : String) (now later : ℕ) (ks js : List Job)
    → later < now + 120
    → Carry now (listed ks) js
    → All (λ j. is_due node later j ≡ true → listed ks j.job_id ≡ false) js
none_due node now later ks [] h c = tt
none_due node now later ks (j ∷ js) h c = (
  λ due. elim (Bool-cases (listed ks j.job_id)) [
    | inr e ↦ e
    | inl e ↦ let late = not_due node now later j h (c.0 e) in cc
  ],
  none_due node now later ks js h c.1,
)

none_due_map :
    (node : String) (now later : ℕ) (ks js : List Job)
    → later < now + 120
    → Carry now (listed ks) js
    → All (λ j. is_due node later j ≡ true → listed (map (lease now) ks) j.job_id ≡ false) js
none_due_map node now later ks js h c =
    subst (λ f. All (λ j. is_due node later j ≡ true → f j.job_id ≡ false) js)
      (fun_ext (λ s. sym (listed-map now ks s))) (none_due node now later ks js h c)

-- Two polls, of any nodes, with less than 120 seconds between them: no job that the first poll delivered is
-- delivered by the second, if nothing happens in between.
pub pending_jobs-exclusive :
    (node other : String) (now later limit most : ℕ) (db : Db)
    → later < now + 120
    → let (first, db') = pending_jobs node now limit db in
      All (λ j. listed first j.job_id ≡ false) (pending_jobs other later most db').0
unfolding pending_jobs
pending_jobs-exclusive node other now later limit most db h =
    let due = take limit (by_age (due_jobs node now db.objects db.jobs)) in
    let carry =
      Carry-mono now (λ s. false || listed due s) (listed due) (lease_all now due db.jobs)
        (λ s. refl) (lease_all-Carry now (λ s. false) due db.jobs (Carry-none now db.jobs)) in
    map-All later (λ s. listed (map (lease now) due) s ≡ false) _
      (take-All _ most _ (
        by_age-All _ _ (
          due_jobs-All _ other later db.objects (lease_all now due db.jobs)
            (none_due_map other now later due (lease_all now due db.jobs) h carry))))
