-- ===== src/Replication/Controller/Effects.antt =====
-- replication/hb_replication_controller.py: what the steps of a reconciliation leave and add.
use node_installer.Prelude.{
  Among, eqb, not, ℕ, String, ◌≡◌, refl, sym, ◌∙◌, subst, ◌⊎◌, inl, inr, ◌&&◌, Option, List, [],
  ◌∷◌, ◌==◌, All, Option-cases,
}
use node_installer.Outcome.{
  Ensures, Ensures-bind, Ensures-if, Ensures-raise_if, Ensures-ok, Ensures-error,
}
use node_installer.Replication.Rows.{pin, verify, Replica, Job, Db, find_object, find_replica}
use node_installer.Replication.Jobs.{
  has_job, insert_job, new_job, is_pin, is_open, is_assigned, assign, create_pin_assignment,
  create_verify_job,
}

-- The jobs are those of the table before, and jobs of the kind `J`.
abbrev pub Grown : (Job → Type 0) → List Job → List Job → Type 0
Grown J old new = All (λ j. Among j old ⊎ J j) new

-- The tables after a step: the nodes, objects and references as before, and the jobs as `Grown` says.
pub record Extends (J : Job → Type 0) (db db' : Db) : Type 0 where
  pub nodes : db'.nodes ≡ db.nodes
  pub objects : db'.objects ≡ db.objects
  pub refs : db'.refs ≡ db.refs
  pub jobs : Grown J db.jobs db'.jobs

module _ (J : Job → Type 0) where
  Grown-mono :
      (old mid new : List Job)
      → ((j : Job) → Among j mid → Among j old ⊎ J j)
      → Grown J mid new
      → Grown J old new
  Grown-mono old mid [] h g = tt
  Grown-mono old mid (j ∷ js) h (inl p, g) = (h j p, Grown-mono old mid js h g)
  Grown-mono old mid (j ∷ js) h (inr q, g) = (inr q, Grown-mono old mid js h g)

  Grown-at : (old mid : List Job) → Grown J old mid → (j : Job) → Among j mid → Among j old ⊎ J j
  Grown-at old [] g j p = elim p [ ]
  Grown-at old (k ∷ ks) (g, gs) j (inl e) = subst (λ i. Among i old ⊎ J i) (sym e) g
  Grown-at old (k ∷ ks) (g, gs) j (inr p) = Grown-at old ks gs j p

  Grown-part : (old js : List Job) → ((j : Job) → Among j js → Among j old) → Grown J old js
  Grown-part old [] h = tt
  Grown-part old (j ∷ js) h = (inl (h j (inl refl)), Grown-part old js (λ k p. h k (inr p)))

  pub Grown-refl : (js : List Job) → Grown J js js
  Grown-refl js = Grown-part js js (λ j p. p)

  pub Grown-add : (j : Job) (js : List Job) → J j → Grown J js (j ∷ js)
  Grown-add j js p = (inr p, Grown-refl js)

  pub Extends-trans : {a b c : Db} → Extends J a b → Extends J b c → Extends J a c
  Extends-trans {a} {b} {c} f g = record {
    nodes = g.nodes ∙ f.nodes;
    objects = g.objects ∙ f.objects;
    refs = g.refs ∙ f.refs;
    jobs = Grown-mono a.jobs b.jobs c.jobs (Grown-at a.jobs b.jobs f.jobs) g.jobs;
  }

  -- A step that writes replicas only.
  pub Extends-replicas : (db : Db) (rs : List Replica) → Extends J db (record db { replicas = rs })
  Extends-replicas db rs = record {
    nodes = refl;
    objects = refl;
    refs = refl;
    jobs = Grown-refl db.jobs;
  }

  pub Extends-refl : (db : Db) → Extends J db db
  Extends-refl db = Extends-replicas db db.replicas

  insert_job-Extends : (job : Job) (db : Db) → J job → Ensures (Extends J db) (insert_job job db)
  insert_job-Extends job db p = Ensures-raise_if _ _ _ λ h.
      Ensures-ok _
        (record { nodes = refl; objects = refl; refs = refl; jobs = Grown-add job db.jobs p })

  -- What a call that returns a job id or none leaves.
  abbrev Made : Db → Option String × Db → Type 0
  Made db p = Extends J db p.1

  module _ (now : ℕ) (cid node : String) where
    pub create_pin_assignment-Extends :
        (id class : String) (db : Db)
        → ((g : ℕ) → J (new_job now id cid node pin g))
        → Ensures (Made db) (create_pin_assignment now id cid node class db)
    unfolding create_pin_assignment
    create_pin_assignment-Extends id class db p = elim (Option-cases (find_object cid db.objects)) [
      | inl e ↦ rw e (Ensures-error _)
      | inr (object, e) ↦
          let g = object.generation in
          let seen = assign now id cid node class g db in
          rw e (
            Ensures-if (is_assigned (find_replica cid node db.replicas)) _ _
              (λ h. Ensures-ok _ (Extends-refl db))
              (λ h. Ensures-raise_if _ _ _ λ known.
                Ensures-if
                  (has_job
                    (λ j.
                      j.cid == cid
                      && (j.node_id == node
                          && (is_pin j.operation && (eqb j.generation g && is_open j.state))))
                    db.jobs)
                  _ _ (λ has. Ensures-ok _ (Extends-replicas db seen.replicas))
                  (λ new. Ensures-bind _ _ λ db' made. Ensures-ok _ (
                    Extends-trans (Extends-replicas db seen.replicas)
                      ((insert_job-Extends _ seen (p g)).at db' made)))))
    ]

    pub create_verify_job-Extends :
        (id : String) (g : ℕ) (db : Db)
        → J (new_job now id cid node verify g)
        → Ensures (Made db) (create_verify_job now id cid node g db)
    unfolding create_verify_job
    create_verify_job-Extends id g db p =
        Ensures-if
          (has_job
            (λ j.
              j.cid == cid && (j.node_id == node && (not (is_pin j.operation) && is_open j.state)))
            db.jobs)
          _ _ (λ has. Ensures-ok _ (Extends-refl db))
          (λ new. Ensures-raise_if _ _ _ λ known.
            Ensures-bind _ _ λ db' made. Ensures-ok _ ((insert_job-Extends _ db p).at db' made))
