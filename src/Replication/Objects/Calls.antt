-- ===== src/Replication/Objects/Calls.antt =====
-- replication/hb_replication_db.py: registrations and releases in any order.
use node_installer.Prelude.{ℕ, String, ◌≡◌, refl, some, List, [], ◌∷◌, All}
use node_installer.Outcome.{Outcome, ok, error, exception, Ensures, Ensures-mono}
use node_installer.Replication.Rows.{Db}
use node_installer.Replication.Objects.{reference_of, register_object, release_object}
use node_installer.Replication.Objects.References.{IsConsistent}
use node_installer.Replication.Objects.Refinement.{
  Referred, Unreferred, register_object-Referred, release_object-Unreferred,
}

-- A call with a reference. What it is given besides is what `register_object` takes.
pub data Call : Type 0 where
  register : ℕ → String → ℕ → ℕ → ℕ → String → String → Call
  release : String → String → Call

abbrev after_call {ℓ} : {A : Type ℓ} → Db → Outcome (A × Db) → Db
after_call db (ok (a, db')) = db'
after_call db _ = db

-- A call that raises is rolled back.
abbrev pub apply : Call → Db → Db
apply (register now cid size n m source id) db =
    after_call db (register_object now cid size n m source id db)
apply (release cid id) db = after_call db (release_object cid id db)

abbrev pub run : List Call → Db → Db
run [] db = db
run (c ∷ cs) db = run cs (apply c db)

abbrev pub reference_in : Call → String
reference_in (register now cid size n m source id) = id
reference_in (release cid id) = id

-- The call names its reference.
abbrev pub IsNamed : Call → Type 0
IsNamed c = (id : String) × (reference_of (reference_in c) ≡ some id)

after_call-IsConsistent {ℓ} :
    {A : Type ℓ} (db : Db) (m : Outcome (A × Db))
    → IsConsistent db
    → Ensures (λ r. IsConsistent r.1) m
    → IsConsistent (after_call db m)
after_call-IsConsistent db (ok (a, db')) h k = k.at (a, db') refl
after_call-IsConsistent db (error c) h k = h
after_call-IsConsistent db exception h k = h

apply-IsConsistent : (c : Call) (db : Db) → IsNamed c → IsConsistent db → IsConsistent (apply c db)
apply-IsConsistent (register now cid size n m source reference_id) db (id, e) h =
    after_call-IsConsistent db _ h (
      Ensures-mono (λ r p. p.consistent)
        (register_object-Referred now cid size n m source reference_id id db h e))
apply-IsConsistent (release cid reference_id) db (id, e) h =
    after_call-IsConsistent db _ h
      (Ensures-mono (λ r p. p.consistent) (release_object-Unreferred cid reference_id id db h e))

-- Whatever registrations and releases with references are made, refused ones included: no reference is
-- listed twice, and the count that the row of each object keeps is the number of its references.
pub run-IsConsistent :
    (cs : List Call) (db : Db) → All IsNamed cs → IsConsistent db → IsConsistent (run cs db)
run-IsConsistent [] db named h = h
run-IsConsistent (c ∷ cs) db named h =
    run-IsConsistent cs (apply c db) named.1 (apply-IsConsistent c db named.0 h)

-- What a call that returns does to the map from references to objects.
abbrev pub Refines : Call → String → Db → Type 0
Refines (register now cid size n m source reference_id) id db =
    Ensures (λ r. Referred cid id db r.0 r.1)
      (register_object now cid size n m source reference_id db)
Refines (release cid reference_id) id db =
    Ensures (λ r. Unreferred cid id db r.0 r.1) (release_object cid reference_id db)

-- Against the map from references to objects, in tables where the counts are those of the references: a
-- registration with a reference that returns puts it into the map, for this object, and answers whether it
-- was not there before; a release with a reference that returns takes it out if it is to this object, and
-- answers the number that is left, one less than before, and otherwise changes no row. The counts stay those
-- of the references.
pub call-Refines :
    (c : Call) (id : String) (db : Db)
    → IsConsistent db
    → reference_of (reference_in c) ≡ some id
    → Refines c id db
call-Refines (register now cid size n m source reference_id) id db h e =
    register_object-Referred now cid size n m source reference_id id db h e
call-Refines (release cid reference_id) id db h e =
    release_object-Unreferred cid reference_id id db h e
