-- ===== src/Replication/Objects.antt =====
-- replication/hb_replication_db.py: register_object and release_object.
pub mod References
pub mod Refinement
pub mod Calls
use node_installer.Prelude.{
  ℕ, ◌+◌, ◌-◌, String, Bool, true, false, not, Option, none, some, List, [], ◌∷◌, eqb, max, ◌==◌,
  if◌then◌else◌,
}
use node_installer.Text.{is_empty, strip}
use node_installer.Outcome.{Outcome, ok, error, exception, ◌>>=◌, ◌>>◌, raise_if}
use node_installer.Replication.Rows.{
  NodeRow, ObjectRow, Reference, Replica, pinned, Db, find_node, find_object, find_ref,
  update_object, upsert_replica,
}

-- `str(reference_id or "").strip() or None`, where None is the empty text.
abbrev pub reference_of : String → Option String
reference_of id = if is_empty (strip id) then none else some (strip id)

abbrev pub one_more : ℕ → ℕ → ObjectRow → ObjectRow
one_more n m o = record o {
  refcount = o.refcount + 1;
  replication_n = max o.replication_n n;
  committable_m = max o.committable_m m;
}

abbrev pub counted :
    String → ℕ → ℕ → ℕ → List ObjectRow → Option ObjectRow → ℕ → Outcome (List ObjectRow)
counted cid size n m objects none now = ok (
    (record {
      cid = cid;
      size_bytes = size;
      created_at = now;
      replication_n = n;
      committable_m = m;
      state = "pending";
      generation = 1;
      refcount = 1;
    })
    ∷ objects)
counted cid size n m objects (some row) now = do
  raise_if (not (eqb row.size_bytes size)) "ValueError"
  ok (update_object cid (one_more n m) objects)

-- One reference more: the row of the object is updated or inserted.
unfoldable pub count_reference : ℕ → String → ℕ → ℕ → ℕ → List ObjectRow → Outcome (List ObjectRow)
count_reference now cid size n m objects =
    counted cid size n m objects (find_object cid objects) now

abbrev pub existing : String → Db → Reference → Option ObjectRow → Outcome (Bool × Db)
existing cid db ref none = do raise_if (not (ref.cid == cid)) "ValueError"; error "RuntimeError"
existing cid db ref (some row) = do raise_if (not (ref.cid == cid)) "ValueError"; ok (false, db)

module _ (now : ℕ) (cid : String) (size n m : ℕ) (db : Db) where
  abbrev pub with_reference : String → Option Reference → Outcome (Bool × Db)
  with_reference id (some ref) = existing cid db ref (find_object cid db.objects)
  with_reference id none = do
    objects ← count_reference now cid size n m db.objects
    ok (
      true,
      record db { objects = objects; refs = (record { reference_id = id; cid = cid }) ∷ db.refs },
    )

  -- Whether the reference is new, and the tables with it.
  abbrev pub refer : Option String → Outcome (Bool × Db)
  refer (some id) = with_reference id (find_ref id db.refs)
  refer none = do
    objects ← count_reference now cid size n m db.objects
    ok (true, record db { objects = objects })

-- The replica that the source of the object holds.
abbrev pub at_source : ℕ → String → String → Db → Option NodeRow → Option ObjectRow → Outcome Db
at_source now cid source db none object = error "KeyError"
at_source now cid source db (some node) none = exception
at_source now cid source db (some node) (some object) = ok (record db {
  replicas =
      upsert_replica
        (record {
          cid = cid;
          node_id = source;
          desired = true;
          state = pinned;
          class_at_assignment = node.capacity_class;
          assigned_at = now;
          confirmed_at = now;
          last_verified_at = now;
          failure_since = 0;
          generation = object.generation;
        })
        (λ r. record r {
          desired = true;
          state = pinned;
          confirmed_at = now;
          last_verified_at = now;
          generation = object.generation;
        })
        db.replicas;
})

unfoldable pub add_source : ℕ → String → String → Db → Outcome Db
add_source now cid source db =
    if is_empty source
    then ok db
    else at_source now cid source db (find_node source db.nodes) (find_object cid db.objects)

-- ReplicationDB.register_object; what it returns is whether the reference is new.
unfoldable pub register_object : ℕ → String → ℕ → ℕ → ℕ → String → String → Db → Outcome (Bool × Db)
register_object now cid size n m source reference_id db = do
  referred ← refer now cid size n m db (reference_of reference_id)
  sourced ← add_source now cid source referred.1
  ok (referred.0, sourced)

pub data Released : Type 0 where
  not_found : Released
  unknown_reference : ℕ → Released
  released : ℕ → Released

unfoldable pub delete_ref : String → List Reference → List Reference
delete_ref id [] = []
delete_ref id (r ∷ rs) =
    let rest = delete_ref id rs in if r.reference_id == id then rest else r ∷ rest

abbrev pub set_count : ℕ → ObjectRow → ObjectRow
set_count k o = record o { refcount = k }

-- The last two statements: one reference less in the count.
abbrev pub uncount : String → ObjectRow → Db → Outcome (Released × Db)
uncount cid row db = ok (
  released (row.refcount - 1),
  record db { objects = update_object cid (set_count (row.refcount - 1)) db.objects },
)

abbrev pub release_ref :
    String → String → ObjectRow → Db → Option Reference → Outcome (Released × Db)
release_ref cid id row db none = ok (unknown_reference row.refcount, db)
release_ref cid id row db (some ref) = do
  raise_if (not (ref.cid == cid)) "ValueError"
  uncount cid row (record db { refs = delete_ref id db.refs })

abbrev pub release_row : String → Option String → Db → Option ObjectRow → Outcome (Released × Db)
release_row cid reference db none = ok (not_found, db)
release_row cid none db (some row) = uncount cid row db
release_row cid (some id) db (some row) = release_ref cid id row db (find_ref id db.refs)

-- ReplicationDB.release_object
unfoldable pub release_object : String → String → Db → Outcome (Released × Db)
release_object cid reference_id db =
    release_row cid (reference_of reference_id) db (find_object cid db.objects)
