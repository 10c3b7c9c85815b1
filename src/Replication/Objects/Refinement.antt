-- ===== src/Replication/Objects/Refinement.antt =====
-- replication/hb_replication_db.py: register_object and release_object against a map from references to
-- objects.
use node_installer.Prelude.{
  ℕ, ◌+◌, ◌-◌, ◌≤◌, String, ◌≡◌, ◌≢◌, refl, sym, ap, ◌∙◌, subst, inl, inr, Bool, true, false,
  Option, none, some, List, [], ◌∷◌, ◌==◌, eq_iff, eq_refl, if◌then◌else◌, arith, Bool-cases,
  Option-cases, str-eq,
}
use node_installer.Text.{is_empty}
use node_installer.Outcome.{
  Ensures, Ensures-raise_if, Ensures-if, Ensures-bind, Ensures-ok, Ensures-error,
}
use node_installer.Replication.Rows.{
  ObjectRow, NodeRow, Reference, Db, find_node, find_object, find_ref, update_object,
}
use node_installer.Replication.Objects.{
  with_reference, set_count, release_row, at_source, reference_of, add_source, register_object,
  Released, released, delete_ref, release_object,
}
use node_installer.Replication.Objects.References.{
  refcount_in, count_refs, holder, cid_of, IsConsistent, IsDistinct, find_object-update,
  count_reference-Recounted, count_refs-cons, count_refs-delete, find_ref-delete,
  delete_ref-IsDistinct,
}

-- A registration puts the reference into the map; it says whether the reference was not there before.
pub record Referred (cid id : String) (db : Db) (isnew : Bool) (db' : Db) : Type 0 where
  pub consistent : IsConsistent db'
  pub before : holder id db ≡ (if isnew then none else some cid)
  pub after : (s : String) → holder s db' ≡ (if id == s then some cid else holder s db)

find_ref-cons :
    (id cid s : String) (rs : List Reference)
    → cid_of (find_ref s ((record { reference_id = id; cid = cid }) ∷ rs))
      ≡ (if id == s then some cid else cid_of (find_ref s rs))
unfolding find_ref
find_ref-cons id cid s rs = ground arith

held_view :
    (cid id : String) (db : Db)
    → holder id db ≡ some cid
    → (s : String) → holder s db ≡ (if id == s then some cid else holder s db)
held_view cid id db h s = elim (Bool-cases (id == s)) [
  | inl same ↦ rw same (subst (λ k. holder k db ≡ some cid) ((eq_iff id s).0 same) h)
  | inr other ↦ rw other refl
]

module _ (now : ℕ) (cid : String) (size n m : ℕ) (db : Db) (h : IsConsistent db) where
  with_reference-Referred :
      (id : String) (ref : Option Reference)
      → find_ref id db.refs ≡ ref
      → Ensures (λ r. Referred cid id db r.0 r.1) (with_reference now cid size n m db id ref)
  with_reference-Referred id none e = Ensures-bind _ _ λ objects made. Ensures-ok _ (record {
    consistent = record {
      counts = λ t. ground (
        arith,
        (count_reference-Recounted now cid size n m db.objects t).at objects made,
        h.counts t,
        count_refs-cons t (record { reference_id = id; cid = cid }) db.refs,
      );
      once = unfold IsDistinct in (e, h.once);
    };
    before = ap cid_of e;
    after = λ s. find_ref-cons id cid s db.refs;
  })
  with_reference-Referred id (some ref) e = elim (Option-cases (find_object cid db.objects)) [
    | inl gone ↦ rw gone (Ensures-raise_if _ _ _ λ _. Ensures-error _)
    | inr (row, found) ↦ rw found (
        Ensures-raise_if _ _ _ λ same. Ensures-ok _ (record {
          consistent = h;
          before = ap cid_of e ∙ ap some (str-eq _ _ same);
          after = held_view cid id db (ap cid_of e ∙ ap some (str-eq _ _ same));
        }))
  ]

abbrev SameRows : Db → Db → Type 0
SameRows a b = (b.objects ≡ a.objects) × (b.refs ≡ a.refs)

at_source-same :
    (now : ℕ) (cid source : String) (db : Db) (node : Option NodeRow) (object : Option ObjectRow)
    → Ensures (SameRows db) (at_source now cid source db node object)
at_source-same now cid source db none object = Ensures-error _
at_source-same now cid source db (some node) none = record { at = λ b e. cc }
at_source-same now cid source db (some node) (some object) = Ensures-ok _ (refl, refl)

-- The call for the source of an object leaves objects and references alone.
add_source-same :
    (now : ℕ) (cid source : String) (db : Db) → Ensures (SameRows db) (add_source now cid source db)
unfolding add_source
add_source-same now cid source db =
    Ensures-if (is_empty source) _ _ (λ _. Ensures-ok _ (refl, refl))
      (λ _.
        at_source-same now cid source db (find_node source db.nodes) (find_object cid db.objects))

move-IsConsistent : (a b : Db) → SameRows a b → IsConsistent a → IsConsistent b
move-IsConsistent a b same h = record {
  counts = λ t. rw (same.0, same.1) (h.counts t);
  once = rw same.1 h.once;
}

-- What a registration does. Without a reference only the count moves.
pub register_object-Referred :
    (now : ℕ) (cid : String) (size n m : ℕ) (source reference_id id : String) (db : Db)
    → IsConsistent db
    → reference_of reference_id ≡ some id
    → Ensures
        (λ r. Referred cid id db r.0 r.1)
        (register_object now cid size n m source reference_id db)
unfolding register_object
register_object-Referred now cid size n m source reference_id id db h e = rw e (
    Ensures-bind _ _ λ referred p_referred. Ensures-bind _ _ λ sourced p_sourced. Ensures-ok _ (
      let r = (with_reference-Referred now cid size n m db h id _ refl).at referred p_referred in
      let same = (add_source-same now cid source referred.1).at sourced p_sourced in
      record {
        consistent = move-IsConsistent referred.1 sourced same r.consistent;
        before = r.before;
        after = λ s. rw same.1 (r.after s);
      }))

-- A release takes the reference out of the map if it is to this object, and else changes nothing.
pub record Unreferred (cid id : String) (db : Db) (answer : Released) (db' : Db) : Type 0 where
  pub consistent : IsConsistent db'
  pub counted :
      (k : ℕ)
      → answer ≡ released k
      → (holder id db ≡ some cid)
        × ((s : String) → holder s db' ≡ (if id == s then none else holder s db))
        × (k ≡ count_refs cid db'.refs)
        × (k + 1 ≡ count_refs cid db.refs)
  pub absent : ((k : ℕ) → answer ≢ released k) → (holder id db ≢ some cid) × (db' ≡ db)

count_refs-pos :
    (cid id : String) (rs : List Reference)
    → cid_of (find_ref id rs) ≡ some cid
    → 1 ≤ count_refs cid rs
unfolding find_ref count_refs
count_refs-pos cid id [] e = cc
count_refs-pos cid id (r ∷ rs) e =
    ground (arith, count_refs-pos cid id rs, eq_refl r.cid, eq_iff r.cid cid)

erased_view :
    (id s : String) (rs : List Reference)
    → cid_of (find_ref s (delete_ref id rs)) ≡ (if id == s then none else cid_of (find_ref s rs))
erased_view id s rs = rw (find_ref-delete id s rs) (cid_of-if (id == s))
  where
    cid_of-if :
        (b : Bool)
        → cid_of (if b then none else find_ref s rs) ≡ (if b then none else cid_of (find_ref s rs))
    cid_of-if true = refl
    cid_of-if false = refl

module _ (cid id : String) (db : Db) (h : IsConsistent db) where
  -- The count of the object after the last two statements.
  uncount-counts :
      (row : ObjectRow) (ref : Reference)
      → find_object cid db.objects ≡ some row
      → find_ref id db.refs ≡ some ref
      → ref.cid ≡ cid
      → (t : String)
      → refcount_in (find_object t (update_object cid (set_count (row.refcount - 1)) db.objects))
        ≡ count_refs t (delete_ref id db.refs)
  uncount-counts row ref found listed named t =
      let counts : refcount_in (find_object cid db.objects) ≡ count_refs cid db.refs =
        h.counts cid in
      ground (
        arith,
        find_object-update (set_count (row.refcount - 1)) (λ o. refl) cid t db.objects,
        count_refs-delete id t db.refs h.once listed,
        h.counts t,
        eq_iff cid t,
        eq_iff ref.cid t,
      )

  row-count :
      (row : ObjectRow) (ref : Reference)
      → find_object cid db.objects ≡ some row
      → find_ref id db.refs ≡ some ref
      → ref.cid ≡ cid
      → (row.refcount ≡ count_refs cid (delete_ref id db.refs) + 1)
        × (row.refcount ≡ count_refs cid db.refs)
  row-count row ref found listed named =
      let counts : refcount_in (find_object cid db.objects) ≡ count_refs cid db.refs =
        h.counts cid in
      let all : row.refcount ≡ count_refs cid db.refs = sym (ap refcount_in found) ∙ counts in
      (
        all ∙ ground (arith, count_refs-delete id cid db.refs h.once listed, eq_iff ref.cid cid),
        all,
      )

  release_row-Unreferred :
      (o : Option ObjectRow) (ref : Option Reference)
      → find_object cid db.objects ≡ o
      → find_ref id db.refs ≡ ref
      → Ensures (λ r. Unreferred cid id db r.0 r.1) (release_row cid (some id) db o)
  release_row-Unreferred none ref found listed = Ensures-ok _ (record {
    consistent = h;
    counted = λ k e. cc;
    absent = λ _. (
      λ held.
          let counts : refcount_in (find_object cid db.objects) ≡ count_refs cid db.refs =
            h.counts cid in
          let none_counted : refcount_in (find_object cid db.objects) ≡ 0 = ap refcount_in found in
          absurd (omega (arith, count_refs-pos cid id db.refs held)),
      refl,
    );
  })
  release_row-Unreferred (some row) none found listed = rw listed (
      Ensures-ok _ (record {
        consistent = h;
        counted = λ k e. cc;
        absent = λ _.
            (λ held. let gone : cid_of (find_ref id db.refs) ≡ none = ap cid_of listed in cc, refl);
      }))
  release_row-Unreferred (some row) (some ref) found listed = rw listed (
      Ensures-raise_if _ _ _ λ named.
        let same = str-eq _ _ named in
        Ensures-ok _ (record {
          consistent = record {
            counts = uncount-counts row ref found listed same;
            once = delete_ref-IsDistinct id db.refs h.once;
          };
          counted = λ k e.
              let rows = row-count row ref found listed same in
              let k_is : row.refcount - 1 ≡ k = cc in
              (
                ap cid_of listed ∙ ap some same,
                λ s. erased_view id s db.refs,
                omega arith,
                omega arith,
              );
          absent = λ none_released. absurd (none_released (row.refcount - 1) refl);
        }))

pub release_object-Unreferred :
    (cid reference_id id : String) (db : Db)
    → IsConsistent db
    → reference_of reference_id ≡ some id
    → Ensures (λ r. Unreferred cid id db r.0 r.1) (release_object cid reference_id db)
unfolding release_object
release_object-Unreferred cid reference_id id db h e =
    rw e (release_row-Unreferred cid id db h _ _ refl refl)
