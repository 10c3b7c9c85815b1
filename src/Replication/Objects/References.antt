-- ===== src/Replication/Objects/References.antt =====
-- replication/hb_replication_db.py: references and the count of them that each object keeps.
use node_installer.Prelude.{
  ℕ, suc, ◌+◌, String, ◌≡◌, refl, sym, subst, inl, inr, Option, none, some, List, [], ◌∷◌, ◌==◌,
  eq_iff, if◌then◌else◌, arith, Bool-cases,
}
use node_installer.Outcome.{Ensures, Ensures-raise_if, Ensures-ok}
use node_installer.Replication.Rows.{ObjectRow, Reference, Db, find_object, find_ref, update_object}
use node_installer.Replication.Objects.{counted, one_more, count_reference, delete_ref}

abbrev pub refcount_in : Option ObjectRow → ℕ
refcount_in none = 0
refcount_in (some o) = o.refcount

-- The count that the row of an object keeps; 0 without a row.
abbrev pub refcount : String → Db → ℕ
refcount cid db = refcount_in (find_object cid db.objects)

-- The number of references to an object.
unfoldable pub count_refs : String → List Reference → ℕ
count_refs cid [] = 0
count_refs cid (r ∷ rs) = let rest = count_refs cid rs in if r.cid == cid then suc rest else rest

abbrev pub cid_of : Option Reference → Option String
cid_of none = none
cid_of (some r) = some r.cid

-- The object that a reference is to.
abbrev pub holder : String → Db → Option String
holder id db = cid_of (find_ref id db.refs)

-- No reference is listed twice.
unfoldable pub IsDistinct : List Reference → Type 0
IsDistinct [] = Unit
IsDistinct (r ∷ rs) = (find_ref r.reference_id rs ≡ none) × IsDistinct rs

-- Each count is that of the references, and no reference is listed twice.
pub record IsConsistent (db : Db) : Type 0 where
  pub counts : (cid : String) → refcount cid db ≡ count_refs cid db.refs
  pub once : IsDistinct db.refs

abbrev pub mapped : (ObjectRow → ObjectRow) → Option ObjectRow → Option ObjectRow
mapped f none = none
mapped f (some o) = some (f o)

pub find_object-update :
    (f : ObjectRow → ObjectRow)
    → ((o : ObjectRow) → (f o).cid ≡ o.cid)
    → (cid t : String) (os : List ObjectRow)
    → find_object t (update_object cid f os)
      ≡ (if cid == t then mapped f (find_object t os) else find_object t os)
unfolding find_object update_object
find_object-update f same cid t [] = ground arith
find_object-update f same cid t (o ∷ os) = ground (
  arith,
  find_object-update f same cid t os,
  same o,
  eq_iff o.cid cid,
  eq_iff o.cid t,
  eq_iff cid t,
  eq_iff (f o).cid t,
)

abbrev pub Recounted : String → String → List ObjectRow → List ObjectRow → Type 0
Recounted cid t os os' =
    refcount_in (find_object t os')
    ≡ (if cid == t then refcount_in (find_object t os) + 1 else refcount_in (find_object t os))

-- A row for an object that had none, and one more for an object that had one.
cons-Recounted :
    (cid t : String) (o : ObjectRow) (os : List ObjectRow)
    → o.cid ≡ cid
    → o.refcount ≡ 1
    → find_object cid os ≡ none
    → Recounted cid t os (o ∷ os)
unfolding find_object
cons-Recounted cid t o os named one e = elim (Bool-cases (cid == t)) [
  | inl same ↦
      let here : find_object t os ≡ none =
        subst (λ c. find_object c os ≡ none) ((eq_iff cid t).0 same) e in
      rw (named, same, here) one
  | inr other ↦ rw (named, other) refl
]

update-Recounted :
    (f : ObjectRow → ObjectRow)
    → ((o : ObjectRow) → ((f o).cid ≡ o.cid) × ((f o).refcount ≡ o.refcount + 1))
    → (cid t : String) (os : List ObjectRow) (row : ObjectRow) → find_object cid os ≡ some row
    → Recounted cid t os (update_object cid f os)
update-Recounted f h cid t os row e = elim (Bool-cases (cid == t)) [
  | inl same ↦
      let here : find_object t os ≡ some row =
        subst (λ c. find_object c os ≡ some row) ((eq_iff cid t).0 same) e in
      rw (find_object-update f (λ o. (h o).0) cid t os, same, here) (h row).1
  | inr other ↦ rw (find_object-update f (λ o. (h o).0) cid t os, other) refl
]

counted-Recounted :
    (now : ℕ) (cid : String) (size n m : ℕ) (os : List ObjectRow) (t : String)
    (o : Option ObjectRow)
    → find_object cid os ≡ o
    → Ensures (Recounted cid t os) (counted cid size n m os o now)
counted-Recounted now cid size n m os t none e =
    Ensures-ok _ (cons-Recounted cid t _ os refl refl e)
counted-Recounted now cid size n m os t (some row) e =
    Ensures-raise_if _ _ _
      λ _. Ensures-ok _ (update-Recounted (one_more n m) (λ o. (refl, refl)) cid t os row e)

pub count_reference-Recounted :
    (now : ℕ) (cid : String) (size n m : ℕ) (os : List ObjectRow) (t : String)
    → Ensures (Recounted cid t os) (count_reference now cid size n m os)
unfolding count_reference
count_reference-Recounted now cid size n m os t = counted-Recounted now cid size n m os t _ refl

pub count_refs-cons :
    (t : String) (r : Reference) (rs : List Reference)
    → count_refs t (r ∷ rs) ≡ (if r.cid == t then count_refs t rs + 1 else count_refs t rs)
unfolding count_refs
count_refs-cons t r rs = ground arith

delete_ref-absent :
    (id : String) (rs : List Reference) → find_ref id rs ≡ none → delete_ref id rs ≡ rs
unfolding delete_ref find_ref
delete_ref-absent id [] e = refl
delete_ref-absent id (q ∷ rs) e = ground (arith, delete_ref-absent id rs)

pub count_refs-delete :
    (id t : String) (rs : List Reference) {r : Reference}
    → IsDistinct rs
    → find_ref id rs ≡ some r
    → count_refs t rs ≡ (
        if r.cid == t then count_refs t (delete_ref id rs) + 1 else count_refs t (delete_ref id rs))
unfolding count_refs delete_ref find_ref IsDistinct
count_refs-delete id t [] d e = cc
count_refs-delete id t (q ∷ rs) {r} d e = elim (Bool-cases (q.reference_id == id)) [
  | inl here ↦
      let same : q ≡ r = ground arith in
      let gone : find_ref id rs ≡ none =
        subst (λ k. find_ref k rs ≡ none) ((eq_iff q.reference_id id).0 here) d.0 in
      rw (here, delete_ref-absent id rs gone, sym same) (ground arith)
  | inr further ↦
      let rest : find_ref id rs ≡ some r = ground arith in
      rw further (ground (arith, count_refs-delete id t rs d.1 rest))
]

pub find_ref-delete :
    (id t : String) (rs : List Reference)
    → find_ref t (delete_ref id rs) ≡ (if id == t then none else find_ref t rs)
unfolding delete_ref find_ref
find_ref-delete id t [] = ground arith
find_ref-delete id t (q ∷ rs) =
    ground (
      arith,
      find_ref-delete id t rs,
      eq_iff q.reference_id id,
      eq_iff q.reference_id t,
      eq_iff id t,
    )

pub delete_ref-IsDistinct :
    (id : String) (rs : List Reference) → IsDistinct rs → IsDistinct (delete_ref id rs)
unfolding delete_ref IsDistinct
delete_ref-IsDistinct id [] d = tt
delete_ref-IsDistinct id (q ∷ rs) d =
    ground (arith, delete_ref-IsDistinct id rs d.1, find_ref-delete id q.reference_id rs)
