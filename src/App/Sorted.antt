-- ===== src/App/Sorted.antt =====
-- tep/hb_tep_app.py: the order of keys that `json.dumps(…, sort_keys=True)` writes, and what validation reads
-- of a message in this order.
pub mod Validation
use Prim.Native.String.{compare}
use text.Mathlib.Text.{is_lt}
use node_installer.Prelude.{
  ℕ, String, ◌≡◌, refl, Bool, true, false, ◌||◌, ◌==◌, if◌then◌else◌, eq_iff, arith, Bool-cases,
  inl, inr, ap, ◌∙◌, subst,
}
use node_installer.Json.{
  Json, Items, Fields, null, bool, int, real, infinity, str, arr, obj, nil, cons, end, field, get,
}

-- An entry goes before the first key that is not smaller; texts are ordered by their code points.
unfoldable pub insert_key : String → Json → Fields → Fields
insert_key k x end = field k x end
insert_key k x (field l y d) =
    let rest = insert_key k x d in
    if k == l || is_lt (compare k l) then field k x (field l y d) else field l y rest

unfoldable mutual
  -- Every dictionary in the value has its keys in order.
  pub sort_keys : Json → Json
  sort_keys (arr xs) = arr (sort_items xs)
  sort_keys (obj d) = obj (sort_fields d)
  sort_keys x = x

  pub sort_items : Items → Items
  sort_items nil = nil
  sort_items (cons x xs) = cons (sort_keys x) (sort_items xs)

  pub sort_fields : Fields → Fields
  sort_fields end = end
  sort_fields (field k x d) = insert_key k (sort_keys x) (sort_fields d)

get-insert_key :
    (key k : String) (x : Json) (d : Fields)
    → get key (insert_key k x d) ≡ (if k == key then x else get key d)
unfolding insert_key
get-insert_key key k x end = refl
get-insert_key key k x (field l y d) =
    ground (arith, get-insert_key key k x d, eq_iff k l, eq_iff k key, eq_iff l key)

-- A key has the same value in the sorted dictionary, itself sorted.
pub get-sort_fields : (key : String) (d : Fields) → get key (sort_fields d) ≡ sort_keys (get key d)
unfolding sort_fields sort_keys
get-sort_fields key end = refl
get-sort_fields key (field k x d) =
    get-insert_key key k (sort_keys x) (sort_fields d) ∙ elim (Bool-cases (k == key)) [
      | inl same ↦ rw same refl
      | inr other ↦ rw other (get-sort_fields key d)
    ]
