-- ===== src/Files.antt =====
-- hbfiles/hb_registry.py: Registry, the stakeholders that may use the files service. The file is read by an
-- argument `Disk`; `lower` is str.lower, and `repr` is Python's text of a value. Quotas are floats and left out.
use node_installer.Prelude.{
  ℕ, String, Bool, true, false, not, ◌&&◌, Option, none, some, List, [], ◌∷◌, eqb, ◌==◌,
  if◌then◌else◌, length,
}
use node_installer.Text.{is_empty, strip}
use node_installer.Json.{
  Json, Fields, Items, nil, cons, end, field, str, arr, obj, get, get_default, truthy, py_str,
}

-- What `stat` and `read_text` with json.loads give: no file, or its time and size with its value (`none` if it
-- cannot be read or is no JSON).
pub data Disk : Type 0 where
  absent : Disk
  present : ℕ → ℕ → Option Json → Disk

pub record Entry : Type 0 where
  pub apikey : String
  pub fields : Fields

pub record Registry : Type 0 where
  pub stat_key : Option (ℕ × ℕ)
  pub by_apikey : List Entry

-- `[v for v in raw.values() if isinstance(v, dict)]`
abbrev dict_values : Fields → Items
dict_values end = nil
dict_values (field k (obj d) rest) = cons (obj d) (dict_values rest)
dict_values (field k v rest) = dict_values rest

abbrev or_items : Json → Items → Items
or_items (arr xs) rest = xs
or_items v rest = rest

-- Registry._entries
unfoldable pub entries : Json → Items
entries (arr xs) = xs
entries (obj d) =
    or_items (get "users" d) (
      or_items (get "list" d)
        (or_items (get "entries" d) (or_items (get "data" d) (dict_values d))))
entries v = nil

-- `by_apikey[key] = e`
unfoldable pub put : Entry → List Entry → List Entry
put new [] = new ∷ []
put new (e ∷ es) = if e.apikey == new.apikey then new ∷ es else e ∷ put new es

unfoldable pub find_entry : String → List Entry → Option Fields
find_entry key [] = none
find_entry key (e ∷ es) =
    let rest = find_entry key es in if e.apikey == key then some e.fields else rest

abbrev is_stat : ℕ → ℕ → Option (ℕ × ℕ) → Bool
is_stat mtime size none = false
is_stat mtime size (some (m, s)) = eqb m mtime && eqb s size

abbrev is_nil : List Entry → Bool
is_nil [] = true
is_nil (e ∷ es) = false

module _ (lower : String → String) (repr : Json → String) where
  abbrev normal : String → String
  normal s = lower (strip s)

  abbrev put_entry : Json → Fields → List Entry → List Entry
  put_entry apikey d es =
      if truthy apikey
      then put (record { apikey = normal (py_str repr apikey); fields = d }) es
      else es

  -- The loop over the entries; one that is no dictionary is passed over.
  unfoldable pub index : Items → List Entry → List Entry
  index nil es = es
  index (cons (obj d) xs) es = index xs (put_entry (get "apikey" d) d es)
  index (cons v xs) es = index xs es

  abbrev reread : ℕ → ℕ → Option Json → Registry → Registry
  reread mtime size none r = r
  reread mtime size (some raw) r = record {
    stat_key = some (mtime, size);
    by_apikey = index (entries raw) [];
  }

  -- Registry._reload_if_changed
  unfoldable pub reload_if_changed : Disk → Registry → Registry
  reload_if_changed absent r = record { stat_key = none; by_apikey = [] }
  reload_if_changed (present mtime size raw) r =
      if is_stat mtime size r.stat_key && not (is_nil r.by_apikey)
      then r
      else reread mtime size raw r

  -- Registry.get_entry
  unfoldable pub get_entry : String → Disk → Registry → Option Fields × Registry
  get_entry apikey disk r =
      let now = reload_if_changed disk r in (find_entry (normal apikey) now.by_apikey, now)

  abbrev is_signature : String → String → Bool
  is_signature expected signature =
      not (is_empty expected) && (not (is_empty signature) && expected == signature)

  -- An entry that is an empty dictionary is no entry.
  abbrev verified : String → Option Fields → Bool
  verified signature none = false
  verified signature (some end) = false
  verified signature (some (field k v d)) =
      is_signature (py_str repr (get_default "signature" (str "") (field k v d))) signature

  abbrev answered : String → Option Fields × Registry → Bool × Registry
  answered signature (found, r) = (verified signature found, r)

  -- Registry.verify; `compare_digest` is equality.
  unfoldable pub verify : String → String → Disk → Registry → Bool × Registry
  verify apikey signature disk r = answered signature (get_entry apikey disk r)

  -- Registry.count
  unfoldable pub count : Disk → Registry → ℕ × Registry
  count disk r = let now = reload_if_changed disk r in (length now.by_apikey, now)
