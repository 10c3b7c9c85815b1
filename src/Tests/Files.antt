-- ===== src/Tests/Files.antt =====
-- Runs of the registry of stakeholders.
use node_installer.Prelude.{String, ◌≡◌, refl, Bool, true, false, none, some, []}
use node_installer.Text.{strip, lstrip, rstrip}
use node_installer.Json.{Json, Fields, nil, cons, end, field, str, arr, obj}
use node_installer.Files.{
  Disk, absent, present, Registry, entries, put, find_entry, index, reload_if_changed, get_entry,
  verify, count,
}

abbrev same : String → String
same s = s

abbrev repr : Json → String
repr x = "?"

abbrev user : Fields
user = field "apikey" (str " k1 ") (field "signature" (str "s1") end)

abbrev listing : Json
listing = obj (field "users" (arr (cons (obj user) (cons (str "x") nil))) end)

abbrev empty : Registry
empty = record { stat_key = none; by_apikey = [] }

abbrev loaded : Registry
loaded = (count same repr (present 5 60 (some listing)) empty).1

abbrev asked : String → String → Disk → Bool
asked apikey signature disk = (verify same repr apikey signature disk loaded).0

program : Unit {0}
unfolding strip lstrip rstrip entries put find_entry index reload_if_changed get_entry verify count
program = tt

-- The key is stripped; a wrong or an empty signature is refused, and everybody if the file is gone. A file that
-- cannot be read leaves the registry as it was.
checked :
    (asked "k1" "s1" (present 5 60 none) ≡ true)
    × ((asked "k1" "s2" (present 5 60 none) ≡ false)
        × ((asked "k1" "" (present 5 60 none) ≡ false)
            × ((asked "k1" "s1" absent ≡ false) × (asked "k1" "s1" (present 6 61 none) ≡ true))))
unfolding program
checked = (refl, (refl, (refl, (refl, refl))))
