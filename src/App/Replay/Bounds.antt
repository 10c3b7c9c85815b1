-- ===== src/App/Replay/Bounds.antt =====
-- tep/hb_tep_app.py: the size and the keys of the replay cache.
use node_installer.Prelude.{
  ℕ, ◌+◌, ◌≤◌, String, ◌≡◌, refl, false, not, ◌||◌, List, [], ◌∷◌, ◌++◌, length, arith, leb, ltb,
  eq_iff, Bool-cases, inl, inr,
}
use node_installer.Text.{is_empty, strip}
use node_installer.App.Hex.{is_hex}
use node_installer.App.Replay.{Entry, Cache, evict, has_key, member, trim, admit, check_and_add}

-- No key stands twice.
abbrev pub IsDistinct : List Entry → Type 0
IsDistinct [] = Unit
IsDistinct (e ∷ es) = (member e.peer e.request es ≡ false) × IsDistinct es

-- The entries fit the limit, and no key stands twice.
pub record IsBounded (c : Cache) : Type 0 where
  pub fits : length c.entries ≤ c.max_entries
  pub distinct : IsDistinct c.entries

length-evict : (w now : ℕ) (es : List Entry) → length (evict w now es) ≤ length es
unfolding evict
length-evict w now [] = omega arith
length-evict w now (e ∷ es) = ground (arith, length-evict w now es)

evict-IsDistinct : (w now : ℕ) (es : List Entry) → IsDistinct es → IsDistinct (evict w now es)
unfolding evict
evict-IsDistinct w now [] d = tt
evict-IsDistinct w now (e ∷ es) d = elim (Bool-cases (leb (e.seen + w) now)) [
  | inl p ↦ rw p (evict-IsDistinct w now es d.1)
  | inr p ↦ rw p d
]

trim-fits : (n : ℕ) (es : List Entry) → length (trim n es) ≤ n
unfolding trim
trim-fits n [] = omega arith
trim-fits n (e ∷ es) = ground (arith, trim-fits n es)

trim-IsDistinct : (n : ℕ) (es : List Entry) → IsDistinct es → IsDistinct (trim n es)
unfolding trim
trim-IsDistinct n [] d = tt
trim-IsDistinct n (e ∷ es) d = elim (Bool-cases (ltb n (length (e ∷ es)))) [
  | inl p ↦ rw p (trim-IsDistinct n es d.1)
  | inr p ↦ rw p d
]

module _ (new : Entry) where
  member-snoc :
      (p r : String) (es : List Entry)
      → member p r (es ++ new ∷ []) ≡ (member p r es || has_key p r new)
  unfolding member
  member-snoc p r [] = ground arith
  member-snoc p r (e ∷ es) = ground (arith, member-snoc p r es)

  snoc-IsDistinct :
      (es : List Entry)
      → IsDistinct es
      → member new.peer new.request es ≡ false
      → IsDistinct (es ++ new ∷ [])
  unfolding member
  snoc-IsDistinct [] d absent = (refl, tt)
  snoc-IsDistinct (e ∷ es) d absent = (
    ground (
      arith,
      member-snoc e.peer e.request es,
      eq_iff e.peer new.peer,
      eq_iff new.peer e.peer,
      eq_iff e.request new.request,
      eq_iff new.request e.request,
    ),
    snoc-IsDistinct es d.1 (ground arith),
  )

module _ (c : Cache) (b : IsBounded c) (now : ℕ) where
  pub admit-IsBounded : (peer request : String) → IsBounded (admit peer request now c).1
  unfolding admit
  admit-IsBounded peer request =
      let left = evict c.window_sec now c.entries in
      elim (Bool-cases (member peer request left)) [
        | inl p ↦ rw p (record {
          fits = omega (arith, length-evict c.window_sec now c.entries);
          distinct = evict-IsDistinct c.window_sec now c.entries b.distinct;
        })
        | inr p ↦ rw p (record {
          fits = trim-fits _ _;
          distinct =
              trim-IsDistinct _ _
                (snoc-IsDistinct _ left (evict-IsDistinct c.window_sec now c.entries b.distinct) p);
        })
      ]

  -- Whatever it answers, `check_and_add` keeps the cache within its limit and its keys distinct.
  pub check_and_add-IsBounded :
      (peer request : String) → IsBounded (check_and_add peer request now c).1
  unfolding check_and_add
  check_and_add-IsBounded peer request =
      elim (Bool-cases (is_empty (strip peer) || not (is_hex request 32))) [
        | inl p ↦ rw p b
        | inr p ↦ rw p (admit-IsBounded peer request)
      ]
