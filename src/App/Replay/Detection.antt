-- ===== src/App/Replay/Detection.antt =====
-- tep/hb_tep_app.py: an admitted key through the further calls of the replay cache.
use node_installer.Prelude.{
  ℕ, suc, ◌+◌, ◌≤◌, ◌<◌, String, ◌≡◌, refl, sym, ◌∙◌, subst, ap, ◌⊎◌, inl, inr, true, false, not,
  ◌||◌, List, [], ◌∷◌, ◌++◌, length, length-append, arith, leb, ltb, eq_refl, Bool-cases, All,
}
use native.Mathlib.Nat.{add-zero}
use node_installer.Text.{is_empty, strip}
use node_installer.Outcome.{ok, error}
use node_installer.App.Hex.{is_hex}
use node_installer.App.Replay.{Entry, Cache, evict, member, trim, admit, check_and_add}

-- One call of `check_and_add`.
pub record Call : Type 0 where
  pub peer : String
  pub request : String
  pub now : ℕ

unfoldable pub run : List Call → Cache → Cache
run [] c = c
run (x ∷ xs) c = run xs (check_and_add x.peer x.request x.now c).1

short-eq :
    (limit : ℕ) (e : Entry) (es : List Entry)
    → length (e ∷ es) ≤ limit
    → ltb limit (length (e ∷ es)) ≡ false
short-eq limit e es h = ground arith

module _ (peer request : String) (t : ℕ) where
  abbrev key : Entry
  key = record { peer = peer; request = request; seen = t }

  -- The entry stands in the list, with at most `n` entries behind it.
  abbrev Recent : ℕ → List Entry → Type 0
  Recent n [] = ⊥
  Recent n (e ∷ es) = ((e ≡ key) × (length es ≤ n)) ⊎ Recent n es

  evict-Recent :
      (w now n : ℕ) (es : List Entry) → now < t + w → Recent n es → Recent n (evict w now es)
  unfolding evict
  evict-Recent w now n [] live r = r
  evict-Recent w now n (e ∷ es) live (inl (same, few)) =
      ground (arith, ap (λ (x : Entry). x.seen) same)
  evict-Recent w now n (e ∷ es) live (inr r) = elim (Bool-cases (leb (e.seen + w) now)) [
    | inl p ↦ rw p (evict-Recent w now n es live r)
    | inr p ↦ rw p (inr r)
  ]

  member-Recent : (n : ℕ) (es : List Entry) → Recent n es → member peer request es ≡ true
  unfolding member
  member-Recent n [] r = elim r [ ]
  member-Recent n (e ∷ es) (inl (same, few)) =
      rw same (ground (arith, eq_refl peer, eq_refl request))
  member-Recent n (e ∷ es) (inr r) = ground (arith, member-Recent n es r)

  snoc-Recent :
      (n : ℕ) (new : Entry) (es : List Entry) → Recent n es → Recent (suc n) (es ++ new ∷ [])
  snoc-Recent n new [] r = elim r [ ]
  snoc-Recent n new (e ∷ es) (inl (same, few)) =
      inl (same, omega (arith, length-append {0} es (new ∷ [])))
  snoc-Recent n new (e ∷ es) (inr r) = inr (snoc-Recent n new es r)

  last-Recent : (es : List Entry) → Recent 0 (es ++ key ∷ [])
  last-Recent [] = inl (refl, omega arith)
  last-Recent (e ∷ es) = inr (last-Recent es)

  trim-Recent : (limit n : ℕ) (es : List Entry) → n < limit → Recent n es → Recent n (trim limit es)
  unfolding trim
  trim-Recent limit n [] room r = r
  trim-Recent limit n (e ∷ es) room (inl (same, few)) =
      rw (short-eq limit e es (omega arith)) (inl (same, few))
  trim-Recent limit n (e ∷ es) room (inr r) = elim (Bool-cases (ltb limit (length (e ∷ es)))) [
    | inl p ↦ rw p (trim-Recent limit n es room r)
    | inr p ↦ rw p (inr r)
  ]

  weaken-Recent : (n : ℕ) (es : List Entry) → Recent n es → Recent (suc n) es
  weaken-Recent n [] r = elim r [ ]
  weaken-Recent n (e ∷ es) (inl (same, few)) = inl (same, omega arith)
  weaken-Recent n (e ∷ es) (inr r) = inr (weaken-Recent n es r)

  -- The limits are those of `c`, and the key stands with at most `n` entries behind it.
  record Keeps (c : Cache) (n : ℕ) (c' : Cache) : Type 0 where
    window : c'.window_sec ≡ c.window_sec
    limit : c'.max_entries ≡ c.max_entries
    recent : Recent n c'.entries

  module _ (c : Cache) (n : ℕ) (now : ℕ) (live : now < t + c.window_sec) where
    admit-Keeps :
        (p r : String)
        → suc n < c.max_entries
        → Recent n c.entries
        → Keeps c (suc n) (admit p r now c).1
    unfolding admit
    admit-Keeps p r room k =
        let left = evict c.window_sec now c.entries in
        let kept = evict-Recent c.window_sec now n c.entries live k in
        elim (Bool-cases (member p r left)) [
          | inl e ↦
              rw e (record { window = refl; limit = refl; recent = weaken-Recent n left kept })
          | inr e ↦ rw e (record {
            window = refl;
            limit = refl;
            recent = trim-Recent _ (suc n) _ room (snoc-Recent n _ left kept);
          })
        ]

    call-Keeps :
        (p r : String)
        → suc n < c.max_entries
        → Recent n c.entries
        → Keeps c (suc n) (check_and_add p r now c).1
    unfolding check_and_add
    call-Keeps p r room k = elim (Bool-cases (is_empty (strip p) || not (is_hex r 32))) [
      | inl e ↦ rw e (record { window = refl; limit = refl; recent = weaken-Recent n _ k })
      | inr e ↦ rw e (admit-Keeps p r room k)
    ]

    refused :
        Recent n c.entries
        → (is_empty (strip peer) || not (is_hex request 32)) ≡ false
        → (check_and_add peer request now c).0 ≡ error "replay_detected"
    unfolding check_and_add admit
    refused k good = rw (good, member-Recent n _ (evict-Recent c.window_sec now n c.entries live k))

  run-Keeps :
      (xs : List Call) (c : Cache) (n : ℕ)
      → n + length xs < c.max_entries
      → All (λ x. x.now < t + c.window_sec) xs
      → Recent n c.entries
      → Keeps c (n + length xs) (run xs c)
  unfolding run
  run-Keeps [] c n room live k = record { window = refl; limit = refl; recent = rw add-zero k }
  run-Keeps (x ∷ xs) c n room live k =
      let c' = (check_and_add x.peer x.request x.now c).1 in
      let s = call-Keeps c n x.now live.0 x.peer x.request (omega arith) k in
      let later =
        run-Keeps xs c' (suc n) (omega (arith, s.limit))
          (subst (λ (w : ℕ). All (λ (x : Call). x.now < t + w) xs) (sym s.window) live.1)
          s.recent in
      record {
        window = later.window ∙ s.window;
        limit = later.limit ∙ s.limit;
        recent = subst (λ (m : ℕ). Recent m (run xs c').entries) (omega arith) later.recent;
      }

  first-Keeps :
      (c : Cache)
      → 0 < c.max_entries
      → (admit peer request t c).0 ≡ ok tt
      → Keeps c 0 (admit peer request t c).1
  unfolding admit
  first-Keeps c room e =
      let left = evict c.window_sec t c.entries in
      elim (Bool-cases (member peer request left)) [
        | inl p ↦ cc (rw p at e)
        | inr p ↦ rw p (record {
          window = refl;
          limit = refl;
          recent = trim-Recent _ 0 _ room (last-Recent left);
        })
      ]

  admitted :
      (c : Cache)
      → 0 < c.max_entries
      → (check_and_add peer request t c).0 ≡ ok tt
      → ((is_empty (strip peer) || not (is_hex request 32)) ≡ false)
        × Keeps c 0 (check_and_add peer request t c).1
  unfolding check_and_add
  admitted c room e = elim (Bool-cases (is_empty (strip peer) || not (is_hex request 32))) [
    | inl p ↦ cc (rw p at e)
    | inr p ↦ (p, rw p (first-Keeps c room (rw p at e)))
  ]

-- Once `check_and_add` has admitted a request of a peer at time `t`, the same request is refused as a
-- replay at every time before the window is over, if in between fewer calls were made than the cache
-- has entries, all before the window is over.
pub check_and_add-replay :
    (peer request : String) (t now : ℕ) (xs : List Call) (c : Cache)
    → length xs < c.max_entries
    → All (λ x. x.now < t + c.window_sec) xs
    → now < t + c.window_sec
    → (check_and_add peer request t c).0 ≡ ok tt
    → (check_and_add peer request now (run xs (check_and_add peer request t c).1)).0
      ≡ error "replay_detected"
check_and_add-replay peer request t now xs c room before live e =
    let (good, s) = admitted peer request t c (omega arith) e in
    let c' = (check_and_add peer request t c).1 in
    let k =
      run-Keeps peer request t xs c' 0 (omega (arith, s.limit))
        (subst (λ (w : ℕ). All (λ (x : Call). x.now < t + w) xs) (sym s.window) before) s.recent in
    refused peer request t (run xs c') (0 + length xs) now (omega (arith, k.window, s.window))
      k.recent good
