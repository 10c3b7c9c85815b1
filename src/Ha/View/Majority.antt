-- ===== src/Ha/View/Majority.antt =====
-- ha/hashburst_ha_agent.py: what `_majority_view` finds, against a direct count of the reports.
use node_installer.Prelude.{
  ℕ, ◌+◌, ◌≤◌, String, ◌≡◌, refl, sym, subst, ◌⊎◌, inl, inr, Bool, true, false, List, [], ◌∷◌,
  arith, eq_iff, if◌then◌else◌, ℤ, pos, leb, leb→le,
}
use node_installer.Text.{is_empty}
use node_installer.Outcome.{Outcome, ok, error, exception}
use node_installer.Ha.View.{
  Report, unreadable, broken, vacant, held, Count, count_in, tally, best, View, majority_of,
  same_key, better, chosen, no_holder,
}

-- How many reports name the holder at the term.
unfoldable pub support : ℤ → String → List Report → ℕ
support t h [] = 0
support t h (held t' h' ∷ rs) = if same_key t' h' t h then support t h rs + 1 else support t h rs
support t h (_ ∷ rs) = support t h rs

-- The votes that the entries have for a holder at a term.
votes_for : ℤ → String → List Count → ℕ
votes_for t h [] = 0
votes_for t h (c ∷ cs) =
    if same_key c.term c.holder t h then c.votes + votes_for t h cs else votes_for t h cs

same_key-eq : (t t' : ℤ) (h h' : String) → same_key t h t' h' ≡ true → (t ≡ t') × (h ≡ h')
unfolding same_key
same_key-eq t t' h h' e = ground (arith, eq_iff h h')

same_key_refl : (t : ℤ) (h : String) → same_key t h t h ≡ true
unfolding same_key
same_key_refl t h = ground (arith, eq_iff h h)

bump_if : Bool → ℕ → ℕ
bump_if b n = if b then n + 1 else n

bump_if_lem : (b : Bool) (n : ℕ) → bump_if b n ≡ (if b then n + 1 else n)
unfolding bump_if
bump_if_lem b n = refl

module _ (t t' : ℤ) (h h' : String) where
  votes_for-count_in_cons :
      (c : Count) (cs : List Count)
      → votes_for t h (count_in t' h' cs) ≡ bump_if (same_key t' h' t h) (votes_for t h cs)
      → votes_for t h (count_in t' h' (c ∷ cs))
        ≡ bump_if (same_key t' h' t h) (votes_for t h (c ∷ cs))
  unfolding votes_for count_in bump_if
  votes_for-count_in_cons c cs ih = ground (arith, same_key-eq c.term t' c.holder h')

  votes_for-count_in :
      (cs : List Count)
      → votes_for t h (count_in t' h' cs) ≡ bump_if (same_key t' h' t h) (votes_for t h cs)
  votes_for-count_in [] = unfold votes_for count_in bump_if in ground arith
  votes_for-count_in (c ∷ cs) = votes_for-count_in_cons c cs (votes_for-count_in cs)

module _ (t : ℤ) (h : String) where
  tally-votes_for :
      (rs : List Report) (m : ℤ) (cs : List Count) {m' : ℤ} {cs' : List Count}
      → tally rs m cs ≡ ok (m', cs')
      → votes_for t h cs' ≡ support t h rs + votes_for t h cs
  unfolding tally support
  tally-votes_for [] m cs e = ground arith
  tally-votes_for (unreadable ∷ rs) m cs e = tally-votes_for rs m cs e
  tally-votes_for (broken u ∷ rs) m cs e = cc
  tally-votes_for (vacant u ∷ rs) m cs e = tally-votes_for rs _ cs e
  tally-votes_for (held u k ∷ rs) m cs e =
      let rest = tally-votes_for rs _ (count_in u k cs) e in
      ground
        (arith, votes_for-count_in t u h k cs, bump_if_lem (same_key u k t h) (votes_for t h cs))

  votes_for-cons_le :
      (c d : Count) (ds : List Count) → votes_for t h (d ∷ ds) ≤ votes_for t h (c ∷ d ∷ ds)
  unfolding votes_for
  votes_for-cons_le c d ds = ground arith

  votes_for-skip_le :
      (c d : Count) (ds : List Count) → votes_for t h (c ∷ ds) ≤ votes_for t h (c ∷ d ∷ ds)
  unfolding votes_for
  votes_for-skip_le c d ds = ground arith

votes_for-nil : (t : ℤ) (h : String) → votes_for t h [] ≡ 0
unfolding votes_for
votes_for-nil t h = refl

abbrev EntryVotes : Count → List Count → Type 0
EntryVotes b cs = b.votes ≤ votes_for b.term b.holder cs

better-cases : (c d : Count) → (better c d ≡ c) ⊎ (better c d ≡ d)
unfolding better
better-cases c d = ground arith

best-votes : (c : Count) (cs : List Count) → EntryVotes (best c cs) (c ∷ cs)
unfolding best
best-votes c [] = unfold votes_for in ground (arith, same_key_refl c.term c.holder)
best-votes c (d ∷ ds) = elim (better-cases c d) [
  | inl e ↦
      rw (e, best)
        (omega
          (arith, best-votes c ds, votes_for-skip_le (best c ds).term (best c ds).holder c d ds))
  | inr e ↦
      rw (e, best)
        (omega
          (arith, best-votes d ds, votes_for-cons_le (best d ds).term (best d ds).holder c d ds))
]

picked-support :
    (q : ℕ) (enough : Bool) (m : ℤ) (b : Count) (rs : List Report) {w : View}
    → (enough ≡ true → q ≤ support b.term b.holder rs)
    → ok (
        if enough
        then record { max_term = m; holder = b.holder; holder_term = b.term }
        else no_holder m)
      ≡ ok w
    → is_empty w.holder ≡ false
    → q ≤ support w.holder_term w.holder rs
picked-support q true m b rs {w} found e named =
    let v : View = record { max_term = m; holder = b.holder; holder_term = b.term } in
    let p : v ≡ w = cc in subst (λ (x : View). q ≤ support x.holder_term x.holder rs) p (found refl)
picked-support q false m b rs {w} found e named =
    let p : no_holder m ≡ w = cc in
    let h : is_empty "" ≡ false = subst (λ (x : View). is_empty x.holder ≡ false) (sym p) named in
    cc

chosen-support :
    (q : ℕ) (rs : List Report) (r : Outcome (ℤ × List Count)) {w : View}
    → tally rs (pos 0) [] ≡ r
    → chosen q r ≡ ok w
    → is_empty w.holder ≡ false
    → q ≤ support w.holder_term w.holder rs
chosen-support q rs (ok (m, [])) t e named = cc
chosen-support q rs (ok (m, c ∷ cs)) {w} t e named =
    let b = best c cs in
    let found : q ≤ b.votes → q ≤ support b.term b.holder rs = λ h. omega (
      arith,
      best-votes c cs,
      tally-votes_for b.term b.holder rs (pos 0) [] t,
      votes_for-nil b.term b.holder,
    ) in
    picked-support q (leb q b.votes) m b rs (λ h. found (leb→le q b.votes h)) e named
chosen-support q rs (error c) t e named = cc
chosen-support q rs exception t e named = cc

-- If the majority view names a holder, at least a quorum of the statuses report it, at the term that
-- the view gives, with time left.
pub majority_of-support :
    (q : ℕ) (rs : List Report) {w : View}
    → majority_of q rs ≡ ok w
    → is_empty w.holder ≡ false
    → q ≤ support w.holder_term w.holder rs
unfolding majority_of
majority_of-support q rs e named = chosen-support q rs (tally rs (pos 0) []) refl e named
