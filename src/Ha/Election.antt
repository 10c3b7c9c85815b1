-- ===== src/Ha/Election.antt =====
-- ha/hashburst_ha_agent.py: campaigns of two nodes against the same voters.
use node_installer.Prelude.{
  ℕ, suc, ◌+◌, ◌≤◌, ◌<◌, String, ◌≡◌, ◌≢◌, Bool, true, false, Option, none, some, List, [], ◌∷◌,
  length, arith, refl, inl, inr, leb, leb→le, Bool-cases, if◌then◌else◌, ℤ, pos, ◌⊎◌, ap, sym,
  subst,
}
use node_installer.Json.{Json, Fields, int, obj, as_dict, py_int}
use node_installer.Outcome.{Outcome, ok, error, exception, Ensures}
use node_installer.Ha.Config.{Config, quorum}
use node_installer.Ha.Voter.{
  Voter, Reply, granted, active_lease, refused, unwritten, reply_json, Response, status, voted,
  handle_tep, restart,
}
use node_installer.Ha.Voter.Votes.{
  Event, call, reboot, after, reply_of, Granted, IsKept, Granted-unique,
}
use node_installer.Ha.Voter.Named.{IsVoteOf, handle_tep-IsVoteOf}
use node_installer.Ha.Leader.{
  World, Leader, returned, is_value, is_grant, count_grants, campaign, vote_payload,
}

-- A voter with its configuration, its state at first and what it went through.
pub record Run : Type 0 where
  pub config : Config
  pub start : Voter
  pub events : List Event

shared_here :
    (p q : Bool) (m n k : ℕ) (a b : String)
    → suc k < (if p then m + 1 else m) + (if q then n + 1 else n)
    → (p ≡ true → q ≡ true → a ≡ b)
    → (k < m + n → a ≡ b)
    → a ≡ b
shared_here true true m n k a b more both rest = both refl refl
shared_here true false m n k a b more both rest = rest (omega arith)
shared_here false q m n k a b more both rest = rest (ground arith)

campaign-quorum :
    (cfg : Config) (w : World) (t : ℤ) (l : Leader)
    → (campaign cfg w t l).1 ≢ returned false
    → quorum cfg ≤ count_grants t w.replies
unfolding campaign
campaign-quorum cfg w t l wins = elim (Bool-cases (leb (quorum cfg) (count_grants t w.replies))) [
  | inl e ↦ leb→le _ _ e
  | inr e ↦ absurd (wins (ground arith))
]

is_value-pos : (t n : ℕ) → is_value (pos t) (py_int (int (pos n))) ≡ true → n ≡ t
unfolding py_int
is_value-pos t n e = ground arith

-- A reply that counts as a grant is one.
is_grant-reply_json :
    (t : ℕ) (r : Reply)
    → is_grant (pos t) (reply_json r) ≡ true
    → (h : String) × (l : ℕ) × (r ≡ granted t h l)
unfolding is_grant reply_json
is_grant-reply_json t (granted n h l) e = (h, l, ap (λ (k : ℕ). granted k h l) (is_value-pos t n e))
is_grant-reply_json t (active_lease n h l) e = cc
is_grant-reply_json t (refused n reason) e = cc
is_grant-reply_json t unwritten e = cc

-- What comes back of a call: nothing if it raises.
abbrev pub sent_back : Outcome (Response × Voter) → Option Fields
sent_back (ok (voted r, v)) = reply_json r
sent_back (ok (status j, v)) = as_dict j
sent_back _ = none

counted-Granted :
    (t : ℕ) (node : String) (m : Outcome (Response × Voter))
    → Ensures (IsVoteOf node) m
    → is_grant (pos t) (sent_back m) ≡ true
    → (l : ℕ) × (reply_of m ≡ some (granted t node l))
unfolding is_grant
counted-Granted t node (ok (voted r, v)) h e =
    let (named, l, same) = is_grant-reply_json t r e in
    let mine : IsVoteOf node (voted (granted t named l), v) =
      subst (λ (q : Reply). IsVoteOf node (voted q, v)) same (h.at (voted r, v) refl) in
    (l, ground arith)
counted-Granted t node (ok (status j, v)) h e = elim (h.at (status j, v) refl) [ ]
counted-Granted t node (error c) h e = cc
counted-Granted t node exception h e = cc

module _ (repr : Json → String) where
  -- At some time of the run the voter is given the request for its vote that the campaign of the candidate
  -- sends, and what comes back of this call is `x`.
  abbrev pub Asked : Config → ℕ → Config → Voter → List Event → Option Fields → Type 0
  Asked from t cfg v [] x = ⊥
  Asked from t cfg v (call now writes local source payload ∷ es) x =
      ((payload ≡ obj (vote_payload from (pos t)))
        × (x ≡ sent_back (handle_tep repr cfg local writes now source payload v)))
      ⊎ Asked from t cfg (after repr cfg (call now writes local source payload) v) es x
  Asked from t cfg v (reboot ∷ es) x = Asked from t cfg (restart v) es x

  -- For each voter there is a reply: none, as of a call that fails, or what comes back of its handler.
  abbrev pub Replies : Config → ℕ → List Run → List (Option Fields) → Type 0
  Replies from t [] [] = Unit
  Replies from t (r ∷ rs) (x ∷ xs) =
      ((x ≡ none) ⊎ Asked from t r.config r.start r.events x) × Replies from t rs xs
  Replies from t _ _ = ⊥

  -- No voter loses a vote at a restart.
  abbrev pub AllKept : List Run → Type 0
  AllKept [] = Unit
  AllKept (r ∷ rs) = IsKept repr r.config r.start r.events × AllKept rs

  Asked-Granted :
      (from : Config) (t : ℕ) (cfg : Config) (es : List Event) (v : Voter) (x : Option Fields)
      → Asked from t cfg v es x
      → is_grant (pos t) x ≡ true
      → Granted repr cfg v es t from.node_id
  Asked-Granted from t cfg [] v x a e = elim a [ ]
  Asked-Granted from t cfg (call now writes local source payload ∷ es) v x (inl (p, same)) e = inl (
      counted-Granted t from.node_id _
        (subst
          (λ (q : Json).
            Ensures (IsVoteOf from.node_id) (handle_tep repr cfg local writes now source q v))
          (sym p) (handle_tep-IsVoteOf repr cfg from (pos t) local writes now source v))
        (subst (λ (y : Option Fields). is_grant (pos t) y ≡ true) same e))
  Asked-Granted from t cfg (call now writes local source payload ∷ es) v x (inr a) e =
      inr (Asked-Granted from t cfg es _ x a e)
  Asked-Granted from t cfg (reboot ∷ es) v x a e =
      inr (Asked-Granted from t cfg es (restart v) x a e)

  reply-Granted :
      (from : Config) (t : ℕ) (r : Run) (x : Option Fields)
      → (x ≡ none) ⊎ Asked from t r.config r.start r.events x
      → is_grant (pos t) x ≡ true
      → Granted repr r.config r.start r.events t from.node_id
  unfolding is_grant
  reply-Granted from t r x (inl e) h = cc
  reply-Granted from t r x (inr a) h = Asked-Granted from t r.config r.events r.start x a h

  shared_voter :
      (t : ℕ) (a b : Config) (rs : List Run) (xs ys : List (Option Fields))
      → AllKept rs
      → Replies a t rs xs
      → Replies b t rs ys
      → length rs < count_grants (pos t) xs + count_grants (pos t) ys
      → a.node_id ≡ b.node_id
  unfolding count_grants
  shared_voter t a b [] [] [] kept ra rb more = absurd (omega arith)
  shared_voter t a b [] [] (y ∷ ys) kept ra rb more = elim rb [ ]
  shared_voter t a b [] (x ∷ xs) ys kept ra rb more = elim ra [ ]
  shared_voter t a b (r ∷ rs) [] ys kept ra rb more = elim ra [ ]
  shared_voter t a b (r ∷ rs) (x ∷ xs) [] kept ra rb more = elim rb [ ]
  shared_voter t a b (r ∷ rs) (x ∷ xs) (y ∷ ys) kept ra rb more =
      shared_here (is_grant (pos t) x) (is_grant (pos t) y) (count_grants (pos t) xs)
        (count_grants (pos t) ys) (length rs) a.node_id b.node_id more
        (λ p q.
          Granted-unique repr r.config r.events r.start t a.node_id b.node_id kept.0
            (reply-Granted a t r x ra.0 p) (reply-Granted b t r y rb.0 q))
        (shared_voter t a b rs xs ys kept.1 ra.1 rb.1)

  -- Two campaigns for one term that both end in a lease are of one node, if what each counts are the
  -- replies that the handlers of the same voters give to its request for votes, or failed calls, and no
  -- voter loses a vote at a restart: whatever else the voters went through, a term has one leader.
  pub election_safety :
      (t : ℕ) (a b : Config) (wa wb : World) (la lb : Leader) (rs : List Run)
      → length a.voters ≡ length rs
      → length b.voters ≡ length rs
      → AllKept rs
      → Replies a t rs wa.replies
      → Replies b t rs wb.replies
      → (campaign a wa (pos t) la).1 ≢ returned false
      → (campaign b wb (pos t) lb).1 ≢ returned false
      → a.node_id ≡ b.node_id
  unfolding quorum
  election_safety t a b wa wb la lb rs va vb kept ra rb wins_a wins_b =
      shared_voter t a b rs wa.replies wb.replies kept ra rb (
        omega
          (arith, campaign-quorum a wa (pos t) la wins_a, campaign-quorum b wb (pos t) lb wins_b))
