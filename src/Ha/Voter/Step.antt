-- ===== src/Ha/Voter/Step.antt =====
-- ha/hashburst_ha_agent.py: what one call of a voter's handler may do to its state.
use node_installer.Prelude.{
  true, Bool, ℕ, ◌+◌, ◌≤◌, ◌<◌, String, ◌≡◌, false, max, arith, eq_iff, ℤ, pos, negsuc, pos_part,
  ◌==◌, refl, not, or-false,
}
use node_installer.Text.{is_empty, strip}
use node_installer.Json.{Json, Fields, get, text_or_empty}
use node_installer.Ha.Config.{Config}
use node_installer.Outcome.{
  Outcome, ok, error, exception, Ensures, Ensures-bind, Ensures-raise_if, Ensures-error, Ensures-if,
  Ensures-mono,
}
use node_installer.Ha.Voter.{
  Voter, Reply, granted, bad_lease, Response, status, voted, voted_by, vote, renew, vote_request,
  renew_request, dispatch, handle_tep, restart,
}

-- A lease that runs at the time is for the node that has the vote.
abbrev pub IsConsistent : ℕ → Voter → Type 0
IsConsistent now v = now < v.deadline → is_empty v.holder ≡ false → v.holder ≡ v.voted_for

-- The file holds the vote that is in memory.
abbrev pub IsSaved : Voter → Type 0
IsSaved v = (v.stored_term ≡ v.term) × (v.stored_vote ≡ v.voted_for)

-- From `v`, at time `now`, a call left `v'`; `writes` tells whether the file can be written.
pub record Step (cfg : Config) (writes : Bool) (now : ℕ) (v v' : Voter) : Type 0 where
  pub saves : writes ≡ true → IsSaved v → IsSaved v'
  pub rises : v.term ≤ v'.term
  pub keeps_vote : v'.term ≡ v.term → is_empty v.voted_for ≡ false → v'.voted_for ≡ v.voted_for
  pub keeps_lease :
      IsConsistent now v → now < v.deadline → is_empty v.holder ≡ false → v'.holder ≡ v.holder
  pub consistent : IsConsistent now v → (later : ℕ) → now ≤ later → IsConsistent later v'
  pub bounded : v'.deadline ≤ max v.deadline (now + cfg.lease_ms)

-- A granted reply names the term and the vote that the voter now has.
pub record Recorded (now : ℕ) (node : String) (term : ℕ) (holder : String) (lease : ℕ) (v' : Voter)
    : Type 0 where
  pub term_eq : v'.term ≡ term
  pub vote_eq : v'.voted_for ≡ holder
  pub holder_eq : v'.holder ≡ holder
  pub some_holder : is_empty holder ≡ false
  pub source_eq : holder ≡ node
  pub deadline_eq : v'.deadline ≡ now + lease

module _ (cfg : Config) (writes : Bool) (now : ℕ) (node : String) (v : Voter) where
  vote-Step :
      (term : ℤ) (lease : ℕ) {r : Reply} {v' : Voter}
      → is_empty node ≡ false
      → lease ≤ cfg.lease_ms
      → vote writes now node term lease v ≡ ok (r, v')
      → Step cfg writes now v v'
  unfolding vote
  vote-Step term lease some_node fits e =
      ground (arith, eq_iff v.holder node, eq_iff v.voted_for node)

  vote-Recorded :
      (term : ℤ) (lease : ℕ) {t l : ℕ} {h : String} {v' : Voter}
      → is_empty node ≡ false
      → vote writes now node term lease v ≡ ok (granted t h l, v')
      → Recorded now node t h l v'
  unfolding vote
  vote-Recorded term lease some_node e = ground (arith, eq_iff v.voted_for node)

  renew-Step :
      (term lease : ℤ) {r : Reply} {v' : Voter}
      → is_empty node ≡ false
      → renew cfg now node term lease v ≡ ok (r, v')
      → Step cfg writes now v v'
  unfolding renew
  renew-Step term lease some_node e = ground (arith, eq_iff v.holder node, eq_iff v.voted_for node)

  renew-Recorded :
      (term lease : ℤ) {t l : ℕ} {h : String} {v' : Voter}
      → is_empty node ≡ false
      → renew cfg now node term lease v ≡ ok (granted t h l, v')
      → Recorded now node t h l v'
  unfolding renew
  renew-Recorded term lease some_node e = ground (arith, eq_iff v.voted_for node)

-- What a handler for an authenticated source ensures of its answer and of the voter after it.
pub record Answer (cfg : Config) (writes : Bool) (now : ℕ) (node : String) (v : Voter)
    (a : Response × Voter) : Type 0 where
  pub step : Step cfg writes now v a.1
  pub recorded : (t l : ℕ) (h : String) → a.0 ≡ voted (granted t h l) → Recorded now node t h l a.1

module _ (cfg : Config) (writes : Bool) (now : ℕ) (node : String) (v : Voter) where
  voted-Answer :
      (m : Outcome (Reply × Voter))
      → ((r : Reply) (v' : Voter) → m ≡ ok (r, v') → Step cfg writes now v v')
      → ((t l : ℕ) (h : String) (v' : Voter)
          → m ≡ ok (granted t h l, v')
          → Recorded now node t h l v')
      → Ensures (Answer cfg writes now node v) (voted_by m)
  voted-Answer (ok (r, v')) st re = record {
    at = λ a e. ground (arith, st r v' refl, λ (t l : ℕ) (h : String). re t l h v');
  }
  voted-Answer (error c) st re = Ensures-error c
  voted-Answer exception st re = record { at = λ a e. cc }

bad_lease-bound :
    (cfg : Config) (lease : ℤ) → bad_lease cfg lease ≡ false → pos_part lease ≤ cfg.lease_ms
bad_lease-bound cfg (pos n) h = ground arith
bad_lease-bound cfg (negsuc n) h = omega arith

module _ (cfg : Config) (writes : Bool) (now : ℕ) (source : String) (v : Voter)
    (some_node : is_empty source ≡ false) where
  vote-Answer :
      (node : String) (term lease : ℤ)
      → not (node == source) ≡ false
      → bad_lease cfg lease ≡ false
      → Ensures
          (Answer cfg writes now source v)
          (voted_by (vote writes now node term (pos_part lease) v))
  vote-Answer node term lease same fits =
      let e : node ≡ source = ground (arith, eq_iff node source) in
      rw e (
        voted-Answer cfg writes now source v (vote writes now source term (pos_part lease) v)
          (λ r v' p.
            vote-Step cfg writes now source v term (pos_part lease) some_node
              (bad_lease-bound cfg lease fits) p)
          (λ t l h v' p. vote-Recorded cfg writes now source v term (pos_part lease) some_node p))

  renew-Answer :
      (node : String) (term lease : ℤ)
      → not (node == source) ≡ false
      → Ensures (Answer cfg writes now source v) (voted_by (renew cfg now node term lease v))
  renew-Answer node term lease same =
      let e : node ≡ source = ground (arith, eq_iff node source) in
      rw e (
        voted-Answer cfg writes now source v (renew cfg now source term lease v)
          (λ r v' p. renew-Step cfg writes now source v term lease some_node p)
          (λ t l h v' p. renew-Recorded cfg writes now source v term lease some_node p))

  status-Answer : (local : Json) → Ensures (Answer cfg writes now source v) (ok (status local, v))
  status-Answer local = record { at = λ a e. ground arith }

  module _ (repr : Json → String) (request : Fields) where
    vote_request-Answer :
        Ensures (Answer cfg writes now source v) (vote_request repr cfg writes now source request v)
    unfolding vote_request
    vote_request-Answer = Ensures-bind _ _ λ term _. Ensures-bind _ _ λ lease _.
        Ensures-raise_if _ _ _
          λ same. Ensures-raise_if _ _ _ λ fits. vote-Answer _ term lease same fits

    renew_request-Answer :
        Ensures (Answer cfg writes now source v) (renew_request repr cfg now source request v)
    unfolding renew_request
    renew_request-Answer = Ensures-bind _ _ λ term _.
        Ensures-bind _ _ λ lease _. Ensures-raise_if _ _ _ λ same. renew-Answer _ term lease same

    dispatch-Answer :
        (local : Json) (op : String)
        → Ensures
            (Answer cfg writes now source v)
            (dispatch repr cfg local writes now source request v op)
    unfolding dispatch
    dispatch-Answer local op =
        search (Ensures-if, Ensures-error, status-Answer, vote_request-Answer, renew_request-Answer)
          depth 8

-- The answer is for some authenticated source.
abbrev pub Answered : Config → Bool → ℕ → Voter → Response × Voter → Type 0
Answered cfg writes now v a =
    (node : String) × (is_empty node ≡ false) × Answer cfg writes now node v a

module _ (repr : Json → String) (cfg : Config) (local : Json) (writes : Bool) (now : ℕ)
    (v : Voter) where
  pub handle_tep-Answered :
      (source payload : Json)
      → Ensures (Answered cfg writes now v) (handle_tep repr cfg local writes now source payload v)
  unfolding handle_tep
  handle_tep-Answered source payload = Ensures-bind _ _ λ from _. Ensures-bind _ _ λ request _.
      Ensures-raise_if _ _ _ λ named. Ensures-raise_if _ _ _ λ _.
        Ensures-mono
          (λ a h. (strip (text_or_empty repr (get "node_id" from)), (or-false _ _ named).0, h))
          (dispatch-Answer cfg writes now _ v (or-false _ _ named).0 repr request local _)

pub restart-IsConsistent : (now : ℕ) (v : Voter) → IsConsistent now (restart v)
unfolding restart
restart-IsConsistent now v _ h = cc
