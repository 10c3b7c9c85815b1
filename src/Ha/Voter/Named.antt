-- ===== src/Ha/Voter/Named.antt =====
-- ha/hashburst_ha_agent.py: what a voter makes of the request that `_campaign` sends to it.
use node_installer.Prelude.{
  contains, Bool, ℕ, String, ◌≡◌, refl, true, false, not, arith, eq_iff, ℤ, subst, if◌then◌else◌,
}
use node_installer.Text.{strip}
use node_installer.Json.{Json, Fields, str, obj, get, text_or_empty}
use node_installer.Ha.Config.{Config, is_voter, candidate_ids}
use node_installer.Outcome.{
  Outcome, ok, error, exception, Ensures, Ensures-bind, Ensures-raise_if, Ensures-ok, Ensures-error,
  Ensures-if,
}
use node_installer.Ha.Voter.{
  Voter, Reply, granted, active_lease, refused, Advanced, regression, saved, unsaved, grant,
  Response, status, voted, voted_by, vote, vote_request, dispatch, handle_tep,
}
use node_installer.Ha.Leader.{vote_payload}

-- The answer is that of a vote, and a grant names the node.
abbrev pub IsVoteOf : String → Response × Voter → Type 0
IsVoteOf node (status j, v) = ⊥
IsVoteOf node (voted (granted t h l), v) = h ≡ node
IsVoteOf node (voted r, v) = Unit

abbrev IsVote : String → Outcome (Reply × Voter) → Type 0
IsVote node m = Ensures (λ (a : Reply × Voter). IsVoteOf node (voted a.0, a.1)) m

grant-IsVote :
    (now : ℕ) (node : String) (t l : ℕ) (a : Advanced) → IsVote node (grant now node t l a)
grant-IsVote now node t l regression = record { at = λ a e. cc }
grant-IsVote now node t l (saved v) = Ensures-ok _ refl
grant-IsVote now node t l (unsaved v) = Ensures-ok _ tt

active-IsVote :
    (node : String) (t : ℕ) (h : String) (n : ℕ) (v : Voter)
    → IsVote node (ok (active_lease t h n, v))
active-IsVote node t h n v = Ensures-ok _ tt

refused-IsVote :
    (node : String) (t : ℕ) (reason : String) (v : Voter) → IsVote node (ok (refused t reason, v))
refused-IsVote node t reason v = Ensures-ok _ tt

vote-IsVote :
    (writes : Bool) (now : ℕ) (node : String) (t : ℤ) (l : ℕ) (v : Voter)
    → IsVote node (vote writes now node t l v)
unfolding vote
vote-IsVote writes now node t l v =
    search (Ensures-if, grant-IsVote, active-IsVote, refused-IsVote) depth 8

voted_by-IsVoteOf :
    (node : String) (m : Outcome (Reply × Voter))
    → IsVote node m
    → Ensures (IsVoteOf node) (voted_by m)
voted_by-IsVoteOf node (ok (r, v)) h = Ensures-ok _ (h.at (r, v) refl)
voted_by-IsVoteOf node (error c) h = Ensures-error c
voted_by-IsVoteOf node exception h = record { at = λ a e. cc }

behind_errors :
    (node : String) (p q : Bool) {m : Outcome (Response × Voter)}
    → Ensures (IsVoteOf node) m
    → Ensures
        (IsVoteOf node)
        (if p then error "not_voter" else if q then error "candidate_unknown" else m)
behind_errors node true q h = Ensures-error "not_voter"
behind_errors node false true h = Ensures-error "candidate_unknown"
behind_errors node false false h = h

text-str : (repr : Json → String) (s : String) → text_or_empty repr (str s) ≡ s
text-str repr s = ground (arith, eq_iff s "")

ok-injective : (p q : Fields) → ◌≡◌ {A = Outcome Fields} (ok p) (ok q) → p ≡ q
ok-injective p q e = cc

module _ (repr : Json → String) (cfg from : Config) (t : ℤ) (writes : Bool) (now : ℕ)
    (request : Fields) (sent : vote_payload from t ≡ request) where
  candidate-eq : text_or_empty repr (get "candidate" request) ≡ from.node_id
  unfolding vote_payload
  candidate-eq =
      subst (λ (d : Fields). text_or_empty repr (get "candidate" d) ≡ from.node_id) sent
        (text-str repr from.node_id)

  op-eq : strip (text_or_empty repr (get "op" request)) ≡ "vote_request"
  unfolding vote_payload strip
  op-eq = subst (λ (d : Fields). strip (text_or_empty repr (get "op" d)) ≡ "vote_request") sent refl

  vote_request-IsVoteOf :
      (source : String) (v : Voter)
      → Ensures (IsVoteOf from.node_id) (vote_request repr cfg writes now source request v)
  unfolding vote_request
  vote_request-IsVoteOf source v = Ensures-bind _ _ λ term _. Ensures-bind _ _ λ lease _.
      Ensures-raise_if _ _ _ λ same. Ensures-raise_if _ _ _ λ fits.
        rw candidate-eq
          (voted_by-IsVoteOf from.node_id _ (vote-IsVote writes now from.node_id term _ v))

  dispatch-IsVoteOf :
      (local : Json) (source op : String) (v : Voter)
      → op ≡ "vote_request"
      → Ensures (IsVoteOf from.node_id) (dispatch repr cfg local writes now source request v op)
  unfolding dispatch
  dispatch-IsVoteOf local source op v e = rw e (
      behind_errors from.node_id (not (is_voter cfg)) (not (contains (candidate_ids cfg) source))
        (vote_request-IsVoteOf source v))

-- A voter answers the request of a campaign by a vote, and grants it, if at all, to the candidate.
pub handle_tep-IsVoteOf :
    (repr : Json → String) (cfg from : Config) (t : ℤ) (local : Json) (writes : Bool) (now : ℕ)
    (source : Json) (v : Voter)
    → Ensures
        (IsVoteOf from.node_id)
        (handle_tep repr cfg local writes now source (obj (vote_payload from t)) v)
unfolding handle_tep
handle_tep-IsVoteOf repr cfg from t local writes now source v = Ensures-bind _ _ λ dict _.
    Ensures-bind _ _ λ request p. Ensures-raise_if _ _ _ λ _. Ensures-raise_if _ _ _ λ _.
      let sent = ok-injective _ _ p in
      dispatch-IsVoteOf repr cfg from t writes now request sent local _ _ v
        (op-eq repr cfg from t writes now request sent)
