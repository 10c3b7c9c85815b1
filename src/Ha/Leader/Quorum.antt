-- ===== src/Ha/Leader/Quorum.antt =====
-- ha/hashburst_ha_agent.py: what a round of run_once needs to take or keep the lease.
use node_installer.Prelude.{
  ℕ, ◌≤◌, ◌<◌, String, ◌≡◌, ◌⊎◌, inl, inr, Bool, true, false, List, arith, eq_iff, ℤ, pos, ◌==◌,
  ◌&&◌, ltb_ℤ, if◌then◌else◌, refl, ap, ◌∙◌,
}
use node_installer.Text.{is_empty}
use node_installer.Json.{Json}
use node_installer.Ha.Config.{Config, quorum}
use node_installer.Outcome.{Outcome, ok, error, exception}
use node_installer.Ha.View.{View, majority_view, reports, Report}
use node_installer.Ha.View.Majority.{support, majority_of-support}
use node_installer.Ha.Leader.{
  Leader, World, Flow, returned, raised, count_grants, lead, demote, renew_lease, campaign, answers,
  settle, settle_found, found_lease, round, round_with, run_once, demote_if_over,
}

-- Enough voters granted the leader's term in this round.
abbrev pub HasGrants : Config → World → Leader → Type 0
HasGrants cfg w l = quorum cfg ≤ count_grants l.term w.replies

module _ (cfg : Config) (w : World) where
  abbrev Gained : ℕ → Leader → Type 0
  Gained d l' = d < l'.deadline → HasGrants cfg w l'

  demote_if_over-gains : (d : ℕ) (l : Leader) → Gained d l → Gained d (demote_if_over w l)
  unfolding demote
  demote_if_over-gains d l g = ground arith

  settle-gains : (d : ℕ) (r : Leader × Flow) → Gained d r.0 → Gained d (settle w r)
  settle-gains d (l, returned true) g = g
  settle-gains d (l, returned false) g = demote_if_over-gains d l g
  settle-gains d (l, raised) g = demote_if_over-gains d l g

  lead-term : (t : ℤ) (l : Leader) → (lead cfg w t l).0.term ≡ t
  unfolding lead
  lead-term t l = ground arith

  renew-gains : (l : Leader) → Gained l.deadline (renew_lease cfg w l).0
  unfolding renew_lease
  renew-gains l g = ground (arith, ap (λ (t : ℤ). count_grants t w.replies) (lead-term l.term l))

  campaign-gains : (t : ℤ) (l : Leader) → Gained l.deadline (campaign cfg w t l).0
  unfolding campaign
  campaign-gains t l g = ground (arith, ap (λ (u : ℤ). count_grants u w.replies) (lead-term t l))

-- A quorum of statuses report the node as the holder at its term.
abbrev pub HasView : (Json → String) → Config → World → Leader → Type 0
HasView repr cfg w l = quorum cfg ≤ support l.term cfg.node_id (reports repr (answers w.statuses))

module _ (cfg : Config) (w : World) where
  renew-term : (l : Leader) → (renew_lease cfg w l).0.term ≡ l.term
  unfolding renew_lease
  renew-term l = ground (arith, lead-term cfg w l.term l)

  settle_found-term : (r : Leader × Flow) → (settle_found w r).term ≡ r.0.term
  settle_found-term (l, returned b) = refl
  settle_found-term (l, raised) = unfold demote in ground arith

  found-term :
      (t : ℤ) (l : Leader) → (settle_found w (renew_lease cfg w (found_lease cfg w t l))).term ≡ t
  found-term t l =
      settle_found-term (renew_lease cfg w (found_lease cfg w t l))
      ∙ renew-term (found_lease cfg w t l)

-- If the deadline of `l'` is later than `d`, a quorum stands behind the leader `l'`.
pub record IsBacked (cfg : Config) (w : World) (rs : List Report) (d : ℕ) (l' : Leader)
    : Type 0 where
  pub at : d < l'.deadline → HasGrants cfg w l' ⊎ (quorum cfg ≤ support l'.term cfg.node_id rs)

module _ (cfg : Config) (w : World) (rs : List Report) (v : View) (l : Leader) where
  abbrev Backed : Leader → Type 0
  Backed = IsBacked cfg w rs l.deadline

  Backed-if :
      (b : Bool) (m n : Leader)
      → (b ≡ true → Backed m)
      → (b ≡ false → Backed n)
      → Backed (if b then m else n)
  Backed-if true m n hm hn = hm refl
  Backed-if false m n hm hn = hn refl

  Backed-demote : (k : Leader) → Backed (demote w k)
  unfolding demote
  Backed-demote k = record { at = λ g. ground arith }

  Backed-same : Backed l
  Backed-same = record { at = λ g. absurd (omega arith) }

  Backed-renew : Backed (settle w (renew_lease cfg w l))
  Backed-renew = record {
    at = λ g. inl (settle-gains cfg w l.deadline (renew_lease cfg w l) (renew-gains cfg w l) g);
  }

  Backed-campaign : (t : ℤ) → Backed (settle w (campaign cfg w t l))
  Backed-campaign t = record {
    at = λ g. inl (settle-gains cfg w l.deadline (campaign cfg w t l) (campaign-gains cfg w t l) g);
  }

  module _ (seen : is_empty v.holder ≡ false → quorum cfg ≤ support v.holder_term v.holder rs)
      (named : is_empty cfg.node_id ≡ false) where
    Backed-found :
        (v.holder == cfg.node_id && ltb_ℤ (pos 0) v.holder_term) ≡ true
        → Backed (settle_found w (renew_lease cfg w (found_lease cfg w v.holder_term l)))
    unfolding quorum
    Backed-found e =
        let same : v.holder ≡ cfg.node_id = ground (arith, eq_iff v.holder cfg.node_id) in
        record {
          at = λ g. inr (rw (found-term cfg w v.holder_term l, ← same) (seen (rw same named)));
        }

    round-Backed : Backed (round cfg w v l)
    unfolding round
    round-Backed =
        search (Backed-if, Backed-demote, Backed-same, Backed-renew, Backed-found, Backed-campaign)
          depth 10

module _ (repr : Json → String) (cfg : Config) (w : World) (l : Leader) where
  demoted-Backed : (rs : List Report) → IsBacked cfg w rs l.deadline (demote_if_over w l)
  unfolding demote
  demoted-Backed rs = record { at = λ g. ground arith }

  round_with-Backed :
      (m : Outcome View)
      → majority_view repr cfg (answers w.statuses) ≡ m
      → is_empty cfg.node_id ≡ false
      → IsBacked cfg w (reports repr (answers w.statuses)) l.deadline (round_with cfg w l m)
  unfolding majority_view
  round_with-Backed (ok v) e named =
      round-Backed cfg w (reports repr (answers w.statuses)) v l
        (majority_of-support (quorum cfg) (reports repr (answers w.statuses)) e) named
  round_with-Backed (error c) e named = demoted-Backed _
  round_with-Backed exception e named = demoted-Backed _

  -- If a round of the loop leaves the node with a later deadline than before, then a quorum of voters
  -- granted the node's term in this round, or a quorum of voters reported the node as the holder of
  -- that term with time left.
  pub run_once-quorum :
      is_empty cfg.node_id ≡ false
      → l.deadline < (run_once repr cfg w l).deadline
      → HasGrants cfg w (run_once repr cfg w l) ⊎ HasView repr cfg w (run_once repr cfg w l)
  run_once-quorum named g =
      unfold run_once in
      (round_with-Backed (majority_view repr cfg (answers w.statuses)) refl named).at g
