-- ===== src/Ha/Guard.antt =====
-- ha/hashburst_ha_agent.py: the guard file between the agent and its watchdog process, and the time
-- at which the leases of the two sides end.
use node_installer.Prelude.{
  ℕ, ◌+◌, ◌-◌, ◌≤◌, ◌<◌, String, ◌≡◌, refl, Bool, true, false, not, ◌&&◌, Option, none, some, arith,
  inl, inr, Bool-cases, leb, ltb, ◌==◌, if◌then◌else◌, ℤ, pos,
}
use node_installer.Ha.Config.{Config, is_candidate}
use node_installer.Outcome.{ok}
use node_installer.Ha.Voter.{Voter, granted, vote}
use node_installer.Ha.View.{View}
use node_installer.Ha.Leader.{
  Leader, World, Flow, returned, raised, lead, demote, renew_lease, campaign, settle, settle_found,
  found_lease, round, demote_if_over,
}

-- The guard file as `watchdog` reads it; `none` is a file that is absent or not readable.
pub record GuardFile : Type 0 where
  pub cluster_id : String
  pub holder : String
  pub boot_deadline : ℕ

-- What `_write_guard` and `_clear_guard` leave on disk.
abbrev pub file_of : Config → Option (ℤ × ℕ) → Option GuardFile
file_of cfg none = none
file_of cfg (some (t, d)) =
    some (record { cluster_id = cfg.cluster_id; holder = cfg.node_id; boot_deadline = d })

abbrev pub guard_file : Config → Leader → Option GuardFile
guard_file cfg l = file_of cfg l.guard

abbrev guard_holds : Config → ℕ → Option GuardFile → Bool
guard_holds cfg now none = false
guard_holds cfg now (some g) =
    g.cluster_id == cfg.cluster_id && (g.holder == cfg.node_id && ltb now g.boot_deadline)

-- One round of the watchdog of an armed candidate: whether it fences, and when it last did.
unfoldable pub watch : Config → ℕ → Option GuardFile → ℕ → ℕ → Bool × ℕ
watch cfg grace_until file now last_fence =
    if not (if ltb now grace_until then true else guard_holds cfg now file)
      && leb 5000 (now - last_fence)
    then (true, now)
    else (false, last_fence)

-- The guard never outlasts the lease that the node believes to have, and a node that is not armed has
-- no guard.
pub record IsGuarded (cfg : Config) (l : Leader) : Type 0 where
  pub within : (t : ℤ) (d : ℕ) → l.guard ≡ some (t, d) → d ≤ l.deadline
  pub unarmed : (is_candidate cfg && cfg.armed) ≡ false → l.guard ≡ none

module _ (cfg : Config) where
  Guarded-if :
      (b : Bool) (m n : Leader)
      → (b ≡ true → IsGuarded cfg m)
      → (b ≡ false → IsGuarded cfg n)
      → IsGuarded cfg (if b then m else n)
  Guarded-if true m n hm hn = hm refl
  Guarded-if false m n hm hn = hn refl

  Guarded-demote : (w : World) (k : Leader) → w.unlinks ≡ true → IsGuarded cfg (demote w k)
  unfolding demote
  Guarded-demote w k removed = rw removed (record { within = λ t d e. cc; unarmed = λ e. refl })

  Guarded-demote_if_over :
      (w : World) (k : Leader)
      → w.unlinks ≡ true
      → IsGuarded cfg k
      → IsGuarded cfg (demote_if_over w k)
  Guarded-demote_if_over w k removed g = Guarded-if _ _ _ (λ _. Guarded-demote w k removed) (λ _. g)

  Guarded-lead :
      (w : World) (t : ℤ) (k : Leader) → IsGuarded cfg k → IsGuarded cfg (lead cfg w t k).0
  unfolding lead
  Guarded-lead w t k g = elim (Bool-cases (is_candidate cfg && cfg.armed)) [
    | inl e ↦ record { within = λ u d p. ground arith; unarmed = λ p. cc }
    | inr e ↦ record {
      within = λ u d p. ground (arith, g.unarmed e);
      unarmed = λ p. ground (arith, g.unarmed e);
    }
  ]

  Guarded-renew : (w : World) (k : Leader) → IsGuarded cfg k → IsGuarded cfg (renew_lease cfg w k).0
  unfolding renew_lease
  Guarded-renew w k g = ground (arith, Guarded-lead w k.term k g)

  Guarded-campaign :
      (w : World) (t : ℤ) (k : Leader) → IsGuarded cfg k → IsGuarded cfg (campaign cfg w t k).0
  unfolding campaign
  Guarded-campaign w t k g = ground (arith, Guarded-lead w t k g)

  Guarded-settle :
      (w : World) (r : Leader × Flow)
      → w.unlinks ≡ true
      → IsGuarded cfg r.0
      → IsGuarded cfg (settle w r)
  Guarded-settle w (k, returned true) removed g = g
  Guarded-settle w (k, returned false) removed g = Guarded-demote_if_over w k removed g
  Guarded-settle w (k, raised) removed g = Guarded-demote_if_over w k removed g

  Guarded-settle_found :
      (w : World) (r : Leader × Flow)
      → w.unlinks ≡ true
      → IsGuarded cfg r.0
      → IsGuarded cfg (settle_found w r)
  Guarded-settle_found w (k, returned b) removed g = g
  Guarded-settle_found w (k, raised) removed g = Guarded-demote_if_over w k removed g

  module _ (w : World) (v : View) (l : Leader) (removed : w.unlinks ≡ true)
      (g : IsGuarded cfg l) where
    Guarded-found :
        (is_candidate cfg && ltb w.checked l.deadline) ≡ false
        → not (is_candidate cfg) ≡ false
        → (t : ℤ) → IsGuarded cfg (found_lease cfg w t l)
    Guarded-found over mine t = record {
      within = λ u d e. ground (arith, g.within u d e);
      unarmed = λ e. g.unarmed e;
    }

    Guarded-renewed : IsGuarded cfg (settle w (renew_lease cfg w l))
    Guarded-renewed = Guarded-settle w _ removed (Guarded-renew w l g)

    Guarded-campaigned : (t : ℤ) → IsGuarded cfg (settle w (campaign cfg w t l))
    Guarded-campaigned t = Guarded-settle w _ removed (Guarded-campaign w t l g)

    Guarded-found_renewed :
        (is_candidate cfg && ltb w.checked l.deadline) ≡ false
        → not (is_candidate cfg) ≡ false
        → (t : ℤ) → IsGuarded cfg (settle_found w (renew_lease cfg w (found_lease cfg w t l)))
    Guarded-found_renewed over mine t =
        Guarded-settle_found w _ removed (Guarded-renew w _ (Guarded-found over mine t))

    -- If the guard file can be removed when it is there, a round keeps it within the lease: the file never names a later deadline than the
    -- node's own, and a node that is not an armed candidate has no file.
    pub round-IsGuarded : IsGuarded cfg (round cfg w v l)
    unfolding round
    round-IsGuarded =
        search
          (
            removed, Guarded-if, Guarded-demote, Guarded-renewed, Guarded-campaigned,
            Guarded-found_renewed, g,
          )
          depth 10

module _ (cfg : Config) (grace_until now last_fence : ℕ) (over : grace_until ≤ now)
    (due : last_fence + 5000 ≤ now) where
  abbrev Calm : Option (ℤ × ℕ) → Type 0
  Calm o = (watch cfg grace_until (file_of cfg o) now last_fence).0 ≡ false

vote-ends :
    (writes : Bool) (lease term now : ℕ) (node : String) (u v : Voter)
    → vote writes now node (pos term) lease u ≡ ok (granted term node lease, v)
    → (v.deadline ≡ now + lease) × (v.term ≡ term)
unfolding vote
vote-ends writes lease term now node u v e = ground arith

-- A leader counts its lease from the end of its calls, a voter from its grant. After the voter's lease
-- ends, and before the leader's own lease does, a voter that can write its file grants the next term to any other node, also
-- while the leader still counts itself as the leader.
pub lead-outlasts_grant :
    (cfg : Config) (w : World) (l : Leader) (writes : Bool) (term granted_at now : ℕ)
    (other : String) (u v : Voter)
    → vote writes granted_at cfg.node_id (pos term) cfg.lease_ms u
      ≡ ok (granted term cfg.node_id cfg.lease_ms, v)
    → granted_at + cfg.lease_ms ≤ now
    → now < w.settled + cfg.lease_ms
    → (v' : Voter) × (vote true now other (pos (term + 1)) cfg.lease_ms v
        ≡ ok (granted (term + 1) other cfg.lease_ms, v'))
      × (now < (lead cfg w (pos term) l).0.deadline)
lead-outlasts_grant cfg w l writes term granted_at now other u v first over within =
    let (ends, same) = vote-ends writes cfg.lease_ms term granted_at cfg.node_id u v first in
    (
      record v {
        term = term + 1;
        voted_for = other;
        stored_term = term + 1;
        stored_vote = other;
        holder = other;
        deadline = now + cfg.lease_ms;
      },
      unfold vote in ground arith,
      unfold lead in ground arith,
    )
