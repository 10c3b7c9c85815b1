-- ===== src/Ha/Voter/Votes.antt =====
-- ha/hashburst_ha_agent.py: a voter through any sequence of calls and restarts.
use node_installer.Prelude.{
  true, Bool, ℕ, ◌<◌, String, ◌≡◌, sym, ◌∙◌, ◌⊎◌, inl, inr, false, Option, none, some, List, [],
  ◌∷◌, arith, refl,
}
use node_installer.Text.{is_empty}
use node_installer.Json.{Json}
use node_installer.Ha.Config.{Config}
use node_installer.Outcome.{Outcome, ok, error, exception, Ensures}
use node_installer.Ha.Voter.{Voter, Reply, granted, Response, status, voted, handle_tep, restart}
use node_installer.Ha.Voter.Step.{IsConsistent, IsSaved, Answered, handle_tep-Answered}

-- What happens to a voter: a call at a time, with whether the state file can be written and the local
-- status of then, or a restart.
pub data Event : Type 0 where
  call : ℕ → Bool → Json → Json → Json → Event
  reboot : Event

-- A call that raises before it records a vote changes nothing; a vote that is not written is `unwritten`.
abbrev pub after_call : Voter → Outcome (Response × Voter) → Voter
after_call v (ok (r, v')) = v'
after_call v _ = v

abbrev pub reply_of : Outcome (Response × Voter) → Option Reply
reply_of (ok (voted r, v')) = some r
reply_of _ = none

module _ (repr : Json → String) (cfg : Config) where
  abbrev pub after : Event → Voter → Voter
  after (call now writes local source payload) v =
      after_call v (handle_tep repr cfg local writes now source payload v)
  after reboot v = restart v

  abbrev pub answer : Event → Voter → Option Reply
  answer (call now writes local source payload) v =
      reply_of (handle_tep repr cfg local writes now source payload v)
  answer reboot v = none

  -- Some event of the run was answered by a grant of the term to the node.
  abbrev pub Granted : Voter → List Event → ℕ → String → Type 0
  Granted v [] t h = ⊥
  Granted v (e ∷ es) t h =
      ((l : ℕ) × (answer e v ≡ some (granted t h l))) ⊎ Granted (after e v) es t h

  -- Whenever the voter restarts, its file holds the vote that it had in memory.
  abbrev pub IsKept : Voter → List Event → Type 0
  IsKept v [] = Unit
  IsKept v (call now writes local source payload ∷ es) =
      IsKept (after (call now writes local source payload) v) es
  IsKept v (reboot ∷ es) =
      (v.stored_term ≡ v.term) × (v.stored_vote ≡ v.voted_for) × IsKept (restart v) es

  -- Every call finds a file that can be written.
  abbrev pub AllWritten : List Event → Type 0
  AllWritten [] = Unit
  AllWritten (call now writes local source payload ∷ es) = (writes ≡ true) × AllWritten es
  AllWritten (reboot ∷ es) = AllWritten es

  IsSaved-after :
      (writes : Bool) (now : ℕ) (v : Voter) (m : Outcome (Response × Voter))
      → Ensures (Answered cfg writes now v) m
      → writes ≡ true
      → IsSaved v
      → IsSaved (after_call v m)
  IsSaved-after writes now v (ok (r, v')) h can s =
      let (node, some_node, ans) = h.at (r, v') refl in ans.step.saves can s
  IsSaved-after writes now v (error c) h can s = s
  IsSaved-after writes now v exception h can s = s

  -- If each write succeeds, no vote is lost.
  pub AllWritten-IsKept : (es : List Event) (v : Voter) → IsSaved v → AllWritten es → IsKept v es
  unfolding restart
  AllWritten-IsKept [] v s w = tt
  AllWritten-IsKept (call now writes local source payload ∷ es) v s w =
      AllWritten-IsKept es _
        (IsSaved-after writes now v _
          (handle_tep-Answered repr cfg local writes now v source payload) w.0 s)
        w.1
  AllWritten-IsKept (reboot ∷ es) v s w =
      (s.0, s.1, AllWritten-IsKept es (restart v) (refl, refl) w)

  -- The vote of the term is settled: it went to the node, or the term is over.
  abbrev Settled : ℕ → String → Voter → Type 0
  Settled t a v = (t < v.term) ⊎ ((v.term ≡ t) × (v.voted_for ≡ a) × (is_empty a ≡ false))

  call_kept :
      (writes : Bool) (now : ℕ) (v : Voter) (m : Outcome (Response × Voter))
      → Ensures (Answered cfg writes now v) m
      → (t : ℕ) (a : String) → Settled t a v
      → Settled t a (after_call v m)
  call_kept writes now v (ok (r, v')) h t a s =
      let (node, some_node, ans) = h.at (r, v') refl in let st = ans.step in ground arith
  call_kept writes now v (error c) h t a s = s
  call_kept writes now v exception h t a s = s

  reboot_kept :
      (v : Voter) (t : ℕ) (a : String)
      → v.stored_term ≡ v.term
      → v.stored_vote ≡ v.voted_for
      → Settled t a v
      → Settled t a (restart v)
  unfolding restart
  reboot_kept v t a same_term same_vote s = ground arith

  call_settles :
      (writes : Bool) (now : ℕ) (v : Voter) (m : Outcome (Response × Voter))
      → Ensures (Answered cfg writes now v) m
      → (t l : ℕ) (a : String) → reply_of m ≡ some (granted t a l)
      → Settled t a (after_call v m)
  call_settles writes now v (ok (voted r, v')) h t l a e =
      let (node, some_node, ans) = h.at (voted r, v') refl in
      let rec = ans.recorded t l a (ground arith) in inr (rec.term_eq, rec.vote_eq, rec.some_holder)
  call_settles writes now v (ok (status j, v')) h t l a e = cc
  call_settles writes now v (error c) h t l a e = cc
  call_settles writes now v exception h t l a e = cc

  call_agrees :
      (writes : Bool) (now : ℕ) (v : Voter) (m : Outcome (Response × Voter))
      → Ensures (Answered cfg writes now v) m
      → (t l : ℕ) (a b : String) → Settled t a v
      → reply_of m ≡ some (granted t b l)
      → a ≡ b
  call_agrees writes now v (ok (voted r, v')) h t l a b s e =
      let (node, some_node, ans) = h.at (voted r, v') refl in
      let rec = ans.recorded t l b (ground arith) in let st = ans.step in ground arith
  call_agrees writes now v (ok (status j, v')) h t l a b s e = cc
  call_agrees writes now v (error c) h t l a b s e = cc
  call_agrees writes now v exception h t l a b s e = cc

  Settled-unique :
      (es : List Event) (v : Voter) (t : ℕ) (a b : String)
      → IsKept v es
      → Settled t a v
      → Granted v es t b
      → a ≡ b
  Settled-unique [] v t a b kept s g = elim g [ ]
  Settled-unique (call now writes local source payload ∷ es) v t a b kept s (inl (l, e)) =
      call_agrees writes now v _ (handle_tep-Answered repr cfg local writes now v source payload) t
        l a b s e
  Settled-unique (call now writes local source payload ∷ es) v t a b kept s (inr g) =
      Settled-unique es _ t a b kept
        (call_kept writes now v _ (handle_tep-Answered repr cfg local writes now v source payload) t
          a s)
        g
  Settled-unique (reboot ∷ es) v t a b kept s (inl (l, e)) = cc
  Settled-unique (reboot ∷ es) v t a b (same_term, same_vote, kept) s (inr g) =
      Settled-unique es (restart v) t a b kept (reboot_kept v t a same_term same_vote s) g

  -- Whatever calls and restarts a voter goes through, failed writes of its state file included, the grants
  -- of one term all name one node, if at each restart the file holds the vote that was in memory.
  pub Granted-unique :
      (es : List Event) (v : Voter) (t : ℕ) (a b : String)
      → IsKept v es
      → Granted v es t a
      → Granted v es t b
      → a ≡ b
  Granted-unique [] v t a b kept ga gb = elim ga [ ]
  Granted-unique (call now writes local source payload ∷ es) v t a b kept (inl (l, e))
        (inl (k, f)) =
      ground arith
  Granted-unique (call now writes local source payload ∷ es) v t a b kept (inl (l, e)) (inr g) =
      Settled-unique es _ t a b kept
        (call_settles writes now v _
          (handle_tep-Answered repr cfg local writes now v source payload) t l a e)
        g
  Granted-unique (call now writes local source payload ∷ es) v t a b kept (inr g) (inl (l, e)) =
      sym (
        Settled-unique es _ t b a kept
          (call_settles writes now v _
            (handle_tep-Answered repr cfg local writes now v source payload) t l b e)
          g)
  Granted-unique (call now writes local source payload ∷ es) v t a b kept (inr ga) (inr gb) =
      Granted-unique es _ t a b kept ga gb
  Granted-unique (reboot ∷ es) v t a b kept (inl (l, e)) gb = cc
  Granted-unique (reboot ∷ es) v t a b kept (inr ga) (inl (l, e)) = cc
  Granted-unique (reboot ∷ es) v t a b kept (inr ga) (inr gb) =
      Granted-unique es (restart v) t a b kept.2 ga gb

  -- While the lease of a node runs, a call that returns, or that fails to write the vote, leaves the lease
  -- with that node, and a grant that it answers names that node.
  pub handle_tep-keeps_lease :
      (local : Json) (writes : Bool) (now : ℕ) (source payload : Json) (v : Voter) {r : Response}
      {v' : Voter}
      → IsConsistent now v
      → now < v.deadline
      → is_empty v.holder ≡ false
      → handle_tep repr cfg local writes now source payload v ≡ ok (r, v')
      → (v'.holder ≡ v.holder) × ((t l : ℕ) (h : String) → r ≡ voted (granted t h l) → h ≡ v.holder)
  handle_tep-keeps_lease local writes now source payload v {r} {v'} good active held e =
      let (node, some_node, ans) =
        (handle_tep-Answered repr cfg local writes now v source payload).at (r, v') e in
      let same = ans.step.keeps_lease good active held in
      (same, λ t l h p. sym (ans.recorded t l h p).holder_eq ∙ same)
