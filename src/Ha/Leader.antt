-- ===== src/Ha/Leader.antt =====
-- ha/hashburst_ha_agent.py: the candidate's side of LeaseEngine: _renew, _campaign, _demote and one
-- round of run_once. What a round reads from outside is a record: the answers to its calls
-- (`none` is a call that raised), the eligibility check, whether the guard file can be removed, and the
-- readings of the clock. The guard file can always be written here. The texts that are kept for
-- display, `_cluster_view` and `_last_error`, are left out.
pub mod Quorum
use node_installer.Prelude.{
  ℕ, ◌+◌, String, Bool, true, false, not, ◌&&◌, Option, none, some, List, [], ◌∷◌, length, leb, ltb,
  ◌==◌, if◌then◌else◌, ℤ, pos, ltb_ℤ, eqb_ℤ, sub_ℕ, pos_part, neg_part,
}
use node_installer.Text.{is_empty}
use node_installer.Json.{
  Json, Fields, str, field, end, PyInt, value, invalid, overflow, int, get, get_default, py_int,
  truthy,
}
use node_installer.Ha.Config.{Config, Candidate, is_candidate, quorum, priority}
use node_installer.Outcome.{Outcome, ok, error, exception}
use node_installer.Ha.View.{View, majority_view, max_ℤ}

pub data Role : Type 0 where
  primary standby : Role

-- `guard` is the guard file: a term and a deadline.
pub record Leader : Type 0 where
  pub term : ℤ
  pub deadline : ℕ
  pub desired : Role
  pub guard : Option (ℤ × ℕ)

-- A method that changes the leader returns a Boolean, or raises with the changes made so far.
pub data Flow : Type 0 where
  returned : Bool → Flow
  raised : Flow

-- `unlinks` tells that the guard file can be removed if it is there.
pub record World : Type 0 where
  pub statuses : List (Option Fields)
  pub replies : List (Option Fields)
  pub candidate_status : String → Option Fields
  pub eligible : Bool
  pub starts : Bool
  pub unlinks : Bool
  pub checked : ℕ
  pub settled : ℕ
  pub ended : ℕ

abbrev pub is_value : ℤ → PyInt → Bool
is_value t (value n) = eqb_ℤ n t
is_value t _ = false

-- `response.get("granted")` at the term; a dictionary whose term does not parse counts for nothing.
unfoldable pub is_grant : ℤ → Option Fields → Bool
is_grant t none = false
is_grant t (some d) =
    truthy (get_default "granted" (Json.bool false) d)
    && is_value t (py_int (get_default "term" (int (ℤ.negsuc 0)) d))

unfoldable pub count_grants : ℤ → List (Option Fields) → ℕ
count_grants t [] = 0
count_grants t (r ∷ rs) = if is_grant t r then count_grants t rs + 1 else count_grants t rs

-- The request that `_campaign` sends to each voter.
unfoldable pub vote_payload : Config → ℤ → Fields
unfolding priority
vote_payload cfg t = field "op" (str "vote_request") (
    field "cluster_id" (str cfg.cluster_id) (
      field "candidate" (str cfg.node_id) (
        field "priority" (int (priority cfg))
          (field "term" (int t) (field "lease_ms" (int (pos cfg.lease_ms)) end)))))

-- `_write_guard`
abbrev pub write_guard : Config → Leader → Leader
write_guard cfg l =
    if is_candidate cfg && cfg.armed then record l { guard = some (l.term, l.deadline) } else l

-- `set_primary` raises if a service does not start; it does nothing on a node that is not armed.
abbrev starts_ok : Config → World → Bool
starts_ok cfg w = if is_candidate cfg && cfg.armed then w.starts else true

-- The lease is counted from the time at which the replies are in.
unfoldable pub lead : Config → World → ℤ → Leader → Leader × Flow
lead cfg w t l = (
  record (write_guard cfg (record l { term = t; deadline = w.settled + cfg.lease_ms })) {
    desired = primary;
  },
  if starts_ok cfg w then returned true else raised,
)

-- `_demote`; an error of `unlink` leaves it before the services are fenced.
unfoldable pub demote : World → Leader → Leader
demote w l =
    if w.unlinks
    then record l { deadline = 0; guard = none; desired = standby }
    else record l { deadline = 0 }

unfoldable pub renew_lease : Config → World → Leader → Leader × Flow
unfolding quorum count_grants is_grant lead
renew_lease cfg w l =
    if leb (quorum cfg) (count_grants l.term w.replies)
    then lead cfg w l.term l
    else (l, returned false)

-- The highest term among the replies that are readable.
unfoldable pub highest : ℤ → List (Option Fields) → ℤ
highest m [] = m
highest m (none ∷ rs) = highest m rs
highest m (some d ∷ rs) =
    highest (elim (py_int (get_default "term" (int (pos 0)) d)) [ value n ↦ max_ℤ m n | _ ↦ m ]) rs

unfoldable pub campaign : Config → World → ℤ → Leader → Leader × Flow
unfolding quorum count_grants is_grant lead highest
campaign cfg w t l =
    if leb (quorum cfg) (count_grants t w.replies)
    then lead cfg w t l
    else if ltb_ℤ t (highest t w.replies)
    then (record l { term = highest t w.replies }, returned false)
    else (l, returned false)

abbrev pub answers : List (Option Fields) → List Fields
answers [] = []
answers (none ∷ rs) = answers rs
answers (some d ∷ rs) = d ∷ answers rs

-- `_higher_priority_candidate_ready`; the order of the calls does not change the answer.
unfoldable pub higher_ready : Config → World → List Candidate → Bool
higher_ready cfg w [] = false
higher_ready cfg w (c ∷ cs) =
    let rest = higher_ready cfg w cs in
    if not (ltb_ℤ c.priority (priority cfg))
    then rest
    else if c.node_id == cfg.node_id
    then rest
    else elim (w.candidate_status c.node_id) [
      | none ↦ rest
      | some d ↦ if truthy (get_default "eligible" (Json.bool false) d) then true else rest
    ]

-- `if self._leader_deadline <= boot_seconds(): self._demote(...)`
abbrev pub demote_if_over : World → Leader → Leader
demote_if_over w l = if leb l.deadline w.ended then demote w l else l

-- After a renewal or a campaign: a lease that is over, or an exception without a lease, demotes.
abbrev pub settle : World → Leader × Flow → Leader
settle w (l, returned true) = l
settle w (l, returned false) = demote_if_over w l
settle w (l, raised) = demote_if_over w l

-- After the renewal of a lease that was found in the majority view, the result is not looked at.
abbrev pub settle_found : World → Leader × Flow → Leader
settle_found w (l, returned b) = l
settle_found w (l, raised) = demote_if_over w l

abbrev pub found_lease : Config → World → ℤ → Leader → Leader
found_lease cfg w t l = record l { term = t; deadline = w.checked + cfg.lease_ms }

unfoldable pub round : Config → World → View → Leader → Leader
round cfg w v l =
    if not (is_empty v.holder) && not (v.holder == cfg.node_id)
    then demote w (record l { term = max_ℤ l.term v.holder_term })
    else if is_candidate cfg && ltb w.checked l.deadline
    then (if ltb_ℤ l.term v.max_term then demote w l else settle w (renew_lease cfg w l))
    else if not (is_candidate cfg)
    then l
    else if not w.eligible
    then demote w l
    else if ltb (length (answers w.statuses)) (quorum cfg)
    then demote w l
    else if v.holder == cfg.node_id && ltb_ℤ (pos 0) v.holder_term
    then settle_found w (renew_lease cfg w (found_lease cfg w v.holder_term l))
    else if higher_ready cfg w cfg.candidates
    then demote w l
    else settle w (campaign cfg w (sub_ℕ (pos_part v.max_term + 1) (neg_part v.max_term)) l)

abbrev pub round_with : Config → World → Leader → Outcome View → Leader
round_with cfg w l (ok v) = round cfg w v l
round_with cfg w l _ = demote_if_over w l

-- LeaseEngine.run_once
unfoldable pub run_once : (Json → String) → Config → World → Leader → Leader
unfolding round demote renew_lease campaign higher_ready majority_view
run_once repr cfg w l = round_with cfg w l (majority_view repr cfg (answers w.statuses))
