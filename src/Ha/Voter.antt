-- ===== src/Ha/Voter.antt =====
-- ha/hashburst_ha_agent.py: PersistentVoteState and the vote and renewal branches of
-- LeaseEngine.handle_tep. A handler holds the engine's lock, and its readings of the clock are one.
pub mod Step
pub mod Votes
pub mod Named
use node_installer.Prelude.{
  ℕ, ◌+◌, ◌-◌, String, Bool, true, false, not, ◌&&◌, ◌||◌, Option, none, some, ltb, ◌==◌,
  if◌then◌else◌, ℤ, pos, pos_part, ltb_ℤ, eqb_ℤ, contains,
}
use node_installer.Text.{is_empty, strip}
use node_installer.Json.{
  Json, Fields, int, bool, str, get, get_default, as_dict, py_int, text_or_empty, obj, field, end,
}
use node_installer.Ha.Config.{Config, is_voter, candidate_ids}
use node_installer.Outcome.{Outcome, ok, error, exception, ◌>>=◌, ◌>>◌, raise_if, to_int}

-- `term` and `voted_for` are in memory, `stored_term` and `stored_vote` in the state file; `holder` and
-- `deadline` live with the process.
pub record Voter : Type 0 where
  pub term : ℕ
  pub voted_for : String
  pub stored_term : ℕ
  pub stored_vote : String
  pub holder : String
  pub deadline : ℕ

-- A restart reloads the vote from the file and forgets the lease.
unfoldable pub restart : Voter → Voter
restart v = record v { term = v.stored_term; voted_for = v.stored_vote; holder = ""; deadline = 0 }

-- What PersistentVoteState.advance comes to: `ValueError("term regression")`, the voter with the vote in
-- memory and in the file, or an OSError of `atomic_json_write` with the vote in memory alone.
pub data Advanced : Type 0 where
  regression : Advanced
  saved : Voter → Advanced
  unsaved : Voter → Advanced

-- The memory is set before the file; `writes` tells whether the file can be written.
abbrev pub advance : Bool → ℕ → String → Voter → Advanced
advance writes term candidate v =
    if ltb term v.term
    then regression
    else if writes
    then saved (record v {
      term = term;
      voted_for = candidate;
      stored_term = term;
      stored_vote = candidate;
    })
    else unsaved (record v { term = term; voted_for = candidate })

-- What the locked part comes to; `unwritten` is the OSError of a vote that was not written.
pub data Reply : Type 0 where
  granted : ℕ → String → ℕ → Reply
  active_lease : ℕ → String → ℕ → Reply
  refused : ℕ → String → Reply
  unwritten : Reply

-- The reply as it goes over the wire, `none` for the error.
unfoldable pub reply_json : Reply → Option Fields
reply_json (granted term holder lease_ms) = some (
    field "granted" (bool true) (
      field "term" (int (pos term))
        (field "holder" (str holder) (field "lease_ms" (int (pos lease_ms)) end))))
reply_json (active_lease term holder remaining) = some (
    field "granted" (bool false) (
      field "term" (int (pos term)) (
        field "holder" (str holder) (
          field "lease_remaining_ms" (int (pos remaining))
            (field "reason" (str "active_lease") end)))))
reply_json (refused term reason) =
    some (
      field "granted" (bool false)
        (field "term" (int (pos term)) (field "reason" (str reason) end)))
reply_json unwritten = none

-- The holder and its deadline are set once the vote is recorded.
abbrev pub grant : ℕ → String → ℕ → ℕ → Advanced → Outcome (Reply × Voter)
grant now node term lease_ms regression = exception
grant now node term lease_ms (unsaved v) = ok (unwritten, v)
grant now node term lease_ms (saved v) =
    ok (granted term node lease_ms, record v { holder = node; deadline = now + lease_ms })

-- The locked part of `vote_request`.
unfoldable pub vote : Bool → ℕ → String → ℤ → ℕ → Voter → Outcome (Reply × Voter)
vote writes now candidate term lease_ms v =
    if ltb now v.deadline && (not (is_empty v.holder) && not (v.holder == candidate))
    then ok (active_lease v.term v.holder (v.deadline - now), v)
    else if ltb_ℤ term (pos v.term)
    then ok (refused v.term "stale_term", v)
    else if ltb_ℤ (pos v.term) term
    then grant now candidate (pos_part term) lease_ms (advance writes (pos_part term) candidate v)
    else if not (is_empty v.voted_for) && not (v.voted_for == candidate)
    then ok (refused v.term "already_voted", v)
    else if is_empty v.voted_for
    then grant now candidate (pos_part term) lease_ms (advance writes (pos_part term) candidate v)
    else grant now candidate (pos_part term) lease_ms (saved v)

-- `lease_ms <= 0 or lease_ms > int(lease_seconds * 1000)`
abbrev pub bad_lease : Config → ℤ → Bool
bad_lease cfg lease = not (ltb_ℤ (pos 0) lease) || ltb_ℤ (pos cfg.lease_ms) lease

-- The locked part of `renew`.
unfoldable pub renew : Config → ℕ → String → ℤ → ℤ → Voter → Outcome (Reply × Voter)
renew cfg now holder term lease v =
    if not (eqb_ℤ term (pos v.term)) || not (v.voted_for == holder)
    then ok (refused v.term "not_current_holder", v)
    else if bad_lease cfg lease
    then error "bad_lease"
    else grant now holder (pos_part term) (pos_part lease) (saved v)

-- What `handle_tep` comes to once the voter was asked: the local status, or that of a vote.
pub data Response : Type 0 where
  status : Json → Response
  voted : Reply → Response

abbrev pub voted_by : Outcome (Reply × Voter) → Outcome (Response × Voter)
voted_by (ok (r, v)) = ok (voted r, v)
voted_by (error c) = error c
voted_by exception = exception

abbrev dict_or_bad : Option Fields → Outcome Fields
dict_or_bad none = error "bad_request"
dict_or_bad (some d) = ok d

module _ (repr : Json → String) (cfg : Config) where
  pub vote_request : Bool → ℕ → String → Fields → Voter → Outcome (Response × Voter)
  unfolding vote
  vote_request writes now source payload v = do
    let candidate = text_or_empty repr (get "candidate" payload)
    term ← to_int (py_int (get_default "term" (int (ℤ.negsuc 0)) payload))
    lease ← to_int (py_int (get_default "lease_ms" (int (pos cfg.lease_ms)) payload))
    raise_if (not (candidate == source)) "identity_mismatch"
    raise_if (bad_lease cfg lease) "bad_lease"
    voted_by (vote writes now candidate term (pos_part lease) v)

  pub renew_request : ℕ → String → Fields → Voter → Outcome (Response × Voter)
  unfolding renew
  renew_request now source payload v = do
    let holder = text_or_empty repr (get "holder" payload)
    term ← to_int (py_int (get_default "term" (int (ℤ.negsuc 0)) payload))
    lease ← to_int (py_int (get_default "lease_ms" (int (pos cfg.lease_ms)) payload))
    raise_if (not (holder == source)) "identity_mismatch"
    voted_by (renew cfg now holder term lease v)

  -- The branches of `handle_tep` on the operation, for an authenticated source.
  pub dispatch : Json → Bool → ℕ → String → Fields → Voter → String → Outcome (Response × Voter)
  unfolding vote_request renew_request
  dispatch local writes now node request v op =
      if op == "status"
      then ok (status local, v)
      else if not (is_voter cfg)
      then error "not_voter"
      else if not (contains (candidate_ids cfg) node)
      then error "candidate_unknown"
      else if op == "vote_request"
      then vote_request writes now node request v
      else if op == "renew"
      then renew_request now node request v
      else error "unsupported_op"

  -- LeaseEngine.handle_tep; `local` is what `local_status` returns at the time of the call, and `writes`
  -- tells whether the state file can be written then.
  unfoldable pub handle_tep : Json → Bool → ℕ → Json → Json → Voter → Outcome (Response × Voter)
  unfolding dispatch
  handle_tep local writes now source payload v = do
    from ← dict_or_bad (as_dict source)
    request ← dict_or_bad (as_dict payload)
    let node = strip (text_or_empty repr (get "node_id" from))
    let peer = strip (text_or_empty repr (get "peer_id" from))
    raise_if (is_empty node || is_empty peer) "bad_request"
    raise_if (not (text_or_empty repr (get "cluster_id" request) == cfg.cluster_id))
        "cluster_mismatch"
    dispatch local writes now node request v (strip (text_or_empty repr (get "op" request)))
