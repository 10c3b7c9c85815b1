-- ===== src/Tests/Ha.antt =====
-- ha/hashburst_ha_agent.py on a cluster of three voters and two candidates.
use node_installer.Prelude.{
  ℕ, inr, ◌≤◌, ◌<◌, String, ◌≡◌, refl, ◌⊎◌, inl, true, false, Option, none, some, List, [], ◌∷◌,
  arith, pos,
}
use node_installer.Text.{strip}
use node_installer.Json.{Json, Fields, null, int, bool, str, obj, field, end, py_int}
use node_installer.Outcome.{ok, error, ◌>>=◌, ◌>>◌, raise_if}
use node_installer.Ha.Config.{Config, priority}
use node_installer.Ha.Voter.{
  Voter, granted, active_lease, voted, vote, handle_tep, restart, reply_json,
}
use node_installer.Ha.Voter.Votes.{
  Event, call, reboot, Granted, IsKept, AllWritten-IsKept, Granted-unique, handle_tep-keeps_lease,
}
use node_installer.Ha.View.{View}
use node_installer.Ha.Leader.{
  Leader, World, primary, standby, returned, campaign, vote_payload, lead, run_once, round,
}
use node_installer.Ha.Leader.Quorum.{HasGrants, HasView, run_once-quorum}
use node_installer.Ha.Election.{Run, Asked, Replies, election_safety}
use node_installer.Ha.Guard.{IsGuarded, round-IsGuarded, lead-outlasts_grant}
use node_installer.Ha.View.Majority.{majority_of-support, support}
use node_installer.Ha.View.{held, majority_of, tally, count_in, best, better, same_key}

program : Unit {0}
unfolding vote_payload handle_tep ◌>>=◌ ◌>>◌ raise_if strip py_int
program = tt

abbrev shown : Json → String
shown x = ""

abbrev config : String → Config
config node = record {
  cluster_id = "c";
  node_id = node;
  roles = "voter" ∷ "candidate" ∷ [];
  voters = "a" ∷ "b" ∷ "d" ∷ [];
  candidates =
      (record { node_id = "a"; priority = pos 10 })
      ∷ (record { node_id = "b"; priority = pos 20 })
      ∷ [];
  lease_ms = 12000;
  armed = true;
}

abbrev fresh : Voter
fresh = record {
  term = 0;
  voted_for = "";
  stored_term = 0;
  stored_vote = "";
  holder = "";
  deadline = 0;
}

abbrev from : String → Json
from node = obj (field "node_id" (str node) (field "peer_id" (str "p") end))

abbrev request : String → ℕ → Json
request node term = obj (vote_payload (config node) (pos term))

-- A voter that voted for `a` in term 1 at time 1000.
abbrev voter_of_a : Voter
voter_of_a = record {
  term = 1;
  voted_for = "a";
  stored_term = 1;
  stored_vote = "a";
  holder = "a";
  deadline = 13000;
}

first_vote :
    handle_tep shown (config "d") null true 1000 (from "a") (request "a" 1) fresh
    ≡ ok (voted (granted 1 "a" 12000), voter_of_a)
unfolding program
first_vote = refl

rival_refused :
    handle_tep shown (config "d") null true 5000 (from "b") (request "b" 2) voter_of_a
    ≡ ok (voted (active_lease 1 "a" 8000), voter_of_a)
unfolding program
rival_refused = refl

forged :
    handle_tep shown (config "d") null true 5000 (from "b") (request "a" 2) voter_of_a
    ≡ error "identity_mismatch"
unfolding program
forged = refl

abbrev events : List Event
events =
    call 1000 true null (from "a") (request "a" 1)
    ∷ call 5000 false null (from "b") (request "b" 1)
    ∷ reboot
    ∷ []

events-Granted : Granted shown (config "d") fresh events 1 "a"
unfolding program
events-Granted = inl (12000, refl)

events-IsKept : IsKept shown (config "d") fresh events
unfolding program restart
events-IsKept = (refl, refl, tt)

Granted-unique_example : ◌≡◌ {A = String} "a" "a"
Granted-unique_example =
    Granted-unique shown (config "d") events fresh 1 "a" "a" events-IsKept events-Granted
      events-Granted

abbrev written : List Event
written = call 1000 true null (from "a") (request "a" 1) ∷ reboot ∷ []

written-IsKept : IsKept shown (config "d") fresh written
written-IsKept = AllWritten-IsKept shown (config "d") written fresh (refl, refl) (refl, tt)

abbrev renewal : String → ℕ → Json
renewal node term = obj (
    field "op" (str "renew") (
      field "cluster_id" (str "c") (field "holder" (str node) (field "term" (int (pos term)) end))))

-- The vote for `a` is not written, its renewal is granted from memory, and a restart forgets it.
abbrev forgetful : List Event
forgetful =
    call 1000 false null (from "a") (request "a" 1)
    ∷ call 2000 true null (from "a") (renewal "a" 1)
    ∷ reboot
    ∷ call 3000 true null (from "b") (request "b" 1)
    ∷ []

forgetful-both :
    Granted shown (config "d") fresh forgetful 1 "a"
    × Granted shown (config "d") fresh forgetful 1 "b"
unfolding program restart
forgetful-both = (inr (inl (12000, refl)), inr (inr (inr (inl (12000, refl)))))

handle_tep-keeps_lease_example :
    (voter_of_a.holder ≡ voter_of_a.holder)
    × ((t l : ℕ) (h : String) → voted (active_lease 1 "a" 8000) ≡ voted (granted t h l) → h ≡ "a")
handle_tep-keeps_lease_example =
    handle_tep-keeps_lease shown (config "d") null true 5000 (from "b") (request "b" 2) voter_of_a
      (λ _ h. refl) (omega arith) refl rival_refused

abbrev run_of : Run
run_of = record { config = config "d"; start = fresh; events = events }

abbrev runs : List Run
runs = run_of ∷ run_of ∷ run_of ∷ []

abbrev grant_reply : Option Fields
grant_reply = some (
    field "granted" (bool true) (
      field "term" (int (pos 1))
        (field "holder" (str "a") (field "lease_ms" (int (pos 12000)) end))))

abbrev follower : Leader
follower = record { term = pos 0; deadline = 0; desired = standby; guard = none }

abbrev status_a : Option Fields
status_a = some (
    field "term" (int (pos 1))
      (field "holder" (str "a") (field "lease_remaining_ms" (int (pos 9000)) end)))

abbrev status_none : Option Fields
status_none = some (field "term" (int (pos 0)) (field "holder" (str "") end))

abbrev world : World
world = record {
  statuses = status_none ∷ none ∷ status_none ∷ [];
  replies = grant_reply ∷ none ∷ grant_reply ∷ [];
  candidate_status = λ n. none;
  eligible = true;
  starts = true;
  unlinks = true;
  checked = 900;
  settled = 1200;
  ended = 1300;
}

elected : campaign (config "a") world (pos 1) follower ≡ (
  record { term = pos 1; deadline = 13200; desired = primary; guard = some (pos 1, 13200) },
  returned true,
)
unfolding campaign py_int
elected = refl

run_of-Asked : Asked shown (config "a") 1 (config "d") fresh events grant_reply
unfolding program reply_json
run_of-Asked = inl (refl, refl)

runs-Replies : Replies shown (config "a") 1 runs world.replies
runs-Replies = (inr run_of-Asked, (inl refl, (inr run_of-Asked, tt)))

election_safety_example : ◌≡◌ {A = String} "a" "a"
unfolding campaign program
election_safety_example =
    election_safety shown 1 (config "a") (config "a") world world follower follower runs refl refl
      (events-IsKept, (events-IsKept, (events-IsKept, tt))) runs-Replies runs-Replies (λ e. cc)
      (λ e. cc)

run_once-quorum_example :
    HasGrants (config "a") world (run_once shown (config "a") world follower)
    ⊎ HasView shown (config "a") world (run_once shown (config "a") world follower)
unfolding run_once program priority
run_once-quorum_example = run_once-quorum shown (config "a") world follower refl (omega arith)

abbrev world_of_b : World
world_of_b = record world { statuses = status_a ∷ status_a ∷ none ∷ [] }

abbrev view_of_a : View
view_of_a = record { max_term = pos 1; holder = "a"; holder_term = pos 1 }

abbrev leader_b : Leader
leader_b = record { term = pos 0; deadline = 5000; desired = primary; guard = some (pos 0, 5000) }

leader_b-IsGuarded : IsGuarded (config "b") leader_b
leader_b-IsGuarded = record { within = λ t d e. ground arith; unarmed = λ e. cc }

round-IsGuarded_example : IsGuarded (config "b") (round (config "b") world_of_b view_of_a leader_b)
round-IsGuarded_example =
    round-IsGuarded (config "b") world_of_b view_of_a leader_b refl leader_b-IsGuarded

lead-outlasts_grant_example :
    (v' : Voter) × (vote true 13100 "b" (pos 2) 12000 voter_of_a ≡ ok (granted 2 "b" 12000, v'))
    × (13100 < (lead (config "a") world (pos 1) follower).0.deadline)
unfolding vote
lead-outlasts_grant_example =
    lead-outlasts_grant (config "a") world follower true 1 1000 13100 "b" fresh voter_of_a refl
      (omega arith) (omega arith)

abbrev view_of_three : View
view_of_three = record { max_term = pos 2; holder = "a"; holder_term = pos 1 }

-- Two of three voters report the first node.
majority_of-support_example :
    2 ≤ support (pos 1) "a" (held (pos 1) "a" ∷ held (pos 2) "b" ∷ held (pos 1) "a" ∷ [])
majority_of-support_example =
    majority_of-support 2 (held (pos 1) "a" ∷ held (pos 2) "b" ∷ held (pos 1) "a" ∷ [])
      {w = view_of_three} (unfold majority_of tally count_in best better same_key in refl) refl
