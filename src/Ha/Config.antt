-- ===== src/Ha/Config.antt =====
-- ha/hashburst_ha_agent.py: Candidate and Config with its properties. Times are whole milliseconds.
use node_installer.Prelude.{
  ℤ, pos, ℕ, ◌+◌, ◌/◌, ◌-◌, ◌^◌, String, Bool, List, [], ◌∷◌, map, contains, length, ◌==◌,
  if◌then◌else◌,
}

pub record Candidate : Type 0 where
  pub node_id : String
  pub priority : ℤ

pub record Config : Type 0 where
  pub cluster_id : String
  pub node_id : String
  pub roles : List String
  pub voters : List String
  pub candidates : List Candidate
  pub lease_ms : ℕ
  pub armed : Bool

abbrev pub is_voter : Config → Bool
is_voter c = contains c.roles "voter"

abbrev pub is_candidate : Config → Bool
is_candidate c = contains c.roles "candidate"

-- `len(voters) // 2 + 1`
unfoldable pub quorum : Config → ℕ
quorum c = length c.voters / 2 + 1

unfoldable pub priority_of : String → List Candidate → ℤ
priority_of node [] = pos (2 ^ 31 - 1)
priority_of node (c ∷ cs) = if c.node_id == node then c.priority else priority_of node cs

unfoldable pub priority : Config → ℤ
unfolding priority_of
priority c = priority_of c.node_id c.candidates

abbrev pub candidate_ids : Config → List String
candidate_ids c = map (λ x. x.node_id) c.candidates
