-- ===== src/Placement.antt =====
-- replication/hb_replication_policy.py: where the controller puts further replicas of an object. A node
-- is a row of the registry with its online flag. `tiebreak` stands for the first eight bytes of a
-- SHA-256 digest. The ratio of free space is computed exactly, not in floating point.
pub mod Eligibility
pub mod Counts
pub mod Filling
use node_installer.Prelude.{
  ℕ, zero, suc, ◌+◌, ◌-◌, ◌*◌, ◌/◌, String, Bool, true, false, not, ◌&&◌, ◌||◌, Option, none, some,
  List, [], ◌∷◌, ◌++◌, length, contains, max, ltb, leb, eqb, ◌==◌, if◌then◌else◌,
}
use Prim.Native.String.{◌++◌ as append}
use node_installer.Text.{is_empty, strip}
use node_installer.Outcome.{Outcome, ok, exception, ◌>>◌}

abbrev pub committable : String
committable = "committable"

abbrev pub best_effort : String
best_effort = "best-effort"

pub record PlacementPolicy : Type 0 where
  pub replication_n : ℕ
  pub committable_m : ℕ
  pub prefer_edge_for_extra : Bool
  pub safety_margin_bytes : ℕ

-- PlacementPolicy.validate; a number of replicas is no negative number here.
unfoldable pub validate : PlacementPolicy → Outcome (Unit {0})
validate p =
    if ltb p.replication_n 1
    then exception
    else if ltb p.replication_n p.committable_m
    then exception
    else ok tt

pub record Node : Type 0 where
  pub node_id : String
  pub enabled : Bool
  pub online : Bool
  pub capacity_class : String
  pub total_bytes : ℕ
  pub used_bytes : ℕ
  pub stability_score : ℕ
  pub failure_penalty : ℕ
  pub failure_domain : String
  pub provider : String
  pub region : String
  pub rack : String

-- `"/".join(p for p in parts if p)`
abbrev join_part : String → String → String
join_part p rest =
    if is_empty p then rest else if is_empty rest then p else append (append p "/") rest

-- The operator's domain, or a fallback that is the node's own where nothing is known.
unfoldable pub node_failure_domain : Node → String
unfolding strip
node_failure_domain node =
    let compact =
      join_part (strip node.provider) (join_part (strip node.region) (strip node.rack)) in
    if not (is_empty (strip node.failure_domain))
    then strip node.failure_domain
    else if is_empty compact
    then append "node:" node.node_id
    else compact

unfoldable pub effective_free_bytes : Node → ℕ → ℕ → ℕ
effective_free_bytes node reserved margin =
    if leb node.total_bytes 0 then 0 else node.total_bytes - node.used_bytes - reserved - margin

-- The tuple of `node_score`, largest first; the last three parts count downwards.
pub record Score : Type 0 where
  pub free_ratio_ppm : ℕ
  pub stability : ℕ
  pub failure_penalty : ℕ
  pub load_penalty : ℕ
  pub tie : ℕ

unfoldable pub exceeds : Score → Score → Bool
exceeds a b =
    if not (eqb a.free_ratio_ppm b.free_ratio_ppm)
    then ltb b.free_ratio_ppm a.free_ratio_ppm
    else if not (eqb a.stability b.stability)
    then ltb b.stability a.stability
    else if not (eqb a.failure_penalty b.failure_penalty)
    then ltb a.failure_penalty b.failure_penalty
    else if not (eqb a.load_penalty b.load_penalty)
    then ltb a.load_penalty b.load_penalty
    else ltb a.tie b.tie

-- What the controller knows of each node: reserved bytes, desired replicas and assigned bytes.
pub record Load : Type 0 where
  pub reserved : String → ℕ
  pub desired : String → ℕ
  pub assigned : String → ℕ

unfoldable pub node_score : (String → String → ℕ) → String → Node → Load → PlacementPolicy → Score
unfolding effective_free_bytes
node_score tiebreak cid node load policy =
    let id = node.node_id in
    record {
      free_ratio_ppm =
          effective_free_bytes node (load.reserved id) policy.safety_margin_bytes
          * 1000000
          / max 1 node.total_bytes;
      stability = node.stability_score;
      failure_penalty = node.failure_penalty;
      load_penalty = load.desired id * 1000 + load.assigned id / (1024 * 1024);
      tie = tiebreak cid id;
    }

unfoldable pub eligible : Node → ℕ → ℕ → PlacementPolicy → Bool
unfolding effective_free_bytes
eligible node object_size reserved policy =
    node.enabled
    && (node.online
        && ((node.capacity_class == committable || node.capacity_class == best_effort)
            && leb object_size (effective_free_bytes node reserved policy.safety_margin_bytes)))

-- A candidate with its score.
pub record Scored : Type 0 where
  pub score : Score
  pub node : Node

-- The loop that collects the candidates.
unfoldable pub candidates : (Node → Score) → (Node → Bool) → List String → List Node → List Scored
candidates score fits excluded [] = []
candidates score fits excluded (n ∷ ns) =
    let rest = candidates score fits excluded ns in
    if is_empty n.node_id || contains excluded n.node_id
    then rest
    else if fits n
    then (record { score = score n; node = n }) ∷ rest
    else rest

-- `sorted(..., key=score, reverse=True)`, which keeps the order of equal scores.
unfoldable pub insert : Scored → List Scored → List Scored
insert x [] = x ∷ []
insert x (y ∷ ys) = if exceeds y.score x.score then y ∷ insert x ys else x ∷ y ∷ ys

unfoldable pub sort : List Scored → List Scored
sort [] = []
sort (x ∷ xs) = insert x (sort xs)

unfoldable pub of_class : String → List Scored → List Scored
of_class cls [] = []
of_class cls (x ∷ xs) =
    if x.node.capacity_class == cls then x ∷ of_class cls xs else of_class cls xs

abbrev keep_first : Scored → Option (Scored × List Scored) → Option (Scored × List Scored)
keep_first x none = none
keep_first x (some (y, rest)) = some (y, x ∷ rest)

-- The first of the pool in a domain that is not occupied, and the pool without it.
unfoldable pub pop_new : List String → List Scored → Option (Scored × List Scored)
pop_new occupied [] = none
pop_new occupied (x ∷ xs) =
    if contains occupied (node_failure_domain x.node)
    then keep_first x (pop_new occupied xs)
    else some (x, xs)

abbrev or_head : Option (Scored × List Scored) → List Scored → Option (Scored × List Scored)
or_head (some p) pool = some p
or_head none [] = none
or_head none (x ∷ xs) = some (x, xs)

-- `_pop_domain_preferred`
unfoldable pub pop_domain_preferred : List String → List Scored → Option (Scored × List Scored)
unfolding pop_new
pop_domain_preferred occupied pool = or_head (pop_new occupied pool) pool

-- The variables of the two loops.
pub record Picks : Type 0 where
  pub chosen : List Node
  pub excluded : List String
  pub occupied : List String
  pub need_total : ℕ

abbrev pub pick : Node → Picks → Picks
pick n s = record {
  chosen = s.chosen ++ n ∷ [];
  excluded = n.node_id ∷ s.excluded;
  occupied = node_failure_domain n ∷ s.occupied;
  need_total = s.need_total - 1;
}

-- The loop over the committable nodes: `need` rounds, or until the pool is empty. It returns what is
-- left of the pool too.
unfoldable pub fill_committable : ℕ → List Scored → Picks → Picks × List Scored
fill_committable zero pool s = (s, pool)
fill_committable (suc need) pool s = elim (pop_domain_preferred s.occupied pool) [
  | none ↦ (s, pool)
  | some (x, rest) ↦ fill_committable need rest (pick x.node s)
]

-- The loop over one pool of extra nodes; each round takes one node off the pool, so its length is fuel.
unfoldable pub fill_extra : ℕ → List Scored → Picks → Picks
fill_extra zero pool s = s
fill_extra (suc fuel) pool s = elim (leb s.need_total 0) [
  | true ↦ s
  | false ↦ elim (pop_domain_preferred s.occupied pool) [
    | none ↦ s
    | some (x, rest) ↦ elim (contains s.excluded x.node.node_id) [
      | true ↦ fill_extra fuel rest s
      | false ↦ fill_extra fuel rest (pick x.node s)
    ]
  ]
]

abbrev pub fill_pool : List Scored → Picks → Picks
fill_pool pool s = fill_extra (length pool) pool s

-- The two pools in the order of the policy.
abbrev pub fill_pools : Bool → List Scored → Picks × List Scored → Picks
fill_pools prefer_edge edge (s, left) =
    if prefer_edge then fill_pool left (fill_pool edge s) else fill_pool edge (fill_pool left s)

-- The domains of the nodes that hold the object.
unfoldable pub held_domains : List String → List Node → List String
held_domains current [] = []
held_domains current (n ∷ ns) =
    if contains current n.node_id
    then node_failure_domain n ∷ held_domains current ns
    else held_domains current ns

-- The choice from the two sorted pools.
unfoldable pub choose :
    PlacementPolicy → ℕ → ℕ → List String → List String → List Scored → List Scored → List Node
choose policy have_committable have_total current held pool edge =
    (fill_pools policy.prefer_edge_for_extra edge (
      fill_committable (policy.committable_m - have_committable) pool (record {
        chosen = [];
        excluded = current;
        occupied = held;
        need_total = policy.replication_n - have_total;
      }))).chosen

-- choose_placements
unfoldable pub choose_placements :
    (String → String → ℕ)
    → String
    → ℕ
    → List Node
    → List String
    → ℕ
    → ℕ
    → Load
    → PlacementPolicy
    → Outcome (List Node)
choose_placements tiebreak cid object_size nodes current have_committable have_total load policy =
    let found =
      candidates (λ n. node_score tiebreak cid n load policy)
        (λ n. eligible n object_size (load.reserved n.node_id) policy) current nodes in
    validate policy
    >> ok (
        choose policy have_committable have_total current (held_domains current nodes)
          (sort (of_class committable found)) (sort (of_class best_effort found)))
