-- ===== src/Tests/Placement.antt =====
-- Runs of the placement policy, and the theorems about it on a small registry.
use node_installer.Prelude.{ℕ, String, ◌≡◌, refl, true, List, [], ◌∷◌, arith}
use node_installer.Outcome.{ok, exception, ◌>>=◌, ◌>>◌, Ensures}
use node_installer.Placement.{
  PlacementPolicy, Node, Load, validate, node_failure_domain, exceeds, node_score, eligible,
  candidates, insert, sort, of_class, pop_domain_preferred, fill_committable, fill_extra,
  held_domains, choose, choose_placements, committable, best_effort,
}
use node_installer.Placement.Eligibility.{choose_placements-IsChoice, IsChoice}
use node_installer.Placement.Filling.{choose_placements-IsEnough, IsEnough}
use node_installer.Placement.Counts.{count_free}
use node_installer.Prelude.{All}

abbrev policy : ℕ → PlacementPolicy
policy m = record {
  replication_n = 3;
  committable_m = m;
  prefer_edge_for_extra = true;
  safety_margin_bytes = 10;
}

abbrev node : String → String → String → ℕ → Node
node id class domain used = record {
  node_id = id;
  enabled = true;
  online = true;
  capacity_class = class;
  total_bytes = 1000;
  used_bytes = used;
  stability_score = 0;
  failure_penalty = 0;
  failure_domain = domain;
  provider = "";
  region = "";
  rack = "";
}

abbrev load : Load
load = record { reserved = λ id. 0; desired = λ id. 0; assigned = λ id. 0 }

abbrev tie : String → String → ℕ
tie cid id = 0

-- The second node is better than the third but in the domain of the first; the last is full.
abbrev nodes : List Node
nodes =
    node "a" committable "d1" 100
    ∷ node "b" committable "d1" 200
    ∷ node "c" committable "d2" 300
    ∷ node "e" best_effort "d3" 400
    ∷ node "f" committable "d4" 990
    ∷ []

placed :
    choose_placements tie "cid" 50 nodes [] 0 0 load (policy 2)
    ≡ ok (
        node "a" committable "d1" 100
        ∷ node "c" committable "d2" 300
        ∷ node "e" best_effort "d3" 400
        ∷ [])
unfolding choose_placements ◌>>=◌ ◌>>◌ validate choose candidates eligible node_score held_domains
    sort insert of_class exceeds fill_committable fill_extra pop_domain_preferred
    node_failure_domain
placed = refl

-- More committable replicas than replicas.
refused : choose_placements tie "cid" 50 nodes [] 0 0 load (policy 4) ≡ exception
unfolding choose_placements ◌>>=◌ ◌>>◌ validate
refused = refl

choose_placements-IsChoice_example :
    Ensures
      (All (IsChoice nodes ("a" ∷ []) (λ n. eligible n 50 (load.reserved n.node_id) (policy 2))))
      (choose_placements tie "cid" 50 nodes ("a" ∷ []) 1 1 load (policy 2))
choose_placements-IsChoice_example =
    choose_placements-IsChoice tie "cid" 50 nodes ("a" ∷ []) 1 1 load (policy 2)

choose_placements-IsEnough_example :
    (chosen : List Node) × (choose_placements tie "cid" 50 nodes ("a" ∷ []) 1 1 load (policy 2)
      ≡ ok chosen)
    × IsEnough
        (policy 2)
        1
        1
        (count_free
          (λ n. eligible n 50 (load.reserved n.node_id) (policy 2))
          ("a" ∷ [])
          committable
          nodes)
        chosen
choose_placements-IsEnough_example =
    choose_placements-IsEnough tie "cid" 50 nodes ("a" ∷ []) 1 1 load (policy 2) (omega arith)
      (omega arith)
