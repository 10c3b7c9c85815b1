-- ===== src/Placement/Eligibility.antt =====
-- replication/hb_replication_policy.py: which nodes are chosen.
use node_installer.Prelude.{
  Among, ◌==◌, ◌-◌, ℕ, zero, suc, String, ◌≡◌, refl, inl, inr, Bool, true, false, ◌||◌, Option,
  none, some, List, [], ◌∷◌, contains, All, All-append, or-false, Bool-cases, Option-cases, subst,
  leb, length,
}
use node_installer.Text.{is_empty}
use node_installer.Outcome.{Ensures, Ensures-then, Ensures-ok}
use node_installer.Placement.{
  PlacementPolicy, Node, Load, Score, Scored, eligible, candidates, insert, sort, of_class,
  keep_first, or_head, pop_new, pop_domain_preferred, node_failure_domain, node_score, held_domains,
  Picks, pick, fill_committable, fill_extra, fill_pool, fill_pools, choose, choose_placements,
  committable, best_effort, exceeds,
}

-- A node that may get a new replica: in the registry, with an id, without a replica, and eligible.
pub record IsChoice (ns : List Node) (held : List String) (fits : Node → Bool) (n : Node)
    : Type 0 where
  pub among : Among n ns
  pub named : is_empty n.node_id ≡ false
  pub new : contains held n.node_id ≡ false
  pub fit : fits n ≡ true

module _ (Q : Node → Type 0) where
  abbrev pub AllNodes : List Scored → Type 0
  AllNodes = All (λ x. Q x.node)

  -- What is popped and what is left.
  abbrev pub Popped : Option (Scored × List Scored) → Type 0
  Popped none = Unit
  Popped (some (x, rest)) = Q x.node × AllNodes rest

  insert-All : (x : Scored) (xs : List Scored) → Q x.node → AllNodes xs → AllNodes (insert x xs)
  unfolding insert
  insert-All x [] qx qs = (qx, tt)
  insert-All x (y ∷ ys) qx qs = elim (Bool-cases (exceeds y.score x.score)) [
    | inl e ↦ rw e (qs.0, insert-All x ys qx qs.1)
    | inr e ↦ rw e (qx, qs)
  ]

  pub sort-All : (xs : List Scored) → AllNodes xs → AllNodes (sort xs)
  unfolding sort
  sort-All [] q = tt
  sort-All (x ∷ xs) q = insert-All x (sort xs) q.0 (sort-All xs q.1)

  of_class-All : (cls : String) (xs : List Scored) → AllNodes xs → AllNodes (of_class cls xs)
  unfolding of_class
  of_class-All cls [] q = tt
  of_class-All cls (x ∷ xs) q =
      let rest = of_class-All cls xs q.1 in
      elim (Bool-cases (x.node.capacity_class == cls)) [
        | inl e ↦ rw e (q.0, rest)
        | inr e ↦ rw e rest
      ]

  keep_first-Popped :
      (x : Scored) (o : Option (Scored × List Scored))
      → Q x.node
      → Popped o
      → Popped (keep_first x o)
  keep_first-Popped x none qx q = tt
  keep_first-Popped x (some (y, rest)) qx q = (q.0, (qx, q.1))

  or_head-Popped :
      (o : Option (Scored × List Scored)) (xs : List Scored)
      → Popped o
      → AllNodes xs
      → Popped (or_head o xs)
  or_head-Popped none [] q qs = tt
  or_head-Popped none (x ∷ xs) q qs = qs
  or_head-Popped (some p) xs q qs = q

  pop_new-Popped :
      (occupied : List String) (xs : List Scored) → AllNodes xs → Popped (pop_new occupied xs)
  unfolding pop_new
  pop_new-Popped occupied [] q = tt
  pop_new-Popped occupied (x ∷ xs) q =
      let rest = keep_first-Popped x (pop_new occupied xs) q.0 (pop_new-Popped occupied xs q.1) in
      elim (Bool-cases (contains occupied (node_failure_domain x.node))) [
        | inl e ↦ rw e rest
        | inr e ↦ rw e q
      ]

  pub pop-Popped :
      (occupied : List String) (xs : List Scored)
      → AllNodes xs
      → Popped (pop_domain_preferred occupied xs)
  pop-Popped occupied xs q =
      unfold pop_domain_preferred in or_head-Popped _ xs (pop_new-Popped occupied xs q) q

  pick-All : (n : Node) (s : Picks) → Q n → All Q s.chosen → All Q (pick n s).chosen
  pick-All n s qn qs = All-append Q s.chosen (n ∷ []) qs (qn, tt)

  fill_committable-All :
      (need : ℕ) (pool : List Scored) (s : Picks)
      → AllNodes pool
      → All Q s.chosen
      → All Q (fill_committable need pool s).0.chosen × AllNodes (fill_committable need pool s).1
  unfolding fill_committable
  fill_committable-All zero pool s qp qs = (qs, qp)
  fill_committable-All (suc need) pool s qp qs =
      elim (Option-cases (pop_domain_preferred s.occupied pool)) [
        | inl e ↦ rw (e, fill_committable) (qs, qp)
        | inr ((x, rest), e) ↦
            let h = subst Popped e (pop-Popped s.occupied pool qp) in
            rw (e, fill_committable)
              (fill_committable-All need rest (pick x.node s) h.1 (pick-All x.node s h.0 qs))
      ]

  fill_extra-All :
      (fuel : ℕ) (pool : List Scored) (s : Picks)
      → AllNodes pool
      → All Q s.chosen
      → All Q (fill_extra fuel pool s).chosen
  unfolding fill_extra
  fill_extra-All zero pool s qp qs = qs
  fill_extra-All (suc fuel) pool s qp qs = elim (Bool-cases (leb s.need_total 0)) [
    | inl e ↦ rw (e, fill_extra) qs
    | inr e ↦ elim (Option-cases (pop_domain_preferred s.occupied pool)) [
      | inl none_left ↦ rw (e, none_left, fill_extra) qs
      | inr ((x, rest), popped) ↦
          let h = subst Popped popped (pop-Popped s.occupied pool qp) in
          elim (Bool-cases (contains s.excluded x.node.node_id)) [
            | inl known ↦ rw (e, popped, known, fill_extra) (fill_extra-All fuel rest s h.1 qs)
            | inr new ↦
                rw (e, popped, new, fill_extra)
                  (fill_extra-All fuel rest (pick x.node s) h.1 (pick-All x.node s h.0 qs))
          ]
    ]
  ]

  fill_pools-All :
      (prefer : Bool) (edge : List Scored) (p : Picks × List Scored)
      → AllNodes edge
      → All Q p.0.chosen × AllNodes p.1
      → All Q (fill_pools prefer edge p).chosen
  fill_pools-All true edge (s, left) qe h =
      fill_extra-All (length left) left (fill_pool edge s) h.1
        (fill_extra-All (length edge) edge s qe h.0)
  fill_pools-All false edge (s, left) qe h =
      fill_extra-All (length edge) edge (fill_pool left s) qe
        (fill_extra-All (length left) left s h.1 h.0)

  choose-All :
      (policy : PlacementPolicy) (have_committable have_total : ℕ) (current held : List String)
      (pool edge : List Scored)
      → AllNodes pool
      → AllNodes edge
      → All Q (choose policy have_committable have_total current held pool edge)
  unfolding choose
  choose-All policy have_committable have_total current held pool edge qp qe =
      fill_pools-All policy.prefer_edge_for_extra edge _ qe
        (fill_committable-All (policy.committable_m - have_committable) pool _ qp tt)

module _ (ns : List Node) (held : List String) (fits : Node → Bool) where
  candidates-All :
      (score : Node → Score) (ms : List Node)
      → All (λ m. Among m ns) ms
      → All (λ x. IsChoice ns held fits x.node) (candidates score fits held ms)
  unfolding candidates
  candidates-All score [] h = tt
  candidates-All score (m ∷ ms) h =
      let rest = candidates-All score ms h.1 in
      elim (Bool-cases (is_empty m.node_id || contains held m.node_id)) [
        | inl e ↦ rw e rest
        | inr e ↦
            let (named, new) = or-false (is_empty m.node_id) (contains held m.node_id) e in
            elim (Bool-cases (fits m)) [
              | inl fit ↦
                  rw (e, fit) (record { among = h.0; named = named; new = new; fit = fit }, rest)
              | inr unfit ↦ rw (e, unfit) rest
            ]
      ]

All-Among : (ns ms : List Node) → ((m : Node) → Among m ms → Among m ns) → All (λ m. Among m ns) ms
All-Among ns [] h = tt
All-Among ns (m ∷ ms) h = (h m (inl refl), All-Among ns ms (λ k p. h k (inr p)))

-- Every node that `choose_placements` returns is one of the given nodes, has an id that is not empty and
-- not among the current replicas, and passed `eligible` with the bytes reserved on it.
pub choose_placements-IsChoice :
    (tiebreak : String → String → ℕ) (cid : String) (object_size : ℕ) (nodes : List Node)
    (current : List String) (have_committable have_total : ℕ) (load : Load)
    (policy : PlacementPolicy)
    → Ensures
        (All
          (IsChoice nodes current (λ n. eligible n object_size (load.reserved n.node_id) policy)))
        (choose_placements tiebreak cid object_size nodes current have_committable have_total load
          policy)
unfolding choose_placements
choose_placements-IsChoice tiebreak cid object_size nodes current have_committable have_total load
      policy =
    let found =
      candidates-All nodes current (λ n. eligible n object_size (load.reserved n.node_id) policy)
        (λ n. node_score tiebreak cid n load policy) nodes (All-Among nodes nodes (λ m p. p)) in
    Ensures-then _ _ λ _. Ensures-ok _ (
      choose-All _ policy have_committable have_total current (held_domains current nodes) _ _
        (sort-All _ _ (of_class-All _ committable _ found))
        (sort-All _ _ (of_class-All _ best_effort _ found)))
