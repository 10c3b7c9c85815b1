-- ===== src/Placement/Filling.antt =====
-- replication/hb_replication_policy.py: the counts of the two loops that choose nodes.
use node_installer.Prelude.{
  ℕ, zero, suc, ◌+◌, ◌-◌, ◌≤◌, min, max, String, ◌≡◌, refl, ◌∙◌, inl, inr, Bool, true, false, List,
  [], ◌∷◌, length, length-append, contains, Bool-cases, Option-cases, leb, arith, ◌==◌, subst,
  eq_iff, eq_refl,
}
use node_installer.Outcome.{ok, ◌>>◌, ◌>>=◌}
use node_installer.Placement.{
  PlacementPolicy, Node, Load, Scored, eligible, node_score, candidates, sort, of_class,
  pop_domain_preferred, Picks, pick, fill_committable, fill_extra, fill_pool, fill_pools,
  held_domains, choose, choose_placements, committable, best_effort, validate,
}
use node_installer.Placement.Eligibility.{AllNodes, Popped, sort-All, pop-Popped}
use node_installer.Placement.Counts.{
  count_class, count_class-append, count_free, length-candidates, length-sort, OneLess, pop-OneLess,
}

abbrev IsClass : String → Node → Type 0
IsClass cls n = n.capacity_class ≡ cls

of_class-IsClass : (cls : String) (xs : List Scored) → AllNodes (IsClass cls) (of_class cls xs)
unfolding of_class
of_class-IsClass cls [] = tt
of_class-IsClass cls (x ∷ xs) =
    let rest = of_class-IsClass cls xs in
    elim (Bool-cases (x.node.capacity_class == cls)) [
      | inl e ↦ rw e (ground (arith, eq_iff x.node.capacity_class cls), rest)
      | inr e ↦ rw e rest
    ]

-- What `k` picks of a class do.
record Added (cls : String) (k : ℕ) (s t : Picks) : Type 0 where
  total : length t.chosen ≡ length s.chosen + k
  of_cls : count_class cls t.chosen ≡ count_class cls s.chosen + k
  need : t.need_total ≡ s.need_total - k

pick-Added : (cls : String) (n : Node) (s : Picks) → IsClass cls n → Added cls 1 s (pick n s)
pick-Added cls n s h = record {
  total = length-append s.chosen (n ∷ []);
  of_cls = count_class-append cls s.chosen (n ∷ []) ∙ rw (h, eq_refl cls) refl;
  need = refl;
}

Added-trans :
    (cls : String) (k : ℕ) (s t u : Picks)
    → Added cls 1 s t
    → Added cls k t u
    → Added cls (suc k) s u
Added-trans cls k s t u p q = record {
  total = omega (arith, p.total, q.total);
  of_cls = omega (arith, p.of_cls, q.of_cls);
  need = omega (arith, p.need, q.need);
}

Added-none : (cls : String) (s : Picks) → Added cls 0 s s
Added-none cls s = record { total = omega arith; of_cls = omega arith; need = omega arith }

fill_committable-Added :
    (cls : String) (need : ℕ) (pool : List Scored) (s : Picks)
    → AllNodes (IsClass cls) pool
    → Added cls (min need (length pool)) s (fill_committable need pool s).0
unfolding fill_committable
fill_committable-Added cls zero pool s h =
    subst (λ k. Added cls k s s) (omega arith) (Added-none cls s)
fill_committable-Added cls (suc need) pool s h =
    elim (Option-cases (pop_domain_preferred s.occupied pool)) [
      | inl e ↦
          let empty : length pool ≡ 0 =
            subst (OneLess (length pool)) e (pop-OneLess s.occupied pool) in
          rw (e, fill_committable) (subst (λ k. Added cls k s s) (omega arith) (Added-none cls s))
      | inr ((x, rest), e) ↦
          let less : length pool ≡ suc (length rest) =
            subst (OneLess (length pool)) e (pop-OneLess s.occupied pool) in
          let popped =
            subst (Popped (IsClass cls)) e (pop-Popped (IsClass cls) s.occupied pool h) in
          rw (e, fill_committable)
            (subst (λ k. Added cls k s (fill_committable need rest (pick x.node s)).0) (omega arith)
              (Added-trans cls _ s (pick x.node s) _ (pick-Added cls x.node s popped.0)
                (fill_committable-Added cls need rest (pick x.node s) popped.1)))
    ]

-- What the loop over the extra nodes keeps.
record Extended (cls : String) (s t : Picks) : Type 0 where
  total : length t.chosen + t.need_total ≡ length s.chosen + s.need_total
  of_cls : count_class cls s.chosen ≤ count_class cls t.chosen

Extended-trans :
    (cls : String) (s t u : Picks) → Extended cls s t → Extended cls t u → Extended cls s u
Extended-trans cls s t u p q = record {
  total = omega (arith, p.total, q.total);
  of_cls = omega (arith, p.of_cls, q.of_cls);
}

Extended-refl : (cls : String) (s : Picks) → Extended cls s s
Extended-refl cls s = record { total = refl; of_cls = omega arith }

pick-Extended :
    (cls : String) (n : Node) (s : Picks) → leb s.need_total 0 ≡ false → Extended cls s (pick n s)
pick-Extended cls n s h = record {
  total = ground (arith, length-append s.chosen (n ∷ []));
  of_cls = omega (arith, count_class-append cls s.chosen (n ∷ []));
}

fill_extra-Extended :
    (cls : String) (fuel : ℕ) (pool : List Scored) (s : Picks)
    → Extended cls s (fill_extra fuel pool s)
unfolding fill_extra
fill_extra-Extended cls zero pool s = Extended-refl cls s
fill_extra-Extended cls (suc fuel) pool s = elim (Bool-cases (leb s.need_total 0)) [
  | inl e ↦ rw (e, fill_extra) (Extended-refl cls s)
  | inr e ↦ elim (Option-cases (pop_domain_preferred s.occupied pool)) [
    | inl gone ↦ rw (e, gone, fill_extra) (Extended-refl cls s)
    | inr ((x, rest), popped) ↦ elim (Bool-cases (contains s.excluded x.node.node_id)) [
      | inl known ↦ rw (e, popped, known, fill_extra) (fill_extra-Extended cls fuel rest s)
      | inr new ↦
          rw (e, popped, new, fill_extra)
            (Extended-trans cls s (pick x.node s) _ (pick-Extended cls x.node s e)
              (fill_extra-Extended cls fuel rest (pick x.node s)))
    ]
  ]
]

fill_pools-Extended :
    (cls : String) (prefer : Bool) (edge : List Scored) (p : Picks × List Scored)
    → Extended cls p.0 (fill_pools prefer edge p)
fill_pools-Extended cls true edge (s, left) =
    Extended-trans cls s (fill_pool edge s) _ (fill_extra-Extended cls (length edge) edge s)
      (fill_extra-Extended cls (length left) left (fill_pool edge s))
fill_pools-Extended cls false edge (s, left) =
    Extended-trans cls s (fill_pool left s) _ (fill_extra-Extended cls (length left) left s)
      (fill_extra-Extended cls (length edge) edge (fill_pool left s))

-- How many nodes are chosen: `need` committable ones where there are so many, and no more in all than
-- the policy asks for.
pub record IsEnough (policy : PlacementPolicy) (have_committable have_total free : ℕ)
    (chosen : List Node) : Type 0 where
  pub committables :
      min (policy.committable_m - have_committable) free ≤ count_class committable chosen
  pub limit :
      length chosen
      ≤ max (policy.committable_m - have_committable) (policy.replication_n - have_total)

IsEnough-free :
    (policy : PlacementPolicy) (a b : ℕ) (chosen : List Node) {m n : ℕ}
    → m ≡ n
    → IsEnough policy a b m chosen
    → IsEnough policy a b n chosen
IsEnough-free policy a b chosen e h = subst (λ k. IsEnough policy a b k chosen) e h

choose-IsEnough :
    (policy : PlacementPolicy) (have_committable have_total : ℕ) (current held : List String)
    (pool edge : List Scored)
    → AllNodes (IsClass committable) pool
    → IsEnough policy have_committable have_total
        (length pool)
        (choose policy have_committable have_total current held pool edge)
unfolding choose
choose-IsEnough policy have_committable have_total current held pool edge h =
    let need = policy.committable_m - have_committable in
    let start : Picks = record {
      chosen = [];
      excluded = current;
      occupied = held;
      need_total = policy.replication_n - have_total;
    } in
    let first = fill_committable-Added committable need pool start h in
    let more =
      fill_pools-Extended committable policy.prefer_edge_for_extra edge
        (fill_committable need pool start) in
    record {
      committables = omega (arith, first.of_cls, more.of_cls);
      limit = omega (arith, first.total, first.need, more.total);
    }

validate-ok :
    (policy : PlacementPolicy)
    → 1 ≤ policy.replication_n
    → policy.committable_m ≤ policy.replication_n
    → validate policy ≡ ok tt
unfolding validate
validate-ok policy some_replica fits = ground arith

-- With at least one replica to make, of which no more are committable, `choose_placements` returns, and
-- the nodes chosen include as many committable ones as the policy still needs, or as are free (with an
-- id, no replica, and eligible) if these are fewer; and there are no more of them than the larger of the
-- two needs, for committable and for all replicas.
pub choose_placements-IsEnough :
    (tiebreak : String → String → ℕ) (cid : String) (object_size : ℕ) (nodes : List Node)
    (current : List String) (have_committable have_total : ℕ) (load : Load)
    (policy : PlacementPolicy)
    → 1 ≤ policy.replication_n
    → policy.committable_m ≤ policy.replication_n
    → (chosen : List Node) × (choose_placements tiebreak cid object_size nodes current
          have_committable have_total load policy
        ≡ ok chosen)
      × IsEnough policy have_committable have_total
          (count_free
            (λ n. eligible n object_size (load.reserved n.node_id) policy)
            current
            committable
            nodes)
          chosen
unfolding choose_placements ◌>>◌ ◌>>=◌
choose_placements-IsEnough tiebreak cid object_size nodes current have_committable have_total load
      policy p q =
    let found =
      candidates (λ n. node_score tiebreak cid n load policy)
        (λ n. eligible n object_size (load.reserved n.node_id) policy) current nodes in
    (
      _,
      rw (validate-ok policy p q) refl,
      IsEnough-free policy have_committable have_total _
          (length-sort (of_class committable found)
            ∙ length-candidates _ _ current committable nodes)
          (choose-IsEnough policy have_committable have_total current (held_domains current nodes) _
            (sort (of_class best_effort found))
            (sort-All (IsClass committable) _ (of_class-IsClass committable found))),
    )
