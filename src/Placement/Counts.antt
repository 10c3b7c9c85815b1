-- ===== src/Placement/Counts.antt =====
-- replication/hb_replication_policy.py: how many nodes are chosen.
use node_installer.Prelude.{
  ℕ, suc, ◌+◌, String, ◌≡◌, refl, ap, ◌∙◌, inl, inr, Bool, not, ◌&&◌, ◌||◌, Option, none, some,
  List, [], ◌∷◌, ◌++◌, length, contains, Bool-cases, if◌then◌else◌, arith, ◌==◌,
}
use node_installer.Text.{is_empty}
use node_installer.Placement.{
  Node, Score, Scored, node_failure_domain, candidates, exceeds, insert, sort, of_class, keep_first,
  or_head, pop_new, pop_domain_preferred,
}

-- How many nodes of a list are of a class.
abbrev pub count_class : String → List Node → ℕ
count_class cls [] = 0
count_class cls (n ∷ ns) =
    let rest = count_class cls ns in if n.capacity_class == cls then suc rest else rest

pub count_class-append :
    (cls : String) (xs ys : List Node)
    → count_class cls (xs ++ ys) ≡ count_class cls xs + count_class cls ys
count_class-append cls [] ys = omega arith
count_class-append cls (x ∷ xs) ys = let rest = count_class-append cls xs ys in ground (arith, rest)

-- How many nodes may get a replica, counted in the registry.
abbrev pub count_free : (Node → Bool) → List String → String → List Node → ℕ
count_free fits current cls [] = 0
count_free fits current cls (n ∷ ns) =
    let rest = count_free fits current cls ns in
    if not (is_empty n.node_id || contains current n.node_id) && (fits n && n.capacity_class == cls)
    then suc rest
    else rest

pub length-candidates :
    (score : Node → Score) (fits : Node → Bool) (current : List String) (cls : String)
    (ns : List Node)
    → length (of_class cls (candidates score fits current ns)) ≡ count_free fits current cls ns
unfolding candidates of_class
length-candidates score fits current cls [] = refl
length-candidates score fits current cls (n ∷ ns) =
    let rest = length-candidates score fits current cls ns in
    elim (Bool-cases (is_empty n.node_id || contains current n.node_id)) [
      | inl e ↦ rw e rest
      | inr e ↦ elim (Bool-cases (fits n)) [
        | inr unfit ↦ rw (e, unfit) rest
        | inl fit ↦ elim (Bool-cases (n.capacity_class == cls)) [
          | inl same ↦ rw (e, fit, same) (ap suc rest)
          | inr other ↦ rw (e, fit, other) rest
        ]
      ]
    ]

length-insert : (x : Scored) (xs : List Scored) → length (insert x xs) ≡ suc (length xs)
unfolding insert
length-insert x [] = refl
length-insert x (y ∷ ys) = elim (Bool-cases (exceeds y.score x.score)) [
  | inl e ↦ rw e (ap suc (length-insert x ys))
  | inr e ↦ rw e refl
]

pub length-sort : (xs : List Scored) → length (sort xs) ≡ length xs
unfolding sort
length-sort [] = refl
length-sort (x ∷ xs) = length-insert x (sort xs) ∙ ap suc (length-sort xs)

abbrev pub OneLess : ℕ → Option (Scored × List Scored) → Type 0
OneLess n none = n ≡ 0
OneLess n (some (x, rest)) = n ≡ suc (length rest)

abbrev NoneOrLess : ℕ → Option (Scored × List Scored) → Type 0
NoneOrLess n none = Unit
NoneOrLess n (some p) = OneLess n (some p)

keep_first-NoneOrLess :
    (n : ℕ) (x : Scored) (o : Option (Scored × List Scored))
    → NoneOrLess n o
    → NoneOrLess (suc n) (keep_first x o)
keep_first-NoneOrLess n x none h = tt
keep_first-NoneOrLess n x (some (y, rest)) h = ap suc h

pop_new-NoneOrLess :
    (occupied : List String) (xs : List Scored) → NoneOrLess (length xs) (pop_new occupied xs)
unfolding pop_new
pop_new-NoneOrLess occupied [] = tt
pop_new-NoneOrLess occupied (x ∷ xs) =
    let rest = keep_first-NoneOrLess _ x (pop_new occupied xs) (pop_new-NoneOrLess occupied xs) in
    elim (Bool-cases (contains occupied (node_failure_domain x.node))) [
      | inl e ↦ rw e rest
      | inr e ↦ rw e refl
    ]

or_head-OneLess :
    (o : Option (Scored × List Scored)) (xs : List Scored)
    → NoneOrLess (length xs) o
    → OneLess (length xs) (or_head o xs)
or_head-OneLess none [] h = refl
or_head-OneLess none (x ∷ xs) h = refl
or_head-OneLess (some p) xs h = h

-- A node is popped whenever there is one.
pub pop-OneLess :
    (occupied : List String) (xs : List Scored)
    → OneLess (length xs) (pop_domain_preferred occupied xs)
pop-OneLess occupied xs =
    unfold pop_domain_preferred in or_head-OneLess _ xs (pop_new-NoneOrLess occupied xs)
