-- ===== src/Relay/Flight.antt =====
-- tep/hb_tep_relay.py: requests of any sources through one policy, in any order of their steps. A request
-- acquires a slot before it is forwarded and releases it when it is over.
use node_installer.Prelude.{
  ℕ, suc, ◌+◌, ◌-◌, ◌≤◌, String, ◌≡◌, refl, inl, inr, Bool, true, false, List, [], ◌∷◌, length, leb,
  Bool-cases, or-false, ◌||◌, contains, ◌==◌, eq_iff, arith, if◌then◌else◌,
}
use node_installer.Outcome.{Outcome, ok}
use node_installer.Relay.{
  Policy, Pending, acquire, release, pending_of, set_pending, remove_pending, decrease,
}

abbrev pub occurrences : String → List String → ℕ
occurrences s [] = 0
occurrences s (x ∷ xs) = let rest = occurrences s xs in if x == s then suc rest else rest

abbrev pub remove_one : String → List String → List String
remove_one s [] = []
remove_one s (x ∷ xs) = let rest = remove_one s xs in if x == s then xs else x ∷ rest

-- A step of one of the requests.
pub data Event : Type 0 where
  enter : String → Event
  leave : String → Event

-- The policy, and the sources of the requests that are being forwarded.
pub record Flight : Type 0 where
  pub policy : Policy
  pub active : List String

abbrev entered : String → Flight → Outcome Policy → Flight
entered s f (ok p) = record { policy = p; active = s ∷ f.active }
entered s f _ = f

-- A request that is not being forwarded has nothing to release.
abbrev left : String → Flight → Bool → Flight
left s f true = record { policy = release s f.policy; active = remove_one s f.active }
left s f false = f

abbrev pub step : Event → Flight → Flight
step (enter s) f = entered s f (acquire s f.policy)
step (leave s) f = left s f (contains f.active s)

abbrev pub run : List Event → Flight → Flight
run [] f = f
run (e ∷ es) f = run es (step e f)

-- The counts are those of the requests in flight, which are within the limits.
pub record IsCounted (f : Flight) : Type 0 where
  pub total : f.policy.pending_total ≡ length f.active
  pub each : (s : String) → pending_of s f.policy.pending_by_source ≡ occurrences s f.active
  pub total_fits : length f.active ≤ f.policy.max_pending
  pub each_fits : (s : String) → occurrences s f.active ≤ f.policy.max_pending_per_source

pub pending_of-set :
    (s t : String) (n : ℕ) (es : List Pending)
    → pending_of t (set_pending s n es) ≡ (if s == t then n else pending_of t es)
unfolding pending_of set_pending
pending_of-set s t n [] = refl
pending_of-set s t n (e ∷ es) =
    ground (arith, pending_of-set s t n es, eq_iff e.source s, eq_iff e.source t, eq_iff s t)

pending_of-remove :
    (s t : String) (es : List Pending)
    → pending_of t (remove_pending s es) ≡ (if s == t then 0 else pending_of t es)
unfolding pending_of remove_pending
pending_of-remove s t [] = ground arith
pending_of-remove s t (e ∷ es) =
    ground (arith, pending_of-remove s t es, eq_iff e.source s, eq_iff e.source t, eq_iff s t)

length-remove_one :
    (s : String) (xs : List String)
    → contains xs s ≡ true
    → length xs ≡ suc (length (remove_one s xs))
length-remove_one s [] h = cc
length-remove_one s (x ∷ xs) h = ground (arith, length-remove_one s xs)

occurrences-remove_one :
    (s t : String) (xs : List String)
    → contains xs s ≡ true
    → occurrences t xs
      ≡ (if s == t then suc (occurrences t (remove_one s xs)) else occurrences t (remove_one s xs))
occurrences-remove_one s t [] h = cc
occurrences-remove_one s t (x ∷ xs) h =
    ground (arith, occurrences-remove_one s t xs, eq_iff x s, eq_iff x t, eq_iff s t)

occurrences-length : (s : String) (xs : List String) → occurrences s xs ≤ length xs
occurrences-length s [] = omega arith
occurrences-length s (x ∷ xs) = ground (arith, occurrences-length s xs)

pub pending_of-decrease :
    (s t : String) (es : List Pending)
    → pending_of t (decrease s (pending_of s es) es)
      ≡ (if s == t then pending_of s es - 1 else pending_of t es)
pending_of-decrease s t es =
    ground
      (arith, pending_of-set s t (pending_of s es - 1) es, pending_of-remove s t es, eq_iff s t)

entered-IsCounted : (s : String) (f : Flight) → IsCounted f → IsCounted (step (enter s) f)
unfolding acquire
entered-IsCounted s f h =
    let n = pending_of s f.policy.pending_by_source in
    elim (Bool-cases
      (leb f.policy.max_pending f.policy.pending_total || leb f.policy.max_pending_per_source n)) [
        | inl full ↦ rw full h
        | inr room ↦
            let (some_total, some_each) =
              or-false (leb f.policy.max_pending f.policy.pending_total)
                (leb f.policy.max_pending_per_source n) room in
            rw room (record {
              total = omega (arith, h.total);
              each = λ t. ground (
                arith,
                pending_of-set s t (n + 1) f.policy.pending_by_source,
                h.each s,
                h.each t,
                eq_iff s t,
              );
              total_fits = ground (arith, h.total);
              each_fits = λ t. ground (arith, h.each s, h.each_fits t, eq_iff s t);
            })
      ]

released-IsCounted :
    (s : String) (f : Flight) → contains f.active s ≡ true → IsCounted f → IsCounted (left s f true)
unfolding release
released-IsCounted s f here h = record {
  total = omega (arith, h.total, length-remove_one s f.active here);
  each = λ t. ground (
    arith,
    pending_of-decrease s t f.policy.pending_by_source,
    occurrences-remove_one s t f.active here,
    h.each s,
    h.each t,
    eq_iff s t,
  );
  total_fits = omega (arith, h.total_fits, length-remove_one s f.active here);
  each_fits = λ t. ground (arith, h.each_fits t, occurrences-remove_one s t f.active here);
}

step-IsCounted : (e : Event) (f : Flight) → IsCounted f → IsCounted (step e f)
step-IsCounted (enter s) f h = entered-IsCounted s f h
step-IsCounted (leave s) f h = elim (Bool-cases (contains f.active s)) [
  | inl here ↦ rw here (released-IsCounted s f here h)
  | inr gone ↦ rw gone h
]

-- In whatever order requests of whatever sources enter and leave, a policy whose counts are those of the
-- requests in flight stays so: the total is their number, the count of each source is the number of its
-- own, and neither goes over its limit.
pub run-IsCounted : (es : List Event) (f : Flight) → IsCounted f → IsCounted (run es f)
run-IsCounted [] f h = h
run-IsCounted (e ∷ es) f h = run-IsCounted es (step e f) (step-IsCounted e f h)
