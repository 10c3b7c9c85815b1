-- ===== src/Relay/Transport/Failover.antt =====
-- tep/hb_tep_relay.py: the paths that FailoverTepTransport tries.
use node_installer.Prelude.{
  ℕ, zero, suc, ◌+◌, ◌-◌, ◌≤◌, String, ◌≡◌, refl, Bool, true, false, ◌||◌, List, [], ◌∷◌, length,
  leb, min, eq_iff, subst, contains, take, ◌++◌, ◌≢◌, ◌⊎◌, arith, ◌==◌, Bool-cases, inl, inr, ◌<◌,
  ap,
}
use node_installer.Relay.Transport.{
  Attempt, answered, failed, crashed, Via, direct, relay, Result, response, timeout, raised,
  Transport, Sent, given_up, after_relay, relays, after_direct, call,
}

-- The relays tried are the first ones of the list, no more than allowed. The bytes of a response are what
-- the direct path answered, with no relay tried, or what the last relay tried answered when it was given
-- some time within the budget. `sent` is what came of the direct path.
pub record IsSent (sent : Attempt) (ask : String → ℕ → Attempt) (budget : ℕ) (ids : List String)
    (limit : ℕ) (s : Sent) : Type 0 where
  pub first : (rest : List String) × (s.tried ++ rest ≡ ids)
  pub few : length s.tried ≤ limit
  pub via :
      (r : List ℕ)
      → s.result ≡ response r
      → ((s.last ≡ direct) × (s.tried ≡ []) × (sent ≡ answered r))
        ⊎ ((p : String) × (init : List String) × (s.last ≡ relay p)
            × (s.tried ≡ init ++ p ∷ [])
            × ((b : ℕ) × (b ≤ budget) × (ask p b ≡ answered r)))

module _ (sent : Attempt) (ask : String → ℕ → Attempt) (budget : ℕ) where
  given_up-IsSent : (ids : List String) (limit : ℕ) → IsSent sent ask budget ids limit given_up
  given_up-IsSent ids limit = record { first = (ids, refl); few = omega arith; via = λ r e. cc }

  after_relay-IsSent :
      (before : Via) (p : String) (ps : List String) (limit given : ℕ) (a : Attempt) (s : Sent)
      → given ≤ budget
      → ask p given ≡ a
      → IsSent sent ask budget ps limit s
      → ((r : List ℕ) → s.result ≡ response r → s.last ≢ direct)
      → IsSent sent ask budget (p ∷ ps) (suc limit) (after_relay before p a s)
  after_relay-IsSent before p ps limit given (answered r) s within asked h relayed = record {
    first = (ps, refl);
    few = omega arith;
    via = λ q e. inr (p, [], refl, refl, (given, within, ground arith));
  }
  after_relay-IsSent before p ps limit given crashed s within asked h relayed = record {
    first = (ps, refl);
    few = omega arith;
    via = λ q e. cc;
  }
  after_relay-IsSent before p ps limit given failed s within asked h relayed = record {
    first = (h.first.0, ap (λ l. p ∷ l) h.first.1);
    few = omega (arith, h.few);
    via = λ q e. elim (h.via q e) [
      | inl (same, none_tried, _) ↦ absurd (relayed q e same)
      | inr (k, init, last, tried, from) ↦ inr (k, p ∷ init, last, ap (λ l. p ∷ l) tried, from)
    ];
  }

after_relay-relayed :
    (before : Via) (p : String) (a : Attempt) (s : Sent)
    → ((r : List ℕ) → s.result ≡ response r → s.last ≢ direct)
    → (r : List ℕ) → (after_relay before p a s).result ≡ response r
    → (after_relay before p a s).last ≢ direct
after_relay-relayed before p (answered q) s h r e d = cc
after_relay-relayed before p crashed s h r e d = cc
after_relay-relayed before p failed s h r e d = h r e d

leb-lt : (c s b : ℕ) → 0 < b → c < s + b → leb b (c - s) ≡ false
leb-lt c s b positive soon = ground arith

leb-zero : (n : ℕ) → 0 < n → leb n 0 ≡ false
leb-zero n h = ground arith

or-second : (a b : Bool) → a ≡ false → (a || b) ≡ true → b ≡ true
or-second a b h e = ground arith

module _ (ask : String → ℕ → Attempt) (clock : ℕ → ℕ) (started budget : ℕ) (before : Via) where
  relays-relayed :
      (left n : ℕ) (ids : List String) (r : List ℕ)
      → (relays ask clock started budget before left n ids).result ≡ response r
      → (relays ask clock started budget before left n ids).last ≢ direct
  unfolding relays
  relays-relayed left n [] r = λ e d. cc
  relays-relayed zero n (p ∷ ps) r = λ e d. cc
  relays-relayed (suc left) n (p ∷ ps) r = elim (Bool-cases (leb budget (clock n - started))) [
    | inl over ↦ rw over (λ e d. cc)
    | inr time ↦ rw time (
        after_relay-relayed before p (ask p (budget - (clock n - started))) _
          (relays-relayed left (n + 1) ps) r)
  ]

  relays-IsSent :
      (sent : Attempt) (left n : ℕ) (ids : List String)
      → IsSent sent ask budget ids left (relays ask clock started budget before left n ids)
  unfolding relays
  relays-IsSent sent left n [] = given_up-IsSent sent ask budget [] left
  relays-IsSent sent zero n (p ∷ ps) = given_up-IsSent sent ask budget (p ∷ ps) zero
  relays-IsSent sent (suc left) n (p ∷ ps) = elim (Bool-cases (leb budget (clock n - started))) [
    | inl over ↦ rw over (given_up-IsSent sent ask budget (p ∷ ps) (suc left))
    | inr time ↦ rw time (
        after_relay-IsSent sent ask budget before p ps left (budget - (clock n - started)) _ _
          (omega arith) refl (relays-IsSent sent left (n + 1) ps) (relays-relayed left (n + 1) ps))
  ]

  -- The relay answers whatever time it is given.
  abbrev pub Answers : String → Type 0
  Answers p = (b : ℕ) → (r : List ℕ) × (ask p b ≡ answered r)

  -- No relay fails with an error that is not caught.
  abbrev pub Calm : Type 0
  Calm = (p : String) (b : ℕ) → ask p b ≢ crashed

  abbrev IsAnswered : Sent → Type 0
  IsAnswered s = (r : List ℕ) × (s.result ≡ response r)

  after_relay-IsAnswered :
      (p : String) (a : Attempt) (s : Sent)
      → a ≢ crashed
      → ((a ≡ failed) → IsAnswered s)
      → IsAnswered (after_relay before p a s)
  after_relay-IsAnswered p (answered r) s h k = (r, refl)
  after_relay-IsAnswered p failed s h k = k refl
  after_relay-IsAnswered p crashed s h k = absurd (h refl)

  not_failed : (p q : String) (b : ℕ) → Answers p → ask q b ≡ failed → (q == p) ≡ false
  not_failed p q b answers lost = elim (Bool-cases (q == p)) [
    | inr e ↦ e
    | inl e ↦
        let same : q ≡ p = ground (arith, eq_iff q p) in
        let (r, got) = answers b in
        let lost_p : ask p b ≡ failed = subst (λ k. ask k b ≡ failed) same lost in cc
  ]

  relays-IsAnswered :
      (p : String) (left n : ℕ) (ids : List String)
      → 0 < budget
      → Calm
      → ((i : ℕ) → clock i < started + budget)
      → Answers p
      → contains (take left ids) p ≡ true
      → IsAnswered (relays ask clock started budget before left n ids)
  unfolding relays
  relays-IsAnswered p zero n [] positive calm quick answers here = cc
  relays-IsAnswered p (suc left) n [] positive calm quick answers here = cc
  relays-IsAnswered p zero n (q ∷ qs) positive calm quick answers here = cc
  relays-IsAnswered p (suc left) n (q ∷ qs) positive calm quick answers here =
      let soon = quick n in
      let time : leb budget (clock n - started) ≡ false =
        leb-lt (clock n) started budget positive soon in
      let given = budget - (clock n - started) in
      rw time (
        after_relay-IsAnswered q (ask q given) _ (calm q given) λ lost.
          relays-IsAnswered p left (n + 1) qs positive calm quick answers (
            or-second (q == p) (contains (take left qs) p) (not_failed p q given answers lost)
              here))

module _ (ask : String → ℕ → Attempt) (budget : ℕ) (ids : List String) (limit : ℕ) where
  none_tried :
      (sent : Attempt) (v : Via) (x : Result)
      → ((r : List ℕ) → x ≡ response r → (v ≡ direct) × (sent ≡ answered r))
      → IsSent sent ask budget ids limit (record { result = x; last = v; tried = [] })
  none_tried sent v x h = record {
    first = (ids, refl);
    few = omega arith;
    via = λ r e. inl ((h r e).0, refl, (h r e).1);
  }

  after_direct-IsSent :
      (before : Via) (a : Attempt) (s : Sent)
      → IsSent a ask budget ids limit s
      → IsSent a ask budget ids limit (after_direct before a s)
  after_direct-IsSent before (answered r) s h =
      none_tried (answered r) direct (response r) (λ q e. (refl, ground arith))
  after_direct-IsSent before crashed s h = none_tried crashed before raised (λ q e. cc)
  after_direct-IsSent before failed s h = h

-- Every call tries the first relays of the list, no more than allowed. The bytes of a response are what the
-- direct path answered, with no relay tried, or what the last relay tried answered when it was given some
-- time within the budget; the transport then names this path as its last one.
pub call-IsSent :
    (send : ℕ → Attempt) (ask : String → ℕ → Attempt) (clock : ℕ → ℕ) (started budget : ℕ)
    (t : Transport)
    → IsSent
        (send (min t.direct_timeout budget))
        ask
        budget
        t.relay_peer_ids
        t.max_relay_attempts
        (call send ask clock started budget t)
unfolding call
call-IsSent send ask clock started budget t = elim (Bool-cases (leb budget 0)) [
  | inl over ↦ rw over (none_tried _ _ _ _ _ t.last timeout (λ r e. cc))
  | inr time ↦ rw time (
      after_direct-IsSent ask budget _ _ t.last (send (min t.direct_timeout budget)) _
        (relays-IsSent ask clock started budget t.last _ _ 0 _))
]

-- A relay among the first that may be tried is enough: if the direct path fails, this relay answers whatever
-- time it is given, no relay raises an error that is not caught, and the clock stays within the budget, then
-- the call returns a response.
pub call-answered :
    (send : ℕ → Attempt) (ask : String → ℕ → Attempt) (clock : ℕ → ℕ) (started budget : ℕ)
    (t : Transport) (p : String)
    → 0 < budget
    → send (min t.direct_timeout budget) ≡ failed
    → Answers ask clock started budget t.last p
    → Calm ask clock started budget t.last
    → ((i : ℕ) → clock i < started + budget)
    → contains (take t.max_relay_attempts t.relay_peer_ids) p ≡ true
    → (r : List ℕ) × ((call send ask clock started budget t).result ≡ response r)
unfolding call
call-answered send ask clock started budget t p positive lost answers calm quick here =
    rw (leb-zero budget positive, lost)
      (relays-IsAnswered ask clock started budget t.last p t.max_relay_attempts 0 t.relay_peer_ids
        positive calm quick answers here)
