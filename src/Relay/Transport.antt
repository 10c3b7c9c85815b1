-- ===== src/Relay/Transport.antt =====
-- tep/hb_tep_relay.py: FailoverTepTransport.__call__. A call of a path either answers or fails with an
-- error that is caught (TimeoutError, RelayError, OSError) or another one. `clock` gives the readings of
-- the clock before the relay attempts; times are milliseconds.
pub mod Failover
use node_installer.Prelude.{
  ℕ, zero, suc, ◌+◌, ◌-◌, ◌≤◌, String, ◌≡◌, refl, Bool, true, false, ◌||◌, Option, none, some, List,
  [], ◌∷◌, length, leb, min, eq_iff, subst, contains, take, ◌++◌, ◌≢◌, ◌⊎◌, if◌then◌else◌, arith,
  ◌==◌, Bool-cases, inl, inr, eq_refl, ◌<◌, ap,
}
use node_installer.Text.{is_empty}
use node_installer.Outcome.{Outcome, ok, exception}

pub data Attempt : Type 0 where
  answered : List ℕ → Attempt
  failed : Attempt
  crashed : Attempt

-- `last_path` and `last_relay_peer_id`; `unset` is their value at first.
pub data Via : Type 0 where
  unset : Via
  direct : Via
  relay : String → Via
  nowhere : Via

pub data Result : Type 0 where
  response : List ℕ → Result
  timeout : Result
  raised : Result

pub record Transport : Type 0 where
  pub relay_peer_ids : List String
  pub direct_timeout : ℕ
  pub max_relay_attempts : ℕ
  pub last : Via

-- `dict.fromkeys(x for x in ids if x)` after what has been seen.
abbrev pub distinct : List String → List String → List String
distinct seen [] = []
distinct seen (x ∷ xs) =
    if is_empty x || contains seen x then distinct seen xs else x ∷ distinct (x ∷ seen) xs

-- FailoverTepTransport.__init__
unfoldable pub new_transport : List String → ℕ → ℕ → Outcome Transport
new_transport ids direct_timeout max_attempts =
    if leb direct_timeout 0
    then exception
    else ok (record {
      relay_peer_ids = distinct [] ids;
      direct_timeout = direct_timeout;
      max_relay_attempts = max_attempts;
      last = unset;
    })

-- What a call comes to, and the relays that it tried.
pub record Sent : Type 0 where
  pub result : Result
  pub last : Via
  pub tried : List String

abbrev pub given_up : Sent
given_up = record { result = timeout; last = nowhere; tried = [] }

abbrev pub after_relay : Via → String → Attempt → Sent → Sent
after_relay before p (answered r) rest = record {
  result = response r;
  last = relay p;
  tried = p ∷ [];
}
after_relay before p crashed rest = record { result = raised; last = before; tried = p ∷ [] }
after_relay before p failed rest = record rest { tried = p ∷ rest.tried }

module _ (ask : String → ℕ → Attempt) (clock : ℕ → ℕ) (started budget : ℕ) (before : Via) where
  -- The loop over the relays; `left` is how many attempts may follow, `n` how many were made.
  unfoldable pub relays : ℕ → ℕ → List String → Sent
  relays left n [] = given_up
  relays zero n (p ∷ ps) = given_up
  relays (suc left) n (p ∷ ps) =
      let rest = relays left (n + 1) ps in
      let elapsed = clock n - started in
      if leb budget elapsed then given_up else after_relay before p (ask p (budget - elapsed)) rest

abbrev pub after_direct : Via → Attempt → Sent → Sent
after_direct before (answered r) rest = record { result = response r; last = direct; tried = [] }
after_direct before crashed rest = record { result = raised; last = before; tried = [] }
after_direct before failed rest = rest

-- FailoverTepTransport.__call__
unfoldable pub call : (ℕ → Attempt) → (String → ℕ → Attempt) → (ℕ → ℕ) → ℕ → ℕ → Transport → Sent
call send ask clock started budget t =
    if leb budget 0
    then record { result = timeout; last = t.last; tried = [] }
    else after_direct t.last (send (min t.direct_timeout budget))
        (relays ask clock started budget t.last t.max_relay_attempts 0 t.relay_peer_ids)
