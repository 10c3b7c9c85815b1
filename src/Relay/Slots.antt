-- ===== src/Relay/Slots.antt =====
-- tep/hb_tep_relay.py: the slot that RelayDispatcher.handle takes.
use node_installer.Prelude.{ℕ, ◌+◌, String, ◌≡◌, refl, Option, List, eq_iff, eq_refl, arith}
use node_installer.Json.{Loaded, Json, Fields}
use node_installer.Outcome.{Outcome, ok, error, exception}
use node_installer.App.Envelope.{Identity}
use node_installer.Relay.{
  Endpoint, Policy, Pending, acquire, release, pending_of, set_pending, decrease,
}
use node_installer.Relay.Flight.{pending_of-set, pending_of-decrease}
use node_installer.Relay.Dispatch.{Forwarded, Incoming, Checked, handle, forwarded, dispatched}

-- Two policies count the same.
pub record IsSame (p q : Policy) : Type 0 where
  pub total : p.pending_total ≡ q.pending_total
  pub each : (s : String) → pending_of s p.pending_by_source ≡ pending_of s q.pending_by_source

same : (p : Policy) → IsSame p p
same p = record { total = refl; each = λ s. refl }

abbrev raised : String → List Pending → List Pending
raised s es = set_pending s (pending_of s es + 1) es

pending_of-restored :
    (s t : String) (es : List Pending)
    → pending_of t (decrease s (pending_of s (raised s es)) (raised s es)) ≡ pending_of t es
pending_of-restored s t es = ground (
  arith,
  pending_of-decrease s t (raised s es),
  pending_of-set s s (pending_of s es + 1) es,
  pending_of-set s t (pending_of s es + 1) es,
  eq_refl s,
  eq_iff s t,
)

acquired :
    (s : String) (p : Policy) {q : Policy}
    → acquire s p ≡ ok q
    → (q.pending_total ≡ p.pending_total + 1) × (q.pending_by_source ≡ raised s p.pending_by_source)
unfolding acquire
acquired s p h = ground arith

acquire-release :
    (s : String) (p : Policy) {q : Policy} → acquire s p ≡ ok q → IsSame (release s q) p
unfolding release
acquire-release s p h =
    let (total, each) = acquired s p h in
    record {
      total = omega arith;
      each = λ t. rw each (pending_of-restored s t p.pending_by_source);
    }

module _ (parse : List ℕ → Loaded) (dump : Fields → Option (List ℕ)) (services : List String)
    (repr : Json → String) (unbase64 : String → Option (List ℕ)) (base64 : List ℕ → String)
    (local : Identity) (now later : ℕ) (timestamp_ms : Json) (nonce : String)
    (forward : Endpoint → List ℕ → ℕ → Forwarded) (policy : Policy) where
  forwarded-IsSame :
      (c : Checked) (r : Outcome Policy)
      → acquire c.env.source.peer_id policy ≡ r
      → IsSame
          (forwarded parse dump services repr unbase64 base64 local later timestamp_ms nonce forward
            c policy r).1
          policy
  forwarded-IsSame c (ok p) h = acquire-release c.env.source.peer_id policy h
  forwarded-IsSame c (error code) h = same policy
  forwarded-IsSame c exception h = same policy

  dispatched-IsSame :
      (m : Outcome Checked)
      → IsSame
          (dispatched parse dump services repr unbase64 base64 local later timestamp_ms nonce
            forward policy m).1
          policy
  dispatched-IsSame (ok c) = forwarded-IsSame c _ refl
  dispatched-IsSame (error code) = same policy
  dispatched-IsSame exception = same policy

  -- However `handle` ends, with an answer, an error or an exception, the policy counts as many pending
  -- requests as before, in all and of each source.
  pub handle-IsSame :
      (freshness : ℕ) (table : List Endpoint) (request : Incoming) (timeout : ℕ)
      → IsSame
          (handle parse dump services repr unbase64 base64 local now later timestamp_ms nonce
            freshness table forward policy request timeout).1
          policy
  unfolding handle
  handle-IsSame freshness table request timeout = dispatched-IsSame _
