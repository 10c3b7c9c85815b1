-- ===== src/Relay/Authority.antt =====
-- tep/hb_tep_relay.py: what a request that RelayDispatcher.handle forwards and answers has passed.
use node_installer.Prelude.{
  ℕ, ◌+◌, ◌≤◌, ◌<◌, String, ◌≡◌, refl, ◌⊎◌, true, false, not, ◌||◌, Option, some, List, [], ◌∷◌,
  leb, eqb, ◌==◌, if◌then◌else◌, contains, arith, eq_iff, str-eq, subst, Bool-cases, inl, inr,
}
use node_installer.Json.{Loaded, Json, Fields, str, obj, get, py_str}
use node_installer.Outcome.{
  Outcome, ok, error, exception, ◌>>=◌, ◌>>◌, raise_if, Ensures, Ensures-bind, Ensures-raise_if,
  Ensures-ok, Ensures-error, Ensures-mono,
}
use node_installer.App.Envelope.{Identity, Envelope}
use node_installer.App.Message.{in_bytes, decode_message}
use node_installer.Relay.{Endpoint, fresh, lookup, route_to, Policy, authorize, acquire}
use node_installer.Relay.Dispatch.{
  Forwarded, Incoming, Checked, dict_of, decoded, as_code, ttl_or_zero, service_or_empty, incoming,
  check, new_relay_response, response_bytes, reply, handle, forwarded, dispatched,
}

pub record IsAllowed (source target service : String) (p : Policy) : Type 0 where
  pub from : contains p.trusted_sources source ≡ true
  pub to : contains p.registered_targets target ≡ true
  pub what : contains p.allowed_services service ≡ true

authorize-IsAllowed :
    (source target service : String) (p : Policy) {u : Unit {0}}
    → authorize source target service p ≡ ok u
    → IsAllowed source target service p
unfolding authorize ◌>>=◌ ◌>>◌ raise_if
authorize-IsAllowed source target service p h = record {
  from = ground arith;
  to = ground arith;
  what = ground arith;
}

lookup-peer :
    (peer : String) (rs : List Endpoint) (r : Endpoint) → lookup peer rs ≡ some r → r.peer_id ≡ peer
lookup-peer peer [] r h = cc
lookup-peer peer (q ∷ rs) r h = ground (arith, lookup-peer peer rs r, eq_iff q.peer_id peer)

fresh-some :
    (now age : ℕ) (o : Option Endpoint) {r : Endpoint}
    → fresh now age o ≡ ok r
    → (o ≡ some r) × (now ≤ r.last_seen + age)
fresh-some now age o h = ground arith

-- A route is that of the peer, and has been seen within the freshness.
route_to-IsFresh :
    (now : ℕ) (peer : String) (age : ℕ) (table : List Endpoint) {r : Endpoint}
    → route_to now peer age table ≡ ok r
    → (r.peer_id ≡ peer) × (now ≤ r.last_seen + age)
unfolding route_to
route_to-IsFresh now peer age table {r} h = elim (Bool-cases (leb age 0)) [
  | inl e ↦
      let bad : exception ≡ ok r =
        subst (λ b. (if b then exception else fresh now age (lookup peer table)) ≡ ok r) e h in
      cc
  | inr e ↦
      let good : fresh now age (lookup peer table) ≡ ok r =
        subst (λ b. (if b then exception else fresh now age (lookup peer table)) ≡ ok r) e h in
      let (found, seen) = fresh-some now age (lookup peer table) good in
      (lookup-peer peer table r found, seen)
]

module _ (parse : List ℕ → Loaded) (dump : Fields → Option (List ℕ)) (services : List String)
    (repr : Json → String) (unbase64 : String → Option (List ℕ)) (base64 : List ℕ → String)
    (local : Identity) (now freshness : ℕ) (table : List Endpoint) (policy : Policy) where
  -- What the request that is forwarded has passed.
  pub record IsChecked (request : Incoming) (timeout : ℕ) (c : Checked) : Type 0 where
    pub from : incoming parse dump services repr unbase64 base64 now request ≡ ok c.env
    pub kind : c.env.msg_type ≡ "relay_req"
    pub addressed : c.env.destination.peer_id ≡ local.peer_id
    pub target : c.target ≡ py_str repr (get "peer_id" (dict_of (get "relay_target" c.env.raw)))
    pub carried :
        unbase64 (py_str repr (get "inner" (dict_of (get "payload" c.env.raw)))) ≡ some c.inner_raw
    pub inner_from :
        decode_message parse dump services (some now) (in_bytes c.inner_raw) ≡ ok c.inner
    pub inner_kind : c.inner.msg_type ≡ "req"
    pub inner_addressed : c.inner.destination.peer_id ≡ c.target
    pub allowed : IsAllowed c.env.source.peer_id c.target (service_or_empty c.inner.service) policy
    pub routed : (c.route.peer_id ≡ c.target) × (now ≤ c.route.last_seen + freshness)
    pub budget : (0 < c.budget) × (c.budget ≤ timeout) × (c.budget ≤ ttl_or_zero c.env.ttl_ms)

  positive : (n : ℕ) → eqb n 0 ≡ false → 0 < n
  positive n h = ground arith

  decoded-eq :
      (o : Option (List ℕ)) {raw : List ℕ}
      → decoded parse dump services repr unbase64 base64 o ≡ ok raw
      → o ≡ some raw
  decoded-eq o h = ground arith

  check-IsChecked :
      (request : Incoming) (timeout : ℕ)
      → Ensures (IsChecked request timeout) (
          check parse dump services repr unbase64 base64 local now freshness table policy request
            timeout)
  unfolding check
  check-IsChecked request timeout = Ensures-bind _ _ λ env p_env. Ensures-raise_if _ _ _ λ kind.
      Ensures-raise_if _ _ _ λ addressed. Ensures-bind _ _ λ inner_raw p_raw.
        Ensures-bind _ _ λ inner p_inner. Ensures-raise_if _ _ _ λ inner_kind.
          Ensures-raise_if _ _ _ λ inner_addressed. Ensures-bind _ _ λ _ p_allowed.
            Ensures-bind _ _ λ route p_route. Ensures-raise_if _ _ _ λ _.
              Ensures-raise_if _ _ _ λ left. Ensures-ok _ (record {
                from = p_env;
                kind = str-eq _ _ kind;
                addressed = str-eq _ _ addressed;
                target = refl;
                carried = decoded-eq _ p_raw;
                inner_from = p_inner;
                inner_kind = str-eq _ _ inner_kind;
                inner_addressed = str-eq _ _ inner_addressed;
                allowed = authorize-IsAllowed _ _ _ policy p_allowed;
                routed = route_to-IsFresh now _ freshness table p_route;
                budget = (positive _ left, omega arith, omega arith);
              })

  module _ (later : ℕ) (timestamp_ms : Json) (nonce : String)
      (forward : Endpoint → List ℕ → ℕ → Forwarded) where
    -- What an answer to the request rests on.
    pub record IsReply (c : Checked) (d : Fields) : Type 0 where
      pub raw : List ℕ
      pub response : Envelope
      pub from :
          response_bytes parse dump services repr unbase64 base64
            (forward c.route c.inner_raw c.budget)
          ≡ ok raw
      pub decodes : decode_message parse dump services (some later) (in_bytes raw) ≡ ok response
      pub kind : (response.msg_type ≡ "res") ⊎ (response.msg_type ≡ "err")
      pub same_id : response.request_id ≡ c.inner.request_id
      pub source : response.source.peer_id ≡ c.target
      pub request_id : get "request_id" d ≡ get "request_id" c.env.raw
      pub payload : (p : Fields) × (get "payload" d ≡ obj p) × (get "inner" p ≡ str (base64 raw))

    -- The answer belongs to a request that was checked.
    pub record IsRelayed (request : Incoming) (timeout : ℕ) (d : Fields) : Type 0 where
      pub checked : Checked
      pub allowed : IsChecked request timeout checked
      pub answered : IsReply checked d

    as_code-eq :
        (code : String) (m : Outcome Envelope) {e : Envelope} → as_code code m ≡ ok e → m ≡ ok e
    as_code-eq code m h = ground arith

    kind-cases : (t : String) → not (t == "res" || t == "err") ≡ false → (t ≡ "res") ⊎ (t ≡ "err")
    kind-cases t h = ground (arith, eq_iff t "res", eq_iff t "err")

    -- The two fields of the answer that tie it to the request and to the response.
    abbrev Carries : Fields → List ℕ → Fields → Type 0
    Carries request raw d =
        (get "request_id" d ≡ get "request_id" request)
        × ((p : Fields) × (get "payload" d ≡ obj p) × (get "inner" p ≡ str (base64 raw)))

    new_relay_response-Carries :
        (request : Fields) (source destination : Identity) (target : String) (raw : List ℕ)
        → Ensures (Carries request raw) (
            new_relay_response parse dump services repr unbase64 base64 request source destination
              target raw timestamp_ms nonce)
    unfolding new_relay_response
    new_relay_response-Carries request source destination target raw =
        Ensures-raise_if _ _ _ λ _. Ensures-bind _ _ λ _ _. Ensures-ok _ (refl, (_, refl, refl))

    reply-IsReply :
        (c : Checked)
        → Ensures (IsReply c) (
            reply parse dump services repr unbase64 base64 local later timestamp_ms nonce forward c)
    unfolding reply
    reply-IsReply c = Ensures-bind _ _ λ raw p_raw. Ensures-bind _ _ λ response p_response.
        Ensures-raise_if _ _ _ λ kind. Ensures-raise_if _ _ _ λ same_id.
          Ensures-raise_if _ _ _ λ source.
            Ensures-mono
              (λ d h. record {
                raw = raw;
                response = response;
                from = p_raw;
                decodes = as_code-eq _ _ p_response;
                kind = kind-cases _ kind;
                same_id = str-eq _ _ same_id;
                source = str-eq _ _ source;
                request_id = h.0;
                payload = h.1;
              })
              (new_relay_response-Carries _ _ _ _ raw)

    forwarded-IsRelayed :
        (request : Incoming) (timeout : ℕ) (r : Outcome Policy) (c : Checked)
        → IsChecked request timeout c
        → Ensures
            (IsRelayed request timeout)
            (forwarded parse dump services repr unbase64 base64 local later timestamp_ms nonce
              forward c policy r).0
    forwarded-IsRelayed request timeout (ok p) c h =
        Ensures-mono (λ d answered. record { checked = c; allowed = h; answered = answered })
          (reply-IsReply c)
    forwarded-IsRelayed request timeout (error code) c h = Ensures-error code
    forwarded-IsRelayed request timeout exception c h = record { at = λ d e. cc }

    checked-IsRelayed :
        (request : Incoming) (timeout : ℕ) (m : Outcome Checked)
        → Ensures (IsChecked request timeout) m
        → Ensures
            (IsRelayed request timeout)
            (dispatched parse dump services repr unbase64 base64 local later timestamp_ms nonce
              forward policy m).0
    checked-IsRelayed request timeout (ok c) h =
        forwarded-IsRelayed request timeout (acquire c.env.source.peer_id policy) c (h.at c refl)
    checked-IsRelayed request timeout (error code) h = Ensures-error code
    checked-IsRelayed request timeout exception h = record { at = λ d e. cc }

    -- Every answer that `handle` returns is to a valid relay request for this node whose payload holds an
    -- inner request for the peer of its field `relay_target`, from a trusted source, to a registered target with a fresh route, for an
    -- allowed service, forwarded within the time that the caller and the request allow; and it carries
    -- the bytes of a valid response or error of the target to this inner request.
    pub handle-IsRelayed :
        (request : Incoming) (timeout : ℕ)
        → Ensures
            (IsRelayed request timeout)
            (handle parse dump services repr unbase64 base64 local now later timestamp_ms nonce
              freshness table forward policy request timeout).0
    unfolding handle
    handle-IsRelayed request timeout =
        checked-IsRelayed request timeout _ (check-IsChecked request timeout)
