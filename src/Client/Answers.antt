-- ===== src/Client/Answers.antt =====
-- tep/hb_tep_client.py: what TepRpcClient.request returns.
use node_installer.Prelude.{
  ℕ, ◌+◌, ◌≤◌, String, ◌≡◌, refl, sym, ap, ◌∙◌, subst, true, false, ◌||◌, Option, none, some, List,
  [], ◌∷◌, eqb, leb, ltb, ◌==◌, eq_iff, arith, Bool-cases, inl, inr, not-false, str-eq,
}
use node_installer.Json.{Loaded, Json, Fields, obj, get, as_dict}
use node_installer.Outcome.{
  Outcome, ok, error, exception, Ensures, Ensures-bind, Ensures-raise_if, Ensures-ok, Ensures-error,
  Ensures-mono,
}
use node_installer.App.Envelope.{Identity, Envelope}
use node_installer.App.Validity.{IsValid, validate_envelope-IsValid}
use node_installer.App.Message.{encode_message, decode_message-IsValid}
use node_installer.Client.{
  PendingRequest, Table, find_item, unexpired, expire_locked, Step, add, is_service, matched,
  correlate, Reply, raw_reply, mapping, raised, timed_out, crashed, Request, new_message, received,
  addressed, answer_of, remote_error, payload_of, as_transport_error, exchange, settle,
  after_correlate, after_add, after_new, request,
}

-- The pending request that an envelope answers.
record IsMatch (now : ℕ) (e : Envelope) (o : Option PendingRequest) (item : PendingRequest)
    : Type 0 where
  found : o ≡ some item
  peer : e.source.peer_id ≡ item.expected_peer_id
  service : e.service ≡ some item.expected_service
  timely : now ≤ item.deadline

service-eq : (s : String) (o : Option String) → is_service s o ≡ true → o ≡ some s
service-eq s none h = cc
service-eq s (some t) h = ground (arith, eq_iff t s)

not_late : (deadline now : ℕ) → ltb deadline now ≡ false → now ≤ deadline
not_late deadline now h = ground arith

matched-IsMatch :
    (now : ℕ) (e : Envelope) (t : Table) (o : Option PendingRequest)
    → Ensures (IsMatch now e o) (matched now e t o).0
matched-IsMatch now e t none = Ensures-error _
matched-IsMatch now e t (some item) =
    elim (Bool-cases (e.source.peer_id == item.expected_peer_id)) [
      | inr other ↦ rw other (Ensures-error _)
      | inl peer ↦ elim (Bool-cases (is_service item.expected_service e.service)) [
        | inr wrong ↦ rw (peer, wrong) (Ensures-error _)
        | inl same ↦ elim (Bool-cases (ltb item.deadline now)) [
          | inl late ↦ rw (peer, same, late) (Ensures-error _)
          | inr timely ↦
              rw (peer, same, timely)
                (Ensures-ok item (record {
                  found = refl;
                  peer = (eq_iff e.source.peer_id item.expected_peer_id).0 peer;
                  service = service-eq item.expected_service e.service same;
                  timely = not_late item.deadline now timely;
                }))
        ]
      ]
    ]

module _ (parse : List ℕ → Loaded) (dump : Fields → Option (List ℕ)) (services : List String)
    (repr : Json → String) (local_identity : Identity) where
  -- The answer to the request `r`: the payload of the envelope that the transport brought for the bytes of
  -- its message.
  pub record IsReply (transport : String → List ℕ → ℕ → Reply) (r : Request) (payload : Fields)
      : Type 0 where
    pub message : Fields
    pub made : new_message parse dump services repr local_identity r ≡ ok message
    pub encoded : List ℕ
    pub sent : encode_message parse dump services message ≡ ok encoded
    pub envelope : Envelope
    pub came :
        received parse dump services repr local_identity r.wall_ms
          (transport r.destination.peer_id encoded r.timeout_ms)
        ≡ ok envelope
    pub valid : IsValid services (some r.wall_ms) (obj envelope.raw) envelope
    pub kind : envelope.msg_type ≡ "res"
    pub same_id : envelope.request_id ≡ r.request_id
    pub from_peer : envelope.source.peer_id ≡ r.destination.peer_id
    pub to_local : envelope.destination.peer_id ≡ local_identity.peer_id
    pub same_service : envelope.service ≡ some r.service
    pub timely : r.answered_at ≤ r.sent_at + r.timeout_ms
    pub carried : get "payload" envelope.raw ≡ obj payload

  received-IsValid :
      (wall : ℕ) (reply : Reply)
      → Ensures
          (λ e. IsValid services (some wall) (obj e.raw) e)
          (received parse dump services repr local_identity wall reply)
  unfolding received
  received-IsValid wall (raw_reply raw) = decode_message-IsValid parse dump services (some wall) raw
  received-IsValid wall (mapping d) =
      Ensures-mono (λ e v. subst (λ m. IsValid services (some wall) m e) v.from v)
        (validate_envelope-IsValid services (some wall) (obj d))
  received-IsValid wall (raised code) = Ensures-error _
  received-IsValid wall timed_out = Ensures-error _
  received-IsValid wall crashed = record { at = λ e h. cc }

  -- The envelope that came for the message passed the checks before the table is asked.
  record IsAddressed (transport : String → List ℕ → ℕ → Reply) (r : Request) (message : Fields)
      (e : Envelope) : Type 0 where
    encoded : List ℕ
    sent : encode_message parse dump services message ≡ ok encoded
    came :
        received parse dump services repr local_identity r.wall_ms
          (transport r.destination.peer_id encoded r.timeout_ms)
        ≡ ok e
    valid : IsValid services (some r.wall_ms) (obj e.raw) e
    kind : (e.msg_type == "res" || e.msg_type == "err") ≡ true
    to_local : e.destination.peer_id ≡ local_identity.peer_id

  payload-of :
      (x : Json) (p : Fields)
      → payload_of parse dump services repr local_identity (as_dict x) ≡ ok p
      → x ≡ obj p
  payload-of x p h = ground arith

  remote_error-fails :
      (o : Option Fields) {P : Fields → Type 0}
      → Ensures P (remote_error parse dump services repr local_identity o)
  remote_error-fails none = record { at = λ p h. cc }
  remote_error-fails (some d) = Ensures-error _

  answer_of-carried :
      (e : Envelope)
      → Ensures
          (λ p. ((e.msg_type == "err") ≡ false) × (get "payload" e.raw ≡ obj p))
          (answer_of parse dump services repr local_identity e)
  unfolding answer_of
  answer_of-carried e = elim (Bool-cases (e.msg_type == "err")) [
    | inl err ↦ rw err (remote_error-fails (as_dict (get "error" e.raw)))
    | inr res ↦ rw res (record { at = λ p h. (refl, payload-of (get "payload" e.raw) p h) })
  ]

  as_transport_error-Ensures :
      {A : Type 0} {P : A → Type 0} (m : Outcome A)
      → Ensures P m
      → Ensures P (as_transport_error parse dump services repr local_identity m)
  as_transport_error-Ensures (ok a) h = h
  as_transport_error-Ensures (error code) h = h
  as_transport_error-Ensures exception h = Ensures-error _

  res-kind : (t : String) → (t == "res" || t == "err") ≡ true → (t == "err") ≡ false → t ≡ "res"
  res-kind t h e = ground (arith, eq_iff t "res")

  module _ (transport : String → List ℕ → ℕ → Reply) (meanwhile : Table → Table) (r : Request) where
    exchange-IsAddressed :
        (req : Fields)
        → Ensures
            (IsAddressed transport r req)
            (exchange parse dump services repr local_identity transport meanwhile r req)
    unfolding exchange addressed
    exchange-IsAddressed req = Ensures-bind _ _ λ encoded sent. Ensures-bind _ _ λ e came.
        Ensures-raise_if _ _ _ λ kind. Ensures-raise_if _ _ _ λ here. Ensures-ok e (record {
          encoded = encoded;
          sent = sent;
          came = came;
          valid = (received-IsValid r.wall_ms _).at e came;
          kind = not-false (e.msg_type == "res" || e.msg_type == "err") kind;
          to_local = str-eq e.destination.peer_id local_identity.peer_id here;
        })

    -- The payload is that of a response which matches a pending request.
    record IsAnswer (message : Fields) (held : List PendingRequest) (payload : Fields)
        : Type 0 where
      envelope : Envelope
      item : PendingRequest
      address : IsAddressed transport r message envelope
      kind : envelope.msg_type ≡ "res"
      match : IsMatch r.answered_at envelope (find_item envelope.request_id held) item
      carried : get "payload" envelope.raw ≡ obj payload

    after-IsAnswer :
        (message : Fields) (held : List PendingRequest) (e : Envelope) (s : Step PendingRequest)
        → IsAddressed transport r message e
        → Ensures (IsMatch r.answered_at e (find_item e.request_id held)) s.0
        → Ensures
            (IsAnswer message held)
            (after_correlate parse dump services repr local_identity e s).0
    after-IsAnswer message held e (ok item, t) a m =
        Ensures-mono
          (λ p c. record {
            envelope = e;
            item = item;
            address = a;
            kind = res-kind e.msg_type a.kind c.0;
            match = m.at item refl;
            carried = c.1;
          })
          (answer_of-carried e)
    after-IsAnswer message held e (error code, t) a m = Ensures-error _
    after-IsAnswer message held e (exception, t) a m = record { at = λ p h. cc }

    settle-IsAnswer :
        (message : Fields) (t : Table) (m : Outcome Envelope)
        → Ensures (IsAddressed transport r message) m
        → Ensures
            (IsAnswer message (unexpired r.answered_at t.items))
            (settle parse dump services repr local_identity r.answered_at t m).0
    unfolding correlate
    settle-IsAnswer message t (ok e) a =
        after-IsAnswer message (unexpired r.answered_at t.items) e _ (a.at e refl)
          (matched-IsMatch r.answered_at e (expire_locked r.answered_at t) _)
    settle-IsAnswer message t (error code) a = Ensures-error _
    settle-IsAnswer message t exception a = record { at = λ p h. cc }

    -- The pending request of `r`.
    abbrev own : PendingRequest
    own = record {
      request_id = r.request_id;
      expected_peer_id = r.destination.peer_id;
      expected_service = r.service;
      created_at = r.sent_at;
      deadline = r.sent_at + r.timeout_ms;
    }

    own-found :
        (id : String) (item : PendingRequest)
        → find_item id (unexpired r.answered_at (own ∷ [])) ≡ some item
        → (id ≡ r.request_id) × (own ≡ item)
    unfolding find_item unexpired
    own-found id item h = elim (Bool-cases (ltb (r.sent_at + r.timeout_ms) r.answered_at)) [
      | inl late ↦ ground arith
      | inr timely ↦ elim (Bool-cases (r.request_id == id)) [
        | inl same ↦ ground (arith, eq_iff r.request_id id)
        | inr other ↦ ground arith
      ]
    ]

    answer-IsReply :
        (message p : Fields)
        → new_message parse dump services repr local_identity r ≡ ok message
        → IsAnswer message (unexpired r.answered_at (own ∷ [])) p
        → IsReply transport r p
    answer-IsReply message p made a =
        let (same, mine) = own-found a.envelope.request_id a.item a.match.found in
        record {
          message = message;
          made = made;
          encoded = a.address.encoded;
          sent = a.address.sent;
          came = a.address.came;
          envelope = a.envelope;
          valid = a.address.valid;
          kind = a.kind;
          same_id = same;
          from_peer = a.match.peer ∙ ap (λ i. i.expected_peer_id) (sym mine);
          to_local = a.address.to_local;
          same_service = a.match.service ∙ ap (λ i. some i.expected_service) (sym mine);
          timely = subst (λ i. r.answered_at ≤ i.deadline) (sym mine) a.match.timely;
          carried = a.carried;
        }

  module _ (transport : String → List ℕ → ℕ → Reply) (r : Request) where
    abbrev quiet : Table → Table
    quiet t = t

    abbrev empty : ℕ → Table
    empty n = record { max_pending = n; items = [] }

    done-IsReply :
        (req : Fields) (n : ℕ)
        → new_message parse dump services repr local_identity r ≡ ok req
        → Ensures
            (IsReply transport r)
            (after_add parse dump services repr local_identity transport quiet r req (
              ok (own transport quiet r),
              record { max_pending = n; items = own transport quiet r ∷ [] },
            )).0
    done-IsReply req n made = as_transport_error-Ensures _ (
        Ensures-mono (λ p a. answer-IsReply transport quiet r req p made a)
          (settle-IsAnswer transport quiet r req
            (record { max_pending = n; items = own transport quiet r ∷ [] }) _
            (exchange-IsAddressed transport quiet r req)))

    sent-IsReply :
        (req : Fields) (n : ℕ)
        → new_message parse dump services repr local_identity r ≡ ok req
        → Ensures
            (IsReply transport r)
            (after_add parse dump services repr local_identity transport quiet r req
              (add r.sent_at r.request_id r.destination.peer_id r.service r.timeout_ms (empty n))).0
    unfolding add find_item unexpired
    sent-IsReply req n made = elim (Bool-cases (eqb r.timeout_ms 0 || ltb 30000 r.timeout_ms)) [
      | inl bad ↦ rw bad (record { at = λ p h. cc })
      | inr good ↦ elim (Bool-cases (leb n 0)) [
        | inl full ↦ rw (good, full) (Ensures-error _)
        | inr room ↦ rw (good, room) (done-IsReply req n made)
      ]
    ]

    new-IsReply :
        (m : Outcome Fields) (n : ℕ)
        → new_message parse dump services repr local_identity r ≡ m
        → Ensures
            (IsReply transport r)
            (after_new parse dump services repr local_identity transport quiet r (empty n) m).0
    new-IsReply (ok req) n made = sent-IsReply req n made
    new-IsReply (error code) n made = Ensures-error _
    new-IsReply exception n made = record { at = λ p h. cc }

    -- For a client with nothing else pending: a payload that `request` returns is that of the envelope that the
    -- transport answered when it was given the encoded message of the request for its peer. The envelope
    -- is a valid response, within the time of the request, with the id and the service of the request,
    -- from the peer that the request was for, and to the local peer.
    pub request-IsReply :
        (n : ℕ)
        → Ensures
            (IsReply transport r)
            (request parse dump services repr local_identity transport quiet r (empty n)).0
    unfolding request
    request-IsReply n = new-IsReply _ n refl
