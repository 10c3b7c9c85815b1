-- ===== src/Daemon/Engine/Authentic.antt =====
-- tep/hb_tep.py: what stands behind the messages that the handling of packets lets through.
use node_installer.Prelude.{
  ℕ, String, ◌≡◌, refl, sym, ap, ◌⊎◌, inl, inr, Bool, true, false, not, ◌||◌, Option, some, List,
  ◌==◌, if◌then◌else◌, eq_iff, arith, Bool-cases, Option-cases, str-eq,
}
use node_installer.Text.{is_empty}
use node_installer.Json.{Loaded, Fields}
use node_installer.Outcome.{
  Outcome, ok, error, exception, Ensures, Ensures-mono, Ensures-bind, Ensures-raise_if, Ensures-ok,
}
use node_installer.App.Envelope.{Envelope}
use node_installer.App.Message.{in_bytes, IsDecoded, decode_message-IsDecoded}
use node_installer.Relay.{Endpoint}
use node_installer.Daemon.Packet.{Packet}
use node_installer.Daemon.Peers.{
  Peer, find_by_wire_node_id, update_authenticated_endpoint, mark_seen,
}
use node_installer.Daemon.Engine.{
  Waiting, Engine, Address, Action, dropped, serve, relay, complete, crashed, waits_for, set_raw,
  pending_complete, drop_packet, reject_packet, expected_type, app_peer_for_packet, authentic,
  completed, routed, observed, on_envelope, handle_authenticated_app_packet, on_plain, on_peer,
  receive_app,
}

module _ (parse : List ℕ → Loaded) (dump : Fields → Option (List ℕ)) (services : List String)
    (derive_shared_key : String → Option (List ℕ))
    (decrypt : List ℕ → List ℕ → List ℕ → Option (List ℕ)) (wall_ms now_sec now_ms : ℕ)
    (addr : Address) (e : Engine) (p : Packet) where
  -- The message `env` with the text `plain` is from the registered peer, and for this node.
  pub record IsAuthentic (env : Envelope) (peer : Peer) (plain : List ℕ) : Type 0 where
    pub registered : find_by_wire_node_id p.node_id e.peers ≡ some peer
    pub keyed : (is_empty peer.pubkey ≡ false) × (is_empty peer.peer_id ≡ false)
    pub key : List ℕ
    pub derived : derive_shared_key peer.pubkey ≡ some key
    pub decrypted : decrypt p.enc_payload key p.nonce ≡ some plain
    pub decoded : IsDecoded parse dump services (some wall_ms) plain env
    pub source : (env.source.node_id ≡ peer.id) × (env.source.peer_id ≡ peer.peer_id)
    pub destination :
        (env.destination.node_id ≡ e.local_identity.node_id)
        × (env.destination.peer_id ≡ e.local_identity.peer_id)
    pub typed : env.msg_type ≡ expected_type p.kind

  -- What an action rests on, and what it leaves of the requests that wait.
  abbrev pub IsActed : Action → Engine → Type 0
  IsActed dropped e' = e'.pending ≡ e.pending
  IsActed crashed e' = e'.pending ≡ e.pending
  IsActed (serve env peer) e' =
      (plain : List ℕ) × (IsAuthentic env peer plain
        × ((env.msg_type ≡ "req") × (e'.pending ≡ e.pending)))
  IsActed (relay env peer) e' =
      (plain : List ℕ) × (IsAuthentic env peer plain
        × ((env.msg_type ≡ "relay_req") × (e'.pending ≡ e.pending)))
  IsActed (complete env peer) e' =
      (plain : List ℕ) × (IsAuthentic env peer plain
        × ((waits_for env.request_id e.pending ≡ true)
            × (e'.pending ≡ set_raw env.request_id plain e.pending)))

  -- The peers and routes are as they were, or the packet is authentic.
  abbrev pub IsTrusted : Engine → Type 0
  IsTrusted e' =
      ((e'.peers ≡ e.peers) × (e'.relay_table ≡ e.relay_table))
      ⊎ ((env : Envelope) × ((peer : Peer) × ((plain : List ℕ) × IsAuthentic env peer plain)))

  pub record IsHandled (r : Action × Engine) : Type 0 where
    pub trusted : IsTrusted r.1
    pub acted : IsActed r.0 r.1

  -- What `authentic` has checked.
  record IsChecked (peer : Peer) (plain : List ℕ) (env : Envelope) : Type 0 where
    decoded : IsDecoded parse dump services (some wall_ms) plain env
    source : (env.source.node_id ≡ peer.id) × (env.source.peer_id ≡ peer.peer_id)
    destination :
        (env.destination.node_id ≡ e.local_identity.node_id)
        × (env.destination.peer_id ≡ e.local_identity.peer_id)
    typed : env.msg_type ≡ expected_type p.kind

  both : (a b c d : String) → (not (a == b) || not (c == d)) ≡ false → (a ≡ b) × (c ≡ d)
  both a b c d h = ground (arith, eq_iff a b, eq_iff c d)

  authentic-IsChecked :
      (peer : Peer) (plain : List ℕ)
      → Ensures (IsChecked peer plain) (
          authentic parse dump services derive_shared_key decrypt wall_ms now_sec now_ms addr e p
            peer plain)
  unfolding authentic
  authentic-IsChecked peer plain = Ensures-raise_if _ _ _ λ version. Ensures-bind _ _ λ env decoded.
      Ensures-raise_if _ _ _ λ from. Ensures-raise_if _ _ _ λ to. Ensures-raise_if _ _ _ λ kind.
        Ensures-ok env (record {
          decoded =
              (decode_message-IsDecoded parse dump services (some wall_ms) (in_bytes plain)).at env
                decoded;
          source = both env.source.node_id peer.id env.source.peer_id peer.peer_id from;
          destination =
              both env.destination.node_id e.local_identity.node_id env.destination.peer_id
                e.local_identity.peer_id to;
          typed = str-eq env.msg_type (expected_type p.kind) kind;
        })

  module _ (env : Envelope) (peer : Peer) (plain : List ℕ) (a : IsAuthentic env peer plain) where
    abbrev contact :
        (env : Envelope) × ((peer : Peer) × ((plain : List ℕ) × IsAuthentic env peer plain))
    contact = (env, (peer, (plain, a)))

    completed-IsHandled :
        (e' : Engine) (b : Bool) (ws : List Waiting)
        → e'.pending ≡ e.pending
        → waits_for env.request_id e.pending ≡ b
        → ws ≡ set_raw env.request_id plain e.pending
        → IsHandled (
            completed parse dump services derive_shared_key decrypt wall_ms now_sec now_ms addr e'
              env peer
              (b, ws))
    completed-IsHandled e' true ws same waits set = record {
      trusted = inr contact;
      acted = (plain, (a, (waits, set)));
    }
    completed-IsHandled e' false ws same waits set = record { trusted = inr contact; acted = same }

    routed-IsHandled :
        (e' : Engine)
        → e'.pending ≡ e.pending
        → IsHandled (
            routed parse dump services derive_shared_key decrypt wall_ms now_sec now_ms addr e' env
              peer plain)
    unfolding pending_complete
    routed-IsHandled e' same = elim (Bool-cases (env.msg_type == "req")) [
      | inl req ↦ rw req (record {
        trusted = inr contact;
        acted = (plain, (a, ((eq_iff env.msg_type "req").0 req, same)));
      })
      | inr not_req ↦ elim (Bool-cases (env.msg_type == "relay_req")) [
        | inl rel ↦
            rw (not_req, rel)
              (record {
                trusted = inr contact;
                acted = (plain, (a, ((eq_iff env.msg_type "relay_req").0 rel, same)));
              })
        | inr answer ↦
            rw (not_req, answer)
              (completed-IsHandled e' _ _ same (ap (waits_for env.request_id) (sym same))
                (ap (set_raw env.request_id plain) same))
      ]
    ]

    observed-IsHandled :
        (e' : Engine) (o : Outcome (Endpoint × List Endpoint))
        → e'.pending ≡ e.pending
        → IsHandled (
            observed parse dump services derive_shared_key decrypt wall_ms now_sec now_ms addr e'
              env peer plain o)
    observed-IsHandled e' (ok (route, table)) same =
        routed-IsHandled
          (record e' { relay_table = table; peers = mark_seen now_sec peer.id "" e'.peers }) same
    observed-IsHandled e' (error code) same = record { trusted = inr contact; acted = same }
    observed-IsHandled e' exception same = record { trusted = inr contact; acted = same }

  quiet :
      (act : Action) (e' : Engine)
      → IsActed act e'
      → (e'.peers ≡ e.peers) × (e'.relay_table ≡ e.relay_table)
      → IsHandled (act, e')
  quiet act e' acted same = record { trusted = inl same; acted = acted }

  on_envelope-IsHandled :
      (peer : Peer) (plain : List ℕ) (m : Outcome Envelope)
      → Ensures (λ env. IsAuthentic env peer plain) m
      → IsHandled (
          on_envelope parse dump services derive_shared_key decrypt wall_ms now_sec now_ms addr e
            peer plain m)
  on_envelope-IsHandled peer plain (ok env) a =
      observed-IsHandled env peer plain (a.at env refl)
        (record e { peers = update_authenticated_endpoint peer.id addr.ip addr.port e.peers }) _
        refl
  on_envelope-IsHandled peer plain (error code) a =
      elim (Bool-cases (code == "identity_mismatch" || code == "authentication_failed")) [
        | inl reject ↦ rw reject (quiet dropped (reject_packet e) refl (refl, refl))
        | inr drop ↦ rw drop (quiet dropped (drop_packet e) refl (refl, refl))
      ]
  on_envelope-IsHandled peer plain exception a = quiet crashed e refl (refl, refl)

  -- The peer that a packet is taken to be from.
  usable-peer :
      (peer : Peer)
      → app_peer_for_packet e p ≡ some peer
      → (find_by_wire_node_id p.node_id e.peers ≡ some peer)
        × ((is_empty peer.pubkey ≡ false) × (is_empty peer.peer_id ≡ false))
  unfolding app_peer_for_packet
  usable-peer peer h = ground arith

  on_plain-IsHandled :
      (peer : Peer) (key : List ℕ)
      → app_peer_for_packet e p ≡ some peer
      → derive_shared_key peer.pubkey ≡ some key
      → IsHandled (
          on_plain parse dump services derive_shared_key decrypt wall_ms now_sec now_ms addr e p
            peer
            (decrypt p.enc_payload key p.nonce))
  unfolding handle_authenticated_app_packet
  on_plain-IsHandled peer key found derived =
      elim (Option-cases (decrypt p.enc_payload key p.nonce)) [
        | inl failed ↦ rw failed (quiet dropped (reject_packet e) refl (refl, refl))
        | inr (plain, decrypted) ↦
            let (registered, keyed) = usable-peer peer found in
            rw decrypted (
              on_envelope-IsHandled peer plain _ (
                Ensures-mono
                  (λ env c. record {
                    registered = registered;
                    keyed = keyed;
                    key = key;
                    derived = derived;
                    decrypted = decrypted;
                    decoded = c.decoded;
                    source = c.source;
                    destination = c.destination;
                    typed = c.typed;
                  })
                  (authentic-IsChecked peer plain)))
      ]

  on_peer-IsHandled : IsHandled (
      on_peer parse dump services derive_shared_key decrypt wall_ms now_sec now_ms addr e p
        (app_peer_for_packet e p))
  on_peer-IsHandled = elim (Option-cases (app_peer_for_packet e p)) [
    | inl unknown ↦ rw unknown (quiet dropped (reject_packet e) refl (refl, refl))
    | inr (peer, found) ↦ elim (Option-cases (derive_shared_key peer.pubkey)) [
      | inl failed ↦ rw (found, failed) (quiet dropped (reject_packet e) refl (refl, refl))
      | inr (key, derived) ↦ rw (found, derived) (on_plain-IsHandled peer key found derived)
    ]
  ]

  if-IsHandled :
      (b : Bool) (m n : Action × Engine)
      → IsHandled m
      → IsHandled n
      → IsHandled (if b then m else n)
  if-IsHandled true m n x y = x
  if-IsHandled false m n x y = y

  -- For a packet of the application types, in any state: a thread is started for a request or a relay request,
  -- or an answer is handed to a request of this node that waits for its id, only if the packet is authentic: its
  -- payload decrypts under the key of the one registered peer with the id of its header, to a valid message of
  -- the type of the packet, from this peer and to this node. The peers and the routes change only for an
  -- authentic packet, and no request that waits is added or dropped.
  pub receive_app-IsHandled :
      IsHandled
        (receive_app parse dump services derive_shared_key decrypt wall_ms now_sec now_ms addr e p)
  unfolding receive_app
  receive_app-IsHandled =
      if-IsHandled e.app_ready _ _ on_peer-IsHandled
        (quiet dropped (drop_packet e) refl (refl, refl))
