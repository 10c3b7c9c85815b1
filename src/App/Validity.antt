-- ===== src/App/Validity.antt =====
-- tep/hb_tep_app.py: what an envelope that validate_envelope returns satisfies.
use node_installer.Prelude.{
  ℕ, ◌+◌, ◌≤◌, ◌<◌, String, ◌≡◌, refl, ap, ◌∙◌, true, false, not, Option, none, some, List,
  contains, arith, ℤ, pos, not-false, int-eq,
}
use node_installer.Text.{is_empty, strip, text_len}
use node_installer.Json.{Json, Fields, int, str, obj, get}
use node_installer.Outcome.{
  Outcome, ok, error, exception, ◌>>=◌, Ensures, Ensures-bind, Ensures-raise_if, Ensures-ok,
  Ensures-then,
}
use node_installer.App.Hex.{is_hex}
use node_installer.App.Envelope.{
  Identity, Envelope, supported_types, require_dict, require_str, require_int, require_nonempty,
  validate_identity, require_hex, require_nat, in_window, is_app, is_timed, max_ttl_ms,
  read_service, read_ttl, validate_envelope, checked,
}

-- A dictionary names an identity: both parts are texts, stripped, not empty and of bounded length.
pub record IsIdentity (x : Json) (i : Identity) : Type 0 where
  pub dict : Fields
  pub from : x ≡ obj dict
  pub node : (s : String) × (get "node_id" dict ≡ str s) × (i.node_id ≡ strip s)
  pub peer : (s : String) × (get "peer_id" dict ≡ str s) × (i.peer_id ≡ strip s)
  pub node_fits : (is_empty i.node_id ≡ false) × (text_len i.node_id ≤ 128)
  pub peer_fits : (is_empty i.peer_id ≡ false) × (text_len i.peer_id ≤ 256)

abbrev pub IsFresh : Option ℕ → ℕ → Type 0
IsFresh none t = Unit
IsFresh (some now) t = (now ≤ t + 30000) × (t ≤ now + 10000)

pub record IsValid (services : List String) (now : Option ℕ) (message : Json) (e : Envelope)
    : Type 0 where
  pub from : message ≡ obj e.raw
  pub version : get "v" e.raw ≡ int (pos 1)
  pub typed : (get "type" e.raw ≡ str e.msg_type) × (contains supported_types e.msg_type ≡ true)
  pub named : (get "request_id" e.raw ≡ str e.request_id) × (is_hex e.request_id 32 ≡ true)
  pub source : IsIdentity (get "source" e.raw) e.source
  pub destination : IsIdentity (get "destination" e.raw) e.destination
  pub nonce : (get "nonce" e.raw ≡ str e.nonce) × (is_hex e.nonce 32 ≡ true)
  pub time : (get "timestamp_ms" e.raw ≡ int (pos e.timestamp_ms)) × IsFresh now e.timestamp_ms
  pub service :
      is_app e.msg_type ≡ true
      → (s : String) × (t : String) × (get "service" e.raw ≡ str t)
        × (s ≡ strip t)
        × (e.service ≡ some s)
        × (contains services s ≡ true)
  pub ttl :
      is_timed e.msg_type ≡ true
      → (n : ℕ) × (e.ttl_ms ≡ some n)
        × (get "ttl_ms" e.raw ≡ int (pos n))
        × (0 < n)
        × (n ≤ max_ttl_ms)

require_dict-eq : (x : Json) {d : Fields} → require_dict x ≡ ok d → x ≡ obj d
require_dict-eq x e = ground arith

require_str-eq : (x : Json) {s : String} → require_str x ≡ ok s → x ≡ str s
require_str-eq x e = ground arith

require_int-eq : (x : Json) {n : ℤ} → require_int x ≡ ok n → x ≡ int n
require_int-eq x e = ground arith

require_nonempty-fits :
    (x : Json) (n : ℕ) {s : String}
    → require_nonempty x n ≡ ok s
    → (r : String) × (x ≡ str r) × (s ≡ strip r) × (is_empty s ≡ false) × (text_len s ≤ n)
unfolding require_nonempty
require_nonempty-fits (str r) n e = (r, refl, ground arith, ground arith, ground arith)
require_nonempty-fits x n e = cc

validate_identity-IsIdentity : (x : Json) → Ensures (IsIdentity x) (validate_identity x)
unfolding validate_identity
validate_identity-IsIdentity x = Ensures-bind _ _ λ d p. Ensures-bind _ _ λ n q.
    Ensures-bind _ _ λ m r.
      Ensures-ok (record { node_id = n; peer_id = m })
        (let (s, sx, se, s0, sl) = require_nonempty-fits (get "node_id" d) 128 q in
          let (t, tx, te, t0, tl) = require_nonempty-fits (get "peer_id" d) 256 r in
          record {
            dict = d;
            from = require_dict-eq x p;
            node = (s, sx, se);
            peer = (t, tx, te);
            node_fits = (s0, sl);
            peer_fits = (t0, tl);
          })

require_hex-eq : (x : Json) {s : String} → require_hex x ≡ ok s → (x ≡ str s) × (is_hex s 32 ≡ true)
unfolding require_hex
require_hex-eq x e = ground arith

require_nat-eq : (x : Json) {n : ℕ} → require_nat x ≡ ok n → x ≡ int (pos n)
unfolding require_nat
require_nat-eq x e = ground arith

service_of-eq :
    (services : List String) (m : Outcome String) {o : Option String}
    → (m >>= λ s. checked (contains services s) "unsupported_service" (some s)) ≡ ok o
    → (s : String) × (m ≡ ok s) × (o ≡ some s) × (contains services s ≡ true)
unfolding ◌>>=◌
service_of-eq services (ok s) e = (s, refl, ground arith, ground arith)
service_of-eq services (error c) e = cc
service_of-eq services exception e = cc

read_service-eq :
    (services : List String) (t : String) (d : Fields) {o : Option String}
    → read_service services t d ≡ ok o
    → is_app t ≡ true
    → (s : String) × (r : String) × (get "service" d ≡ str r)
      × (s ≡ strip r)
      × (o ≡ some s)
      × (contains services s ≡ true)
unfolding read_service
read_service-eq services t d {o} e app =
    let (s, read, same, known) =
      service_of-eq services (require_nonempty (get "service" d) 128) (ground arith) in
    let (r, text, stripped, _, _) = require_nonempty-fits (get "service" d) 128 read in
    (s, r, text, stripped, same, known)

read_ttl-eq :
    (t : String) (d : Fields) {o : Option ℕ}
    → read_ttl t d ≡ ok o
    → is_timed t ≡ true
    → (n : ℕ) × (o ≡ some n) × (get "ttl_ms" d ≡ int (pos n)) × (0 < n) × (n ≤ max_ttl_ms)
unfolding read_ttl
read_ttl-eq t d e timed = ground arith

in_window-IsFresh : (now : Option ℕ) (t : ℕ) → not (in_window now t) ≡ false → IsFresh now t
in_window-IsFresh none t h = tt
in_window-IsFresh (some n) t h = ground arith

-- Whatever envelope validation returns satisfies the protocol: version 1, a supported type, the two
-- identities, a fresh timestamp, and for its type a supported service and a time to live of at most
-- five seconds. All these fields, the service stripped of spaces, are those of the message.
pub validate_envelope-IsValid :
    (services : List String) (now : Option ℕ) (message : Json)
    → Ensures (IsValid services now message) (validate_envelope services now message)
unfolding validate_envelope
validate_envelope-IsValid services now message = Ensures-bind _ _ λ d dict.
    Ensures-bind _ _ λ version p_version. Ensures-raise_if _ _ _ λ one. Ensures-bind _ _ λ t p_type.
      Ensures-raise_if _ _ _ λ known. Ensures-bind _ _ λ request_id p_id.
        Ensures-bind _ _ λ source p_source. Ensures-bind _ _ λ destination p_destination.
          Ensures-bind _ _ λ nonce p_nonce. Ensures-bind _ _ λ timestamp p_time.
            Ensures-raise_if _ _ _ λ fresh. Ensures-bind _ _ λ service p_service.
              Ensures-bind _ _ λ ttl p_ttl. Ensures-then _ _ λ _. Ensures-then _ _ λ _.
                Ensures-then _ _ λ _. Ensures-then _ _ λ _. Ensures-ok _ (record {
                  from = require_dict-eq message dict;
                  version =
                      require_int-eq (get "v" d) p_version ∙ ap int (int-eq version (pos 1) one);
                  typed = (require_str-eq (get "type" d) p_type, not-false _ known);
                  named = require_hex-eq (get "request_id" d) p_id;
                  source = (validate_identity-IsIdentity (get "source" d)).at source p_source;
                  destination =
                      (validate_identity-IsIdentity (get "destination" d)).at destination
                        p_destination;
                  nonce = require_hex-eq (get "nonce" d) p_nonce;
                  time = (
                    require_nat-eq (get "timestamp_ms" d) p_time,
                    in_window-IsFresh now timestamp fresh,
                  );
                  service = read_service-eq services t d p_service;
                  ttl = read_ttl-eq t d p_ttl;
                })
