-- ===== src/App/Sorted/Validation.antt =====
-- tep/hb_tep_app.py: validate_envelope does not depend on the order of the keys of a message.
use node_installer.Prelude.{
  ℕ, String, ◌≡◌, refl, false, not, ◌||◌, ◌==◌, if◌then◌else◌, ap, ◌∙◌, Option, List, contains, ℤ,
  pos, eqb_ℤ, sym, subst,
}
use node_installer.Json.{Json, Items, Fields, null, bool, int, real, infinity, str, arr, obj, get}
use node_installer.Outcome.{
  ok, ◌>>=◌, ◌>>◌, raise_if, Ensures, Ensures-bind, Ensures-raise_if, Ensures-ok, Ensures-then,
}
use node_installer.App.Envelope.{
  Identity, Envelope, supported_types, require_dict, require_str, require_int, require_nonempty,
  validate_identity, require_hex, require_nat, in_window, read_service, read_ttl, check_payload,
  check_error, check_status, check_relay, error_dict, error_body, relay_peer, relay_inner,
  relay_body, status_in, message_fits, is_text, validate_envelope,
}
use node_installer.App.Sorted.{sort_keys, sort_items, sort_fields, get-sort_fields}

-- A reader that finds the same in a list and in a dictionary that are sorted finds the same in any value.
module _ {ℓ} {A : Type ℓ} (f : Json → A)
    (items : (xs : Items) → f (arr (sort_items xs)) ≡ f (arr xs))
    (dict : (d : Fields) → f (obj (sort_fields d)) ≡ f (obj d)) where
  reader-sort_keys : (x : Json) → f (sort_keys x) ≡ f x
  unfolding sort_keys
  reader-sort_keys null = refl
  reader-sort_keys (bool b) = refl
  reader-sort_keys (int n) = refl
  reader-sort_keys (real m e) = refl
  reader-sort_keys infinity = refl
  reader-sort_keys (str s) = refl
  reader-sort_keys (arr xs) = items xs
  reader-sort_keys (obj d) = dict d

  reader-sorted : (key : String) (d : Fields) → f (get key (sort_fields d)) ≡ f (get key d)
  reader-sorted key d = ap f (get-sort_fields key d) ∙ reader-sort_keys (get key d)

module _ (key : String) (d : Fields) where
  str-sorted : require_str (get key (sort_fields d)) ≡ require_str (get key d)
  str-sorted = reader-sorted require_str (λ xs. refl) (λ e. refl) key d

  int-sorted : require_int (get key (sort_fields d)) ≡ require_int (get key d)
  int-sorted = reader-sorted require_int (λ xs. refl) (λ e. refl) key d

  hex-sorted : require_hex (get key (sort_fields d)) ≡ require_hex (get key d)
  unfolding require_hex
  hex-sorted = reader-sorted require_hex (λ xs. refl) (λ e. refl) key d

  nat-sorted : require_nat (get key (sort_fields d)) ≡ require_nat (get key d)
  unfolding require_nat
  nat-sorted = reader-sorted require_nat (λ xs. refl) (λ e. refl) key d

  nonempty-sorted :
      (n : ℕ) → require_nonempty (get key (sort_fields d)) n ≡ require_nonempty (get key d) n
  unfolding require_nonempty
  nonempty-sorted n =
      reader-sorted (λ (x : Json). require_nonempty x n) (λ xs. refl) (λ e. refl) key d

  status-sorted :
      (lo hi : ℕ) → status_in lo hi (get key (sort_fields d)) ≡ status_in lo hi (get key d)
  status-sorted lo hi = reader-sorted (status_in lo hi) (λ xs. refl) (λ e. refl) key d

  message-sorted : message_fits (get key (sort_fields d)) ≡ message_fits (get key d)
  message-sorted = reader-sorted message_fits (λ xs. refl) (λ e. refl) key d

  text-sorted : is_text (get key (sort_fields d)) ≡ is_text (get key d)
  text-sorted = reader-sorted is_text (λ xs. refl) (λ e. refl) key d

identity_of : (d : Fields) → validate_identity (obj (sort_fields d)) ≡ validate_identity (obj d)
unfolding validate_identity ◌>>=◌
identity_of d = rw (nonempty-sorted "node_id" d 128, nonempty-sorted "peer_id" d 256) refl

error_of : (d : Fields) → error_dict (obj (sort_fields d)) ≡ error_dict (obj d)
unfolding error_dict ◌>>=◌
error_of d = rw (nonempty-sorted "code" d 128, message-sorted "message" d) refl

relay_peer_of : (d : Fields) → relay_peer (obj (sort_fields d)) ≡ relay_peer (obj d)
unfolding relay_peer ◌>>=◌
relay_peer_of d = rw (nonempty-sorted "peer_id" d 256) refl

relay_inner_of : (d : Fields) → relay_inner (obj (sort_fields d)) ≡ relay_inner (obj d)
unfolding relay_inner ◌>>=◌
relay_inner_of d = rw (text-sorted "inner" d) refl

module _ (d : Fields) where
  identity-sorted :
      (key : String) → validate_identity (get key (sort_fields d)) ≡ validate_identity (get key d)
  identity-sorted key =
      reader-sorted validate_identity (λ xs. unfold validate_identity in refl) identity_of key d

  service-sorted :
      (services : List String) (t : String)
      → read_service services t (sort_fields d) ≡ read_service services t d
  unfolding read_service
  service-sorted services t = rw (nonempty-sorted "service" d 128) refl

  ttl-sorted : (t : String) → read_ttl t (sort_fields d) ≡ read_ttl t d
  unfolding read_ttl
  ttl-sorted t = rw (int-sorted "ttl_ms" d) refl

  payload-sorted : (t : String) → check_payload t (sort_fields d) ≡ check_payload t d
  unfolding check_payload
  payload-sorted t =
      reader-sorted
        (λ (x : Json). if t == "req" || t == "res" then require_dict x >>= (λ _. ok tt) else ok tt)
        (λ xs. refl) (λ e. unfold ◌>>=◌ in refl) "payload" d

  error-sorted : (t : String) → check_error t (sort_fields d) ≡ check_error t d
  unfolding check_error error_body
  error-sorted t =
      rw
        (
          status-sorted "status" d 400 599,
          reader-sorted error_dict (λ xs. unfold error_dict in refl) error_of "error" d,
        )
        refl

  status_of-sorted : (t : String) → check_status t (sort_fields d) ≡ check_status t d
  unfolding check_status
  status_of-sorted t = rw (status-sorted "status" d 200 399) refl

  relay-sorted : (t : String) → check_relay t (sort_fields d) ≡ check_relay t d
  unfolding check_relay relay_body
  relay-sorted t =
      rw
        (
          reader-sorted relay_peer (λ xs. unfold relay_peer in refl) relay_peer_of "relay_target" d,
          reader-sorted relay_inner (λ xs. unfold relay_inner in refl) relay_inner_of "payload" d,
        )
        refl

same_dict : {d e : Fields} → require_dict (obj d) ≡ ok e → d ≡ e
same_dict h = cc

-- Validation of the sorted message, from what it reads.
module _ (services : List String) (now : Option ℕ) (d : Fields) where
  abbrev IsSameSorted : Envelope → Type 0
  IsSameSorted e =
      validate_envelope services now (obj (sort_fields d)) ≡ ok (record e { raw = sort_fields d })

  sorted_ok :
      {version : ℤ} {t request_id nonce : String} {source destination : Identity} {timestamp : ℕ}
      {service : Option String} {ttl : Option ℕ}
      → require_int (get "v" d) ≡ ok version
      → not (eqb_ℤ version (pos 1)) ≡ false
      → require_str (get "type" d) ≡ ok t
      → not (contains supported_types t) ≡ false
      → require_hex (get "request_id" d) ≡ ok request_id
      → validate_identity (get "source" d) ≡ ok source
      → validate_identity (get "destination" d) ≡ ok destination
      → require_hex (get "nonce" d) ≡ ok nonce
      → require_nat (get "timestamp_ms" d) ≡ ok timestamp
      → not (in_window now timestamp) ≡ false
      → read_service services t d ≡ ok service
      → read_ttl t d ≡ ok ttl
      → check_payload t d ≡ ok tt
      → check_error t d ≡ ok tt
      → check_status t d ≡ ok tt
      → check_relay t d ≡ ok tt
      → validate_envelope services now (obj (sort_fields d))
        ≡ ok (record {
          raw = sort_fields d;
          msg_type = t;
          request_id = request_id;
          source = source;
          destination = destination;
          service = service;
          timestamp_ms = timestamp;
          nonce = nonce;
          ttl_ms = ttl;
        })
  unfolding validate_envelope ◌>>=◌ ◌>>◌ raise_if
  sorted_ok {version} {t} v one y known r s e n m fresh q l payload failure status relay =
      rw
        (
          int-sorted "v" d,
          v,
          one,
          str-sorted "type" d,
          y,
          known,
          hex-sorted "request_id" d,
          r,
          identity-sorted d "source",
          s,
          identity-sorted d "destination",
          e,
          hex-sorted "nonce" d,
          n,
          nat-sorted "timestamp_ms" d,
          m,
          fresh,
          service-sorted d services t,
          q,
          ttl-sorted d t,
          l,
          payload-sorted d t,
          payload,
          error-sorted d t,
          failure,
          status_of-sorted d t,
          status,
          relay-sorted d t,
          relay,
        )
        refl

module _ (services : List String) (now : Option ℕ) (d : Fields) where
  -- A message that is valid is valid with its keys in order, and its envelope differs in the message alone.
  pub validate_envelope-sort_fields :
      Ensures (IsSameSorted services now d) (validate_envelope services now (obj d))
  unfolding validate_envelope
  validate_envelope-sort_fields = Ensures-bind _ _ λ e dict. Ensures-bind _ _ λ version p_version.
      Ensures-raise_if _ _ _ λ one. Ensures-bind _ _ λ t p_type. Ensures-raise_if _ _ _ λ known.
        Ensures-bind _ _ λ request_id p_id. Ensures-bind _ _ λ source p_source.
          Ensures-bind _ _ λ destination p_destination. Ensures-bind _ _ λ nonce p_nonce.
            Ensures-bind _ _ λ timestamp p_time. Ensures-raise_if _ _ _ λ fresh.
              Ensures-bind _ _ λ service p_service. Ensures-bind _ _ λ ttl p_ttl.
                Ensures-then _ _ λ p_payload. Ensures-then _ _ λ p_error.
                  Ensures-then _ _ λ p_status. Ensures-then _ _ λ p_relay. Ensures-ok _ (
                    subst
                      (λ (m : Fields).
                        validate_envelope services now (obj (sort_fields m))
                        ≡ ok (record {
                          raw = sort_fields m;
                          msg_type = t;
                          request_id = request_id;
                          source = source;
                          destination = destination;
                          service = service;
                          timestamp_ms = timestamp;
                          nonce = nonce;
                          ttl_ms = ttl;
                        }))
                      (sym (same_dict dict))
                      (sorted_ok services now e p_version one p_type known p_id p_source
                        p_destination p_nonce p_time fresh p_service p_ttl p_payload p_error
                        p_status p_relay))
