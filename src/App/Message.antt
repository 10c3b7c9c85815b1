-- ===== src/App/Message.antt =====
-- tep/hb_tep_app.py: decode_message, encode_message and the three constructors of messages. `parse` stands
-- for strict UTF-8 decoding and json.loads, `dump` for json.dumps of a message whose keys are in the order
-- of `sort_keys` with the UTF-8 encoding (`none` is a TypeError or a ValueError); both are libraries of
-- Python. Request ids and nonces from `secrets` are arguments.
pub mod Roundtrip
use node_installer.Prelude.{
  ℕ, ◌≤◌, String, ◌≡◌, Bool, false, ◌||◌, Option, none, some, List, [], ◌∷◌, length, ltb, eqb, ◌==◌,
  if◌then◌else◌, pos, arith, ap, ◌∙◌, sym, subst,
}
use node_installer.Json.{
  Loaded, loaded, malformed, overrun, Json, Fields, int, str, obj, field, end, get,
}
use node_installer.Outcome.{
  Outcome, ok, error, exception, ◌>>=◌, ◌>>◌, raise_if, Ensures, Ensures-bind, Ensures-raise_if,
  Ensures-ok, Ensures-error, Ensures-mono,
}
use node_installer.App.Envelope.{Identity, identity_json, Envelope, validate_envelope}
use node_installer.App.Sorted.{sort_fields}
use node_installer.App.Validity.{IsValid, validate_envelope-IsValid}

abbrev pub max_generic_bytes : ℕ
max_generic_bytes = 65536

-- `_max_size_for_type`
abbrev pub max_size_for_type : String → ℕ
max_size_for_type t =
    if t == "req" || t == "relay_req"
    then 8192
    else if t == "res" || (t == "err" || t == "relay_res")
    then 32768
    else max_generic_bytes

-- `isinstance(t, str) and size > _max_size_for_type(t)`
abbrev oversized : Json → ℕ → Bool
oversized (str t) size = ltb (max_size_for_type t) size
oversized _ size = false

-- What `decode_message` is given: bytes, a text by its UTF-8 bytes (`none` where it has none), or anything
-- else.
pub data Raw : Type 0 where
  in_bytes : List ℕ → Raw
  in_text : Option (List ℕ) → Raw
  in_other : Raw

abbrev parsed : Loaded → Outcome Fields
parsed (loaded (obj d)) = ok d
parsed overrun = exception
parsed _ = error "bad_request"

abbrev dumped : Option (List ℕ) → Outcome (List ℕ)
dumped none = error "bad_request"
dumped (some raw) = ok raw

module _ (parse : List ℕ → Loaded) (dump : Fields → Option (List ℕ)) (services : List String) where
  unfoldable pub decode_bytes : Option ℕ → List ℕ → Outcome Envelope
  decode_bytes now raw = do
    raise_if (eqb (length raw) 0) "bad_request"
    raise_if (ltb max_generic_bytes (length raw)) "bad_request"
    d ← parsed (parse raw)
    raise_if (oversized (get "type" d) (length raw)) "bad_request"
    validate_envelope services now (obj d)

  unfoldable pub decode_message : Option ℕ → Raw → Outcome Envelope
  unfolding decode_bytes
  decode_message now (in_bytes raw) = decode_bytes now raw
  decode_message now (in_text (some raw)) = decode_bytes now raw
  decode_message now (in_text none) = exception
  decode_message now in_other = error "bad_request"

  unfoldable pub encode_message : Fields → Outcome (List ℕ)
  encode_message message = do
    e ← validate_envelope services none (obj message)
    raw ← dumped (dump (sort_fields message))
    raise_if (ltb (max_size_for_type e.msg_type) (length raw)) "bad_request"
    ok raw

  -- A message is returned if it is valid, with its time not looked at.
  abbrev if_valid : Fields → Outcome Fields
  if_valid message = do _ ← validate_envelope services none (obj message); ok message

  unfoldable pub new_request :
      Identity → Identity → Json → Json → Json → Json → String → String → Outcome Fields
  unfolding ◌>>=◌
  new_request source destination service payload ttl_ms timestamp_ms request_id nonce = if_valid (
      field "v" (int (pos 1)) (
        field "type" (str "req") (
          field "request_id" (str request_id) (
            field "source" (identity_json source) (
              field "destination" (identity_json destination) (
                field "service" service (
                  field "timestamp_ms" timestamp_ms (
                    field "nonce" (str nonce)
                      (field "ttl_ms" ttl_ms (field "payload" payload end))))))))))

  -- An answer, with the id and the service of its request.
  abbrev answer :
      String → Fields → Identity → Identity → Json → Json → String → Fields → Outcome Fields
  answer kind request source destination timestamp_ms status nonce rest = if_valid (
      field "v" (int (pos 1)) (
        field "type" (str kind) (
          field "request_id" (get "request_id" request) (
            field "source" (identity_json source) (
              field "destination" (identity_json destination) (
                field "service" (get "service" request) (
                  field "timestamp_ms" timestamp_ms
                    (field "nonce" (str nonce) (field "status" status rest)))))))))

  unfoldable pub new_response :
      Fields → Identity → Identity → Json → Json → Json → String → Outcome Fields
  unfolding ◌>>=◌
  new_response request source destination payload status timestamp_ms nonce =
      answer "res" request source destination timestamp_ms status nonce
        (field "payload" payload end)

  unfoldable pub new_error :
      Fields → Identity → Identity → Json → Json → Json → Json → String → Outcome Fields
  unfolding ◌>>=◌
  new_error request source destination code text status timestamp_ms nonce =
      answer "err" request source destination timestamp_ms status nonce
        (field "error" (obj (field "code" code (field "message" text end))) end)

  -- Bytes that decode to an envelope hold its dictionary, are within the limit of its type, and the
  -- envelope is valid.
  pub record IsDecoded (now : Option ℕ) (raw : List ℕ) (e : Envelope) : Type 0 where
    pub parses : parse raw ≡ loaded (obj e.raw)
    pub valid : IsValid services now (obj e.raw) e
    pub fits : length raw ≤ max_size_for_type e.msg_type

  parsed-eq : (o : Loaded) {d : Fields} → parsed o ≡ ok d → o ≡ loaded (obj d)
  parsed-eq o h = ground arith

  obj-injective : (d d' : Fields) → obj d ≡ obj d' → d ≡ d'
  obj-injective d d' h = cc

  fits-type :
      (x : Json) (t : String) (size : ℕ)
      → x ≡ str t
      → oversized x size ≡ false
      → size ≤ max_size_for_type t
  fits-type x t size e h = ground arith

  decode_bytes-IsDecoded :
      (now : Option ℕ) (raw : List ℕ) → Ensures (IsDecoded now raw) (decode_bytes now raw)
  unfolding decode_bytes
  decode_bytes-IsDecoded now raw = Ensures-raise_if _ _ _ λ _. Ensures-raise_if _ _ _ λ _.
      Ensures-bind _ _ λ d p_d. Ensures-raise_if _ _ _ λ fits. record {
        at = λ e h.
            let v = (validate_envelope-IsValid services now (obj d)).at e h in
            let same = obj-injective d e.raw v.from in
            record {
              parses = parsed-eq _ p_d ∙ ap loaded v.from;
              valid = subst (λ m. IsValid services now m e) v.from v;
              fits =
                  fits-type _ e.msg_type (length raw) v.typed.0 (
                    subst (λ (m : Fields). oversized (get "type" m) (length raw) ≡ false) same
                      fits);
            };
      }

  -- The same of what is given: bytes, or a text that has an encoding.
  abbrev pub IsDecodedFrom : Option ℕ → Raw → Envelope → Type 0
  IsDecodedFrom now (in_bytes raw) e = IsDecoded now raw e
  IsDecodedFrom now (in_text (some raw)) e = IsDecoded now raw e
  IsDecodedFrom now (in_text none) e = ⊥
  IsDecodedFrom now in_other e = ⊥

  -- Whatever `decode_message` returns is a valid envelope that the bytes it is given, or those of the text,
  -- parse to, and the bytes are within the limit for its type.
  pub decode_message-IsDecoded :
      (now : Option ℕ) (raw : Raw) → Ensures (IsDecodedFrom now raw) (decode_message now raw)
  unfolding decode_message
  decode_message-IsDecoded now (in_bytes raw) = decode_bytes-IsDecoded now raw
  decode_message-IsDecoded now (in_text (some raw)) = decode_bytes-IsDecoded now raw
  decode_message-IsDecoded now (in_text none) = record { at = λ e h. cc }
  decode_message-IsDecoded now in_other = Ensures-error _

  pub decode_message-IsValid :
      (now : Option ℕ) (raw : Raw)
      → Ensures (λ e. IsValid services now (obj e.raw) e) (decode_message now raw)
  unfolding decode_message
  decode_message-IsValid now (in_bytes raw) =
      Ensures-mono (λ e d. d.valid) (decode_bytes-IsDecoded now raw)
  decode_message-IsValid now (in_text (some raw)) =
      Ensures-mono (λ e d. d.valid) (decode_bytes-IsDecoded now raw)
  decode_message-IsValid now (in_text none) = record { at = λ e h. cc }
  decode_message-IsValid now in_other = Ensures-error _

  -- What stands behind encoded bytes.
  pub record IsEncoded (message : Fields) (raw : List ℕ) : Type 0 where
    pub envelope : Envelope
    pub valid : validate_envelope services none (obj message) ≡ ok envelope
    pub dumps : dump (sort_fields message) ≡ some raw
    pub fits : ltb (max_size_for_type envelope.msg_type) (length raw) ≡ false

  dumped-eq : (o : Option (List ℕ)) {raw : List ℕ} → dumped o ≡ ok raw → o ≡ some raw
  dumped-eq o h = ground arith

  pub encode_message-IsEncoded :
      (message : Fields) → Ensures (IsEncoded message) (encode_message message)
  unfolding encode_message
  encode_message-IsEncoded message = Ensures-bind _ _ λ e p_e. Ensures-bind _ _ λ raw p_raw.
      Ensures-raise_if _ _ _ λ fits.
        Ensures-ok _ (record { envelope = e; valid = p_e; dumps = dumped-eq _ p_raw; fits = fits })
