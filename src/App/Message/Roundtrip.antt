-- ===== src/App/Message/Roundtrip.antt =====
-- tep/hb_tep_app.py: what decode_message makes of the bytes of encode_message. Only this much is asked of the
-- libraries: what `dump` writes of a message whose keys are in order, `parse` reads as this message.
use node_installer.Prelude.{
  ℕ, String, ◌≡◌, sym, subst, false, Option, none, some, List, [], ◌∷◌, length, ltb, eqb, arith,
}
use node_installer.Json.{Loaded, loaded, malformed, Json, Fields, str, obj, get}
use node_installer.Outcome.{ok, ◌>>=◌, ◌>>◌, raise_if}
use node_installer.App.Envelope.{Envelope, validate_envelope}
use node_installer.App.Validity.{validate_envelope-IsValid}
use node_installer.App.Sorted.{sort_fields}
use node_installer.App.Sorted.Validation.{validate_envelope-sort_fields}
use node_installer.App.Message.{
  max_generic_bytes, max_size_for_type, oversized, in_bytes, decode_bytes, decode_message,
  encode_message, encode_message-IsEncoded,
}

size-generic :
    (t : String) (n : ℕ) → ltb (max_size_for_type t) n ≡ false → ltb max_generic_bytes n ≡ false
size-generic t n h = ground arith

not_oversized :
    (x : Json) (t : String) (n : ℕ)
    → x ≡ str t
    → ltb (max_size_for_type t) n ≡ false
    → oversized x n ≡ false
not_oversized x t n e h = ground arith

obj-injective : (d d' : Fields) → obj d ≡ obj d' → d ≡ d'
obj-injective d d' h = cc

module _ (parse : List ℕ → Loaded) (dump : Fields → Option (List ℕ)) (services : List String) where
  size-loaded :
      (raw : List ℕ) (d : Fields)
      → parse [] ≡ malformed
      → parse raw ≡ loaded (obj d)
      → eqb (length raw) 0 ≡ false
  size-loaded [] d h e = cc
  size-loaded (x ∷ xs) d h e = ground arith

  decoded :
      (d : Fields) (raw : List ℕ) (e : Envelope)
      → parse [] ≡ malformed
      → parse raw ≡ loaded (obj d)
      → validate_envelope services none (obj d) ≡ ok e
      → ltb (max_size_for_type e.msg_type) (length raw) ≡ false
      → decode_bytes parse dump services none raw ≡ ok e
  unfolding decode_bytes ◌>>=◌ ◌>>◌ raise_if
  decoded d raw e empty parses valid fits =
      let v = (validate_envelope-IsValid services none (obj d)).at e valid in
      let same = obj-injective d e.raw v.from in
      let typed : get "type" d ≡ str e.msg_type =
        subst (λ (m : Fields). get "type" m ≡ str e.msg_type) (sym same) v.typed.0 in
      rw
        (
          size-loaded raw d empty parses,
          size-generic e.msg_type (length raw) fits,
          parses,
          not_oversized (get "type" d) e.msg_type (length raw) typed fits,
        )
        valid

  -- Where `parse` reads no empty bytes, and reads a message with its keys in order back from what `dump` makes
  -- of it, the bytes that `encode_message` returns for a message decode, with the time not looked at, to
  -- the envelope of this message, but for the order of the keys in the message that it holds.
  pub decode_message-encode_message :
      (message : Fields) (raw : List ℕ)
      → parse [] ≡ malformed
      → (dump (sort_fields message) ≡ some raw → parse raw ≡ loaded (obj (sort_fields message)))
      → encode_message parse dump services message ≡ ok raw
      → (e : Envelope) × (validate_envelope services none (obj message) ≡ ok e)
        × (decode_message parse dump services none (in_bytes raw)
            ≡ ok (record e { raw = sort_fields message }))
  unfolding decode_message
  decode_message-encode_message message raw empty back made =
      let h = (encode_message-IsEncoded parse dump services message).at raw made in
      (
        h.envelope,
        h.valid,
        decoded (sort_fields message) raw _ empty (back h.dumps)
            ((validate_envelope-sort_fields services none message).at h.envelope h.valid) h.fits,
      )
