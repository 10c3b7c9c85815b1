-- ===== src/Daemon/Packet/Roundtrip.antt =====
-- tep/hb_tep.py: what _parse_packet makes of a packet that _build_packet has built.
use node_installer.Prelude.{
  ◌&&◌, ℕ, zero, suc, ◌+◌, ◌*◌, ◌/◌, ◌%◌, ◌^◌, ◌<◌, ◌≤◌, ◌≡◌, refl, ap, ◌∙◌, true, false, some,
  List, [], ◌∷◌, ◌++◌, map, All, All-mono, eqb, ltb, ltb→lt, take, length, length-append, arith,
  Bool-cases, inl, inr,
}
use node_installer.Outcome.{Ensures, Ensures-ok}
use node_installer.Daemon.{tep_version}
use node_installer.Daemon.Packet.{
  big_endian, drop, ascii, from_ascii, drop_zero, rstrip_zero, ljust, node_id_bytes, tep_magic,
  nonce_of, build_packet, same_bytes, byte_at, parse_packet,
}

length-big_endian : (k n : ℕ) → length (big_endian k n) ≡ k
unfolding big_endian
length-big_endian zero n = refl
length-big_endian (suc k) n = ap suc (length-big_endian k n)

length-ljust : (n : ℕ) (bs : List ℕ) → length bs ≤ n → length (ljust n bs) ≡ n
unfolding ljust
length-ljust zero [] h = refl
length-ljust zero (b ∷ bs) h = omega (arith, h)
length-ljust (suc n) [] h = ap suc (length-ljust n [] (omega arith))
length-ljust (suc n) (b ∷ bs) h = ap suc (length-ljust n bs (omega (arith, h)))

length-take : (n : ℕ) (xs : List ℕ) → length (take n xs) ≤ n
length-take zero xs = omega arith
length-take (suc n) [] = omega arith
length-take (suc n) (x ∷ xs) = omega (arith, length-take n xs)

take-append : (n : ℕ) (xs ys : List ℕ) → length xs ≡ n → take n (xs ++ ys) ≡ xs
take-append zero [] ys h = refl
take-append zero (x ∷ xs) ys h = ground (arith, h)
take-append (suc n) [] ys h = ground (arith, h)
take-append (suc n) (x ∷ xs) ys h = ap (x ∷◌) (take-append n xs ys (omega (arith, h)))

drop-append : (k m : ℕ) (xs ys : List ℕ) → k ≡ length xs + m → drop k (xs ++ ys) ≡ drop m ys
unfolding drop
drop-append k m [] ys h = ap (λ n. drop n ys) (omega (arith, h))
drop-append zero m (x ∷ xs) ys h = ground (arith, h)
drop-append (suc k) m (x ∷ xs) ys h = drop-append k m xs ys (omega (arith, h))

byte_at-append :
    (k m : ℕ) (xs ys : List ℕ) → k ≡ length xs + m → byte_at k (xs ++ ys) ≡ byte_at m ys
byte_at-append k m [] ys h = ap (λ n. byte_at n ys) (omega (arith, h))
byte_at-append zero m (x ∷ xs) ys h = omega (arith, h)
byte_at-append (suc k) m (x ∷ xs) ys h = byte_at-append k m xs ys (omega (arith, h))

take_all : (xs : List ℕ) → take (length xs) xs ≡ xs
take_all [] = refl
take_all (x ∷ xs) = ap (x ∷◌) (take_all xs)

rstrip_zero_zeros : (n : ℕ) → rstrip_zero (ljust n []) ≡ []
unfolding rstrip_zero ljust
rstrip_zero_zeros zero = refl
rstrip_zero_zeros (suc n) = rw (rstrip_zero_zeros n) refl

rstrip_zero_nonzero : (b : ℕ) (bs : List ℕ) → eqb b 0 ≡ false → drop_zero b bs ≡ b ∷ bs
rstrip_zero_nonzero b [] h = rw h refl
rstrip_zero_nonzero b (c ∷ cs) h = refl

rstrip_zero_plain : (bs : List ℕ) → All (λ b. eqb b 0 ≡ false) bs → rstrip_zero bs ≡ bs
unfolding rstrip_zero
rstrip_zero_plain [] h = refl
rstrip_zero_plain (b ∷ bs) h = rw (rstrip_zero_plain bs h.1) (rstrip_zero_nonzero b bs h.0)

rstrip_zero-ljust :
    (n : ℕ) (bs : List ℕ) → All (λ b. eqb b 0 ≡ false) bs → rstrip_zero (ljust n bs) ≡ bs
unfolding rstrip_zero ljust
rstrip_zero-ljust zero bs h = rstrip_zero_plain bs h
rstrip_zero-ljust (suc n) [] h = rw (rstrip_zero_zeros n) refl
rstrip_zero-ljust (suc n) (b ∷ bs) h =
    rw (rstrip_zero-ljust n bs h.1) (rstrip_zero_nonzero b bs h.0)

long_enough : (n : ℕ) → ltb (n + 36) 36 ≡ false
long_enough n = ground arith

module _ (kind a b : ℕ) (pad nonce enc : List ℕ) (wide : length pad ≡ 16) (full : length nonce ≡ 12)
    (sized : a * 256 + b ≡ length enc) where
  abbrev after_header : List ℕ
  after_header = (a ∷ b ∷ []) ++ enc

  abbrev wire : List ℕ
  wire = tep_magic ++ tep_version ∷ kind ∷ (pad ++ (nonce ++ after_header))

  length-wire : length wire ≡ length enc + 36
  length-wire = omega (
    arith,
    length-append pad (nonce ++ after_header),
    length-append nonce after_header,
    wide,
    full,
  )

  at_size : (i : ℕ) → byte_at (28 + i) (pad ++ (nonce ++ after_header)) ≡ byte_at i after_header
  at_size i =
      byte_at-append (28 + i) (12 + i) pad (nonce ++ after_header) (omega (arith, wide))
      ∙ byte_at-append (12 + i) i nonce after_header (omega (arith, full))

  payload_at : drop 30 (pad ++ (nonce ++ after_header)) ≡ enc
  unfolding drop
  payload_at =
      drop-append 30 14 pad (nonce ++ after_header) (omega (arith, wide))
      ∙ drop-append 14 2 nonce after_header (omega (arith, full))

  nonce_at : drop 16 (pad ++ (nonce ++ after_header)) ≡ nonce ++ after_header
  unfolding drop
  nonce_at = drop-append 16 0 pad (nonce ++ after_header) (omega (arith, wide))

  parse-wire :
      parse_packet wire
      ≡ some (record {
        version = tep_version;
        kind = kind;
        node_id = map from_ascii (rstrip_zero pad);
        nonce = nonce;
        enc_payload = enc;
      })
  unfolding parse_packet same_bytes drop
  parse-wire =
      rw
        (
          length-wire,
          long_enough (length enc),
          take-append 16 pad (nonce ++ after_header) wide,
          nonce_at,
          take-append 12 nonce after_header full,
          at_size 0,
          at_size 1,
          payload_at,
          sized,
          take_all enc,
        )
        refl

-- A code point of ASCII that is not NUL.
abbrev IsPlain : ℕ → Type 0
IsPlain c = (0 < c) × (c < 128)

ascii_plain : (c : ℕ) → IsPlain c → ascii c ≡ c
ascii_plain c p = ground (arith, p)

from_ascii_plain : (c : ℕ) → IsPlain c → from_ascii c ≡ c
from_ascii_plain c p = ground (arith, p)

not_zero : (c : ℕ) → IsPlain c → eqb c 0 ≡ false
not_zero c p = ground (arith, p)

map_plain :
    (f : ℕ → ℕ) → ((c : ℕ) → IsPlain c → f c ≡ c) → (cs : List ℕ) → All IsPlain cs → map f cs ≡ cs
map_plain f h [] p = refl
map_plain f h (c ∷ cs) p = rw (h c p.0, map_plain f h cs p.1) refl

take-IsPlain : (n : ℕ) (cs : List ℕ) → All IsPlain cs → All IsPlain (take n cs)
take-IsPlain zero cs p = tt
take-IsPlain (suc n) [] p = tt
take-IsPlain (suc n) (c ∷ cs) p = (p.0, take-IsPlain n cs p.1)

length-nonce : (time counter : ℕ) → length (nonce_of time counter) ≡ 12
length-nonce time counter = omega (
  arith,
  length-append (big_endian 8 time) (big_endian 4 (counter % 2 ^ 32)),
  length-big_endian 8 time,
  length-big_endian 4 (counter % 2 ^ 32),
)

two_bytes : (n : ℕ) → ltb n 65536 ≡ true → (n / 256) % 256 * 256 + (n / 1) % 256 ≡ n
two_bytes n h = omega (arith, ltb→lt n 65536 h)

wide_enough : (node_id : List ℕ) → length (ljust 16 (node_id_bytes node_id)) ≡ 16
wide_enough node_id = unfold node_id_bytes in length-ljust 16 _ (length-take 16 (map ascii node_id))

name_back :
    (node_id : List ℕ)
    → All IsPlain node_id
    → map from_ascii (rstrip_zero (ljust 16 (node_id_bytes node_id))) ≡ take 16 node_id
unfolding node_id_bytes
name_back node_id p =
    let short = take-IsPlain 16 node_id p in
    rw
      (
        map_plain ascii ascii_plain node_id p,
        rstrip_zero-ljust 16 (take 16 node_id) (All-mono (take 16 node_id) not_zero short),
      )
      (map_plain from_ascii from_ascii_plain (take 16 node_id) short)

-- A packet that `_build_packet` builds for a node whose id is plain ASCII is parsed to its version and type,
-- the first 16 characters of the id, the nonce of its time and counter, and the encrypted payload.
pub parse_packet-build_packet :
    (node_id : List ℕ) (kind time counter : ℕ) (encrypt : List ℕ → List ℕ)
    → All (λ c. (0 < c) × (c < 128)) node_id
    → let nonce = nonce_of time counter in
      Ensures
        (λ bytes.
          parse_packet bytes
          ≡ some (record {
            version = tep_version;
            kind = kind;
            node_id = take 16 node_id;
            nonce = nonce;
            enc_payload = encrypt nonce;
          }))
        (build_packet node_id kind time counter encrypt)
unfolding build_packet big_endian
parse_packet-build_packet node_id kind time counter encrypt p =
    let nonce = nonce_of time counter in
    let size = length (encrypt nonce) in
    elim (Bool-cases (ltb kind 256 && (ltb time (2 ^ 64) && ltb size (2 ^ 16)))) [
      | inr bad ↦ rw bad (record { at = λ bytes e. cc })
      | inl fits ↦
          let short : ltb size (2 ^ 16) ≡ true = ground arith in
          rw fits (
            Ensures-ok _ (
              parse-wire kind ((size / 256) % 256) ((size / 1) % 256)
                (ljust 16 (node_id_bytes node_id)) nonce (encrypt nonce) (wide_enough node_id)
                (length-nonce time counter) (two_bytes size short)
              ∙ rw (name_back node_id p) refl))
    ]
