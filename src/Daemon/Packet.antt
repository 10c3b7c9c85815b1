-- ===== src/Daemon/Packet.antt =====
-- tep/hb_tep.py: _build_packet and _parse_packet. Bytes are natural numbers; what `encrypt` returns is an
-- argument. A text is given by its code points.
pub mod Roundtrip
use node_installer.Prelude.{
  ℕ, zero, suc, ◌+◌, ◌*◌, ◌/◌, ◌%◌, ◌^◌, ◌<◌, ◌≤◌, ◌≡◌, refl, sym, ap, ◌∙◌, Bool, true, false, ◌&&◌,
  Option, none, some, List, [], ◌∷◌, ◌++◌, map, All, eqb, ltb, leb, if◌then◌else◌, take, length,
  length-append, arith, Bool-cases, inl, inr,
}
use node_installer.Outcome.{Outcome, ok, exception}
use node_installer.Daemon.{tep_version}

-- `struct.pack('>Q' | '>I' | '>H', n)` with 8, 4 or 2 bytes.
unfoldable pub big_endian : ℕ → ℕ → List ℕ
big_endian zero n = []
big_endian (suc k) n = (n / 256 ^ k) % 256 ∷ big_endian k n

-- `s[n:]`
unfoldable pub drop {ℓ} : {A : Type ℓ} → ℕ → List A → List A
drop zero xs = xs
drop (suc n) [] = []
drop (suc n) (x ∷ xs) = drop n xs

-- `s.encode('ascii', 'replace')`
abbrev pub ascii : ℕ → ℕ
ascii c = if ltb c 128 then c else b'?'

-- `b.decode('ascii', 'replace')`
abbrev pub from_ascii : ℕ → ℕ
from_ascii b = if ltb b 128 then b else 0xfffd

abbrev pub drop_zero : ℕ → List ℕ → List ℕ
drop_zero b [] = if eqb b 0 then [] else b ∷ []
drop_zero b (c ∷ cs) = b ∷ c ∷ cs

-- `.rstrip(b'\x00')`
unfoldable pub rstrip_zero : List ℕ → List ℕ
rstrip_zero [] = []
rstrip_zero (b ∷ bs) = drop_zero b (rstrip_zero bs)

-- `.ljust(n, b'\x00')`
unfoldable pub ljust : ℕ → List ℕ → List ℕ
ljust zero bs = bs
ljust (suc n) [] = 0 ∷ ljust n []
ljust (suc n) (b ∷ bs) = b ∷ ljust n bs

-- `node_id.encode('ascii', 'replace')[:16]`
unfoldable pub node_id_bytes : List ℕ → List ℕ
node_id_bytes node_id = take 16 (map ascii node_id)

abbrev pub header_size : ℕ
header_size = 36

-- `b'HBT\x02'`
abbrev pub tep_magic : List ℕ
tep_magic = b'H' ∷ b'B' ∷ b'T' ∷ 2 ∷ []

abbrev pub nonce_of : ℕ → ℕ → List ℕ
nonce_of time counter = big_endian 8 time ++ big_endian 4 (counter % 2 ^ 32)

-- TepEngine._build_packet with the counter after `_next_counter`; `struct.error`, and the ValueError of
-- `bytes` for a type above 255, are exceptions.
unfoldable pub build_packet : List ℕ → ℕ → ℕ → ℕ → (List ℕ → List ℕ) → Outcome (List ℕ)
build_packet node_id pkt_type time counter encrypt =
    let nonce = nonce_of time counter in
    let encrypted = encrypt nonce in
    if ltb pkt_type 256 && (ltb time (2 ^ 64) && ltb (length encrypted) (2 ^ 16))
    then ok (
        tep_magic
        ++ tep_version
          ∷ pkt_type
          ∷ (ljust 16 (node_id_bytes node_id)
              ++ (nonce ++ (big_endian 2 (length encrypted) ++ encrypted))))
    else exception

pub record Packet : Type 0 where
  pub version : ℕ
  pub kind : ℕ
  pub node_id : List ℕ
  pub nonce : List ℕ
  pub enc_payload : List ℕ

unfoldable pub same_bytes : List ℕ → List ℕ → Bool
same_bytes [] [] = true
same_bytes (b ∷ bs) (c ∷ cs) = let rest = same_bytes bs cs in if eqb b c then rest else false
same_bytes _ _ = false

abbrev pub byte_at : ℕ → List ℕ → ℕ
byte_at i [] = 0
byte_at zero (b ∷ bs) = b
byte_at (suc i) (b ∷ bs) = byte_at i bs

-- TepEngine._parse_packet
unfoldable pub parse_packet : List ℕ → Option Packet
parse_packet bytes =
    if ltb (length bytes) header_size
    then none
    else if same_bytes (take 4 bytes) tep_magic
    then (let plen = byte_at 34 bytes * 256 + byte_at 35 bytes in
        some (record {
          version = byte_at 4 bytes;
          kind = byte_at 5 bytes;
          node_id = map from_ascii (rstrip_zero (take 16 (drop 6 bytes)));
          nonce = take 12 (drop 22 bytes);
          enc_payload = take plen (drop 36 bytes);
        }))
    else none
