-- ===== src/Wire.antt =====
-- tep/hb_tep_wire.py: PacketTypes, allocate_packet_types and validate_frozen_packet_types.
pub mod Allocation
pub mod Roundtrip
use node_installer.Prelude.{
  ℕ, ◌+◌, String, Bool, true, false, not, ◌&&◌, ◌||◌, List, [], ◌∷◌, ◌++◌, length, eqb, ◌==◌,
  if◌then◌else◌, ℤ, pos, eqb_ℤ, ltb_ℤ,
}
use node_installer.Outcome.{Outcome, ok, error}

pub record PacketTypes : Type 0 where
  pub app_request : ℤ
  pub app_response : ℤ
  pub app_error : ℤ
  pub relay_request : ℤ
  pub relay_response : ℤ

abbrev pub has : List ℤ → ℤ → Bool
has [] v = false
has (x ∷ xs) v = eqb_ℤ x v || has xs v

-- `PacketTypes.as_dict().values()`
abbrev pub values : PacketTypes → List ℤ
values p = p.app_request ∷ p.app_response ∷ p.app_error ∷ p.relay_request ∷ p.relay_response ∷ []

unfoldable pub type_for_message : PacketTypes → String → Outcome ℤ
type_for_message p t =
    if t == "req"
    then ok p.app_request
    else if t == "res"
    then ok p.app_response
    else if t == "err"
    then ok p.app_error
    else if t == "relay_req"
    then ok p.relay_request
    else if t == "relay_res"
    then ok p.relay_response
    else error "unsupported_type"

-- Of two equal keys of the dictionary the later one counts.
unfoldable pub message_for_type : PacketTypes → ℤ → Outcome String
message_for_type p n =
    if eqb_ℤ p.relay_response n
    then ok "relay_res"
    else if eqb_ℤ p.relay_request n
    then ok "relay_req"
    else if eqb_ℤ p.app_error n
    then ok "err"
    else if eqb_ℤ p.app_response n
    then ok "res"
    else if eqb_ℤ p.app_request n
    then ok "req"
    else error "unknown_packet_type"

abbrev pub is_byte : ℤ → Bool
is_byte v = not (ltb_ℤ v (pos 0)) && not (ltb_ℤ (pos 255) v)

-- The loop over the candidates, which stops at five.
unfoldable pub collect : List ℤ → List ℤ → List ℤ → Outcome (List ℤ)
collect used available [] = ok available
collect used available (v ∷ vs) =
    let skipped = collect used available vs in
    let taken = collect used (available ++ v ∷ []) vs in
    if not (is_byte v)
    then error "invalid_packet_type"
    else if has used v || has available v
    then skipped
    else if eqb (length (available ++ v ∷ [])) 5
    then ok (available ++ v ∷ [])
    else taken

abbrev pub five : List ℤ → Outcome PacketTypes
five (a ∷ b ∷ c ∷ d ∷ e ∷ []) = ok (record {
  app_request = a;
  app_response = b;
  app_error = c;
  relay_request = d;
  relay_response = e;
})
five _ = error "packet_type_exhausted"

abbrev pub five_of : Outcome (List ℤ) → Outcome PacketTypes
five_of (ok l) = five l
five_of (error c) = error c
five_of Outcome.exception = Outcome.exception

unfoldable pub allocate_packet_types : List ℤ → List ℤ → Outcome PacketTypes
allocate_packet_types occupied candidates = five_of (collect occupied [] candidates)

-- `len(set(values)) == len(values)`
unfoldable pub all_distinct : List ℤ → Bool
all_distinct [] = true
all_distinct (x ∷ xs) = not (has xs x) && all_distinct xs

unfoldable pub collides : List ℤ → List ℤ → Bool
collides occupied [] = false
collides occupied (x ∷ xs) = has occupied x || collides occupied xs

unfoldable pub validate_frozen_packet_types : PacketTypes → List ℤ → Outcome (Unit {0})
validate_frozen_packet_types p occupied =
    if not (all_distinct (values p))
    then error "packet_type_collision"
    else if collides occupied (values p)
    then error "packet_type_collision"
    else ok tt
