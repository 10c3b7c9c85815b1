-- ===== src/Tests/Wire.antt =====
-- The packet types of tep/hb_tep_wire.py on the default candidates' first values.
use node_installer.Prelude.{◌≡◌, refl, List, [], ◌∷◌, ℤ, pos}
use node_installer.Outcome.{ok, error, Ensures}
use node_installer.Wire.{
  PacketTypes, type_for_message, message_for_type, collect, allocate_packet_types, all_distinct,
  collides, validate_frozen_packet_types,
}
use node_installer.Wire.Allocation.{allocate_packet_types-IsFrozen}
use node_installer.Wire.Roundtrip.{message_for_type-type_for_message}

abbrev occupied : List ℤ
occupied = pos 1 ∷ pos 33 ∷ []

abbrev candidates : List ℤ
candidates = pos 32 ∷ pos 33 ∷ pos 34 ∷ pos 34 ∷ pos 35 ∷ pos 36 ∷ pos 37 ∷ pos 300 ∷ []

abbrev types : PacketTypes
types = record {
  app_request = pos 32;
  app_response = pos 34;
  app_error = pos 35;
  relay_request = pos 36;
  relay_response = pos 37;
}

allocated : allocate_packet_types occupied candidates ≡ ok types
unfolding allocate_packet_types collect
allocated = refl

exhausted : allocate_packet_types occupied (pos 32 ∷ []) ≡ error "packet_type_exhausted"
unfolding allocate_packet_types collect
exhausted = refl

allocate_packet_types-IsFrozen_example :
    Ensures
      (λ p. validate_frozen_packet_types p occupied ≡ ok tt)
      (allocate_packet_types occupied candidates)
allocate_packet_types-IsFrozen_example = allocate_packet_types-IsFrozen occupied candidates

message_for_type-type_for_message_example : message_for_type types (pos 35) ≡ ok "err"
unfolding validate_frozen_packet_types all_distinct collides type_for_message
message_for_type-type_for_message_example =
    message_for_type-type_for_message types occupied "err" (pos 35) refl refl
