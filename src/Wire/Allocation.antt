-- ===== src/Wire/Allocation.antt =====
-- tep/hb_tep_wire.py: the allocation of packet types against the check of frozen ones.
use node_installer.Prelude.{
  ◌≡◌, refl, true, false, ◌||◌, List, [], ◌∷◌, ◌++◌, length, eqb, ℤ, eqb_ℤ, arith, Bool-cases, inl,
  inr,
}
use node_installer.Outcome.{Outcome, ok, error, exception, Ensures, Ensures-error, Ensures-ok}
use node_installer.Wire.{
  PacketTypes, has, values, is_byte, collect, five, five_of, allocate_packet_types, all_distinct,
  collides, validate_frozen_packet_types,
}

-- A list of distinct values that are not in use.
record IsFree (used l : List ℤ) : Type 0 where
  distinct : all_distinct l ≡ true
  free : collides used l ≡ false

has-append : (l : List ℤ) (v x : ℤ) → has (l ++ v ∷ []) x ≡ (has l x || eqb_ℤ v x)
has-append [] v x = ground arith
has-append (y ∷ l) v x = ground (arith, has-append l v x)

all_distinct-append :
    (l : List ℤ) (v : ℤ)
    → all_distinct l ≡ true
    → has l v ≡ false
    → all_distinct (l ++ v ∷ []) ≡ true
unfolding all_distinct
all_distinct-append [] v h k = refl
all_distinct-append (y ∷ l) v h k = ground (arith, all_distinct-append l v, has-append l v y)

collides-append :
    (used l : List ℤ) (v : ℤ)
    → collides used l ≡ false
    → has used v ≡ false
    → collides used (l ++ v ∷ []) ≡ false
unfolding collides
collides-append used [] v h k = ground arith
collides-append used (y ∷ l) v h k = ground (arith, collides-append used l v)

append-IsFree :
    (used l : List ℤ) (v : ℤ)
    → IsFree used l
    → (has used v || has l v) ≡ false
    → IsFree used (l ++ v ∷ [])
append-IsFree used l v h k = record {
  distinct = all_distinct-append l v h.distinct (ground arith);
  free = collides-append used l v h.free (ground arith);
}

collect-IsFree : (used l vs : List ℤ) → IsFree used l → Ensures (IsFree used) (collect used l vs)
unfolding collect
collect-IsFree used l [] h = Ensures-ok l h
collect-IsFree used l (v ∷ vs) h = elim (Bool-cases (is_byte v)) [
  | inr bad ↦ rw bad (Ensures-error _)
  | inl byte ↦ elim (Bool-cases (has used v || has l v)) [
    | inl known ↦ rw (byte, known) (collect-IsFree used l vs h)
    | inr new ↦
        let more = append-IsFree used l v h new in
        elim (Bool-cases (eqb (length (l ++ v ∷ [])) 5)) [
          | inl full ↦ rw (byte, new, full) (Ensures-ok _ more)
          | inr room ↦ rw (byte, new, room) (collect-IsFree used (l ++ v ∷ []) vs more)
        ]
  ]
]

none-IsFree : (used : List ℤ) → IsFree used []
unfolding all_distinct collides
none-IsFree used = record { distinct = refl; free = refl }

abbrev IsFrozen : List ℤ → PacketTypes → Type 0
IsFrozen occupied p = validate_frozen_packet_types p occupied ≡ ok tt

frozen : (occupied : List ℤ) (p : PacketTypes) → IsFree occupied (values p) → IsFrozen occupied p
unfolding validate_frozen_packet_types
frozen occupied p h = rw (h.distinct, h.free) refl

five-IsFrozen : (occupied l : List ℤ) → IsFree occupied l → Ensures (IsFrozen occupied) (five l)
five-IsFrozen occupied (a ∷ b ∷ c ∷ d ∷ e ∷ []) h = Ensures-ok _ (frozen occupied _ h)
five-IsFrozen occupied [] h = Ensures-error _
five-IsFrozen occupied (a ∷ []) h = Ensures-error _
five-IsFrozen occupied (a ∷ b ∷ []) h = Ensures-error _
five-IsFrozen occupied (a ∷ b ∷ c ∷ []) h = Ensures-error _
five-IsFrozen occupied (a ∷ b ∷ c ∷ d ∷ []) h = Ensures-error _
five-IsFrozen occupied (a ∷ b ∷ c ∷ d ∷ e ∷ f ∷ l) h = Ensures-error _

five_of-IsFrozen :
    (occupied : List ℤ) (m : Outcome (List ℤ))
    → Ensures (IsFree occupied) m
    → Ensures (IsFrozen occupied) (five_of m)
five_of-IsFrozen occupied (ok l) h = five-IsFrozen occupied l (h.at l refl)
five_of-IsFrozen occupied (error c) h = Ensures-error c
five_of-IsFrozen occupied exception h = record { at = λ p e. cc }

-- The packet types that `allocate_packet_types` returns pass the check of frozen packet types: they are
-- distinct and none is occupied.
pub allocate_packet_types-IsFrozen :
    (occupied candidates : List ℤ)
    → Ensures
        (λ p. validate_frozen_packet_types p occupied ≡ ok tt)
        (allocate_packet_types occupied candidates)
unfolding allocate_packet_types
allocate_packet_types-IsFrozen occupied candidates =
    five_of-IsFrozen occupied _ (collect-IsFree occupied [] candidates (none-IsFree occupied))
