-- ===== src/Wire/Roundtrip.antt =====
-- tep/hb_tep_wire.py: from a message to its packet type and back.
use node_installer.Prelude.{
  String, ◌≡◌, refl, sym, subst, ◌⊎◌, inl, inr, Bool, true, false, not, ◌||◌, ◌&&◌, eq_iff, arith,
  if◌then◌else◌, ℤ, eqb_ℤ, Bool-cases, List, [], ◌∷◌, [], ◌∷◌,
}
use node_installer.Outcome.{ok, error}
use node_installer.Wire.{
  PacketTypes, has, values, type_for_message, message_for_type, all_distinct, collides,
  validate_frozen_packet_types,
}

type-cases :
    (p : PacketTypes) (t : String) (n : ℤ)
    → type_for_message p t ≡ ok n
    → ((t ≡ "req") × (p.app_request ≡ n))
      ⊎ ((t ≡ "res") × (p.app_response ≡ n))
      ⊎ ((t ≡ "err") × (p.app_error ≡ n))
      ⊎ ((t ≡ "relay_req") × (p.relay_request ≡ n))
      ⊎ ((t ≡ "relay_res") × (p.relay_response ≡ n))
unfolding type_for_message
type-cases p t n e = ground (
  arith,
  eq_iff t "req",
  eq_iff t "res",
  eq_iff t "err",
  eq_iff t "relay_req",
  eq_iff t "relay_res",
)

-- No type equals a later one.
record IsDistinct (a b c d e : ℤ) : Type 0 where
  ab : eqb_ℤ b a ≡ false
  ac : eqb_ℤ c a ≡ false
  ad : eqb_ℤ d a ≡ false
  ae : eqb_ℤ e a ≡ false
  bc : eqb_ℤ c b ≡ false
  bd : eqb_ℤ d b ≡ false
  be : eqb_ℤ e b ≡ false
  cd : eqb_ℤ d c ≡ false
  ce : eqb_ℤ e c ≡ false
  de : eqb_ℤ e d ≡ false

and-true : (a b : Bool) → (a && b) ≡ true → (a ≡ true) × (b ≡ true)
and-true a b h = ground arith

or4 :
    (a b c d : Bool)
    → not (a || (b || (c || (d || false)))) ≡ true
    → (a ≡ false) × (b ≡ false) × (c ≡ false) × (d ≡ false)
or4 a b c d h = ground arith

or3 :
    (a b c : Bool) → not (a || (b || (c || false))) ≡ true → (a ≡ false) × (b ≡ false) × (c ≡ false)
or3 a b c h = ground arith

or2 : (a b : Bool) → not (a || (b || false)) ≡ true → (a ≡ false) × (b ≡ false)
or2 a b h = ground arith

or1 : (a : Bool) → not (a || false) ≡ true → a ≡ false
or1 a h = ground arith

distinct-IsDistinct :
    (a b c d e : ℤ) → all_distinct (a ∷ b ∷ c ∷ d ∷ e ∷ []) ≡ true → IsDistinct a b c d e
unfolding all_distinct
distinct-IsDistinct a b c d e h =
    let (h1, k1) =
      and-true (not (has (b ∷ c ∷ d ∷ e ∷ []) a)) (all_distinct (b ∷ c ∷ d ∷ e ∷ [])) h in
    let (h2, k2) = and-true (not (has (c ∷ d ∷ e ∷ []) b)) (all_distinct (c ∷ d ∷ e ∷ [])) k1 in
    let (h3, k3) = and-true (not (has (d ∷ e ∷ []) c)) (all_distinct (d ∷ e ∷ [])) k2 in
    let (h4, k4) = and-true (not (has (e ∷ []) d)) (all_distinct (e ∷ [])) k3 in
    let (p1, p2, p3, p4) = or4 (eqb_ℤ b a) (eqb_ℤ c a) (eqb_ℤ d a) (eqb_ℤ e a) h1 in
    let (q1, q2, q3) = or3 (eqb_ℤ c b) (eqb_ℤ d b) (eqb_ℤ e b) h2 in
    let (r1, r2) = or2 (eqb_ℤ d c) (eqb_ℤ e c) h3 in
    record {
      ab = p1;
      ac = p2;
      ad = p3;
      ae = p4;
      bc = q1;
      bd = q2;
      be = q3;
      cd = r1;
      ce = r2;
      de = or1 (eqb_ℤ e d) h4;
    }

eqb_ℤ-refl : (a : ℤ) → eqb_ℤ a a ≡ true
eqb_ℤ-refl a = ground arith

frozen-distinct :
    (p : PacketTypes) (occupied : List ℤ)
    → validate_frozen_packet_types p occupied ≡ ok tt
    → all_distinct (values p) ≡ true
unfolding validate_frozen_packet_types
frozen-distinct p occupied h = elim (Bool-cases (all_distinct (values p))) [
  | inl e ↦ e
  | inr e ↦
      let bad : error "packet_type_collision" ≡ ok tt =
        subst
          (λ b.
            (if not b
              then error "packet_type_collision"
              else if collides occupied (values p)
              then error "packet_type_collision"
              else ok tt)
            ≡ ok tt)
          e h in
      cc
]

-- With packet types that pass the check of frozen ones, the type that a message is sent under is read back
-- as this message.
pub message_for_type-type_for_message :
    (p : PacketTypes) (occupied : List ℤ) (t : String) (n : ℤ)
    → validate_frozen_packet_types p occupied ≡ ok tt
    → type_for_message p t ≡ ok n
    → message_for_type p n ≡ ok t
unfolding message_for_type
message_for_type-type_for_message p occupied t n h e =
    let d =
      distinct-IsDistinct p.app_request p.app_response p.app_error p.relay_request p.relay_response
        (frozen-distinct p occupied h) in
    elim (type-cases p t n e) [
      | inl (named, same) ↦
          rw (sym same, named, d.ae, d.ad, d.ac, d.ab, eqb_ℤ-refl p.app_request) refl
      | inr (inl (named, same)) ↦
          rw (sym same, named, d.be, d.bd, d.bc, eqb_ℤ-refl p.app_response) refl
      | inr (inr (inl (named, same))) ↦
          rw (sym same, named, d.ce, d.cd, eqb_ℤ-refl p.app_error) refl
      | inr (inr (inr (inl (named, same)))) ↦
          rw (sym same, named, d.de, eqb_ℤ-refl p.relay_request) refl
      | inr (inr (inr (inr (named, same)))) ↦ rw (sym same, named, eqb_ℤ-refl p.relay_response) refl
    ]
