-- ===== src/App/Hex.antt =====
-- tep/hb_tep_app.py: `_is_hex`, with `bytes.fromhex`, which skips ASCII whitespace between two bytes.
use node_installer.Prelude.{
  ℕ, zero, suc, String, ◌≡◌, refl, Bool, true, false, not, ◌&&◌, ◌||◌, List, [], ◌∷◌, All, arith,
  leb, eqb, if◌then◌else◌, Bool-cases, inl, inr,
}
use node_installer.Text.{codes, text_len}

-- Py_ISSPACE
abbrev pub is_ascii_space : ℕ → Bool
is_ascii_space c = (leb 9 c && leb c 13) || eqb c 32

abbrev pub is_upper : ℕ → Bool
is_upper c = leb b'A' c && leb c b'Z'

abbrev pub is_hex_digit : ℕ → Bool
is_hex_digit c =
    (leb b'0' c && leb c b'9') || (leb b'a' c && leb c b'f') || (leb b'A' c && leb c b'F')

-- `bytes.fromhex(value)` does not raise.
unfoldable pub fromhex_ok : List ℕ → Bool
fromhex_ok [] = true
fromhex_ok (c ∷ []) = is_ascii_space c
fromhex_ok (c ∷ d ∷ cs) =
    let skipped = fromhex_ok (d ∷ cs) in
    let paired = is_hex_digit c && is_hex_digit d && fromhex_ok cs in
    if is_ascii_space c then skipped else paired

-- `value.lower() == value`, for a text that `fromhex` takes.
unfoldable pub is_lower_text : List ℕ → Bool
is_lower_text [] = true
is_lower_text (c ∷ cs) = not (is_upper c) && is_lower_text cs

unfoldable pub is_hex : String → ℕ → Bool
unfolding fromhex_ok is_lower_text
is_hex value expected_len =
    if eqb (text_len value) expected_len
    then fromhex_ok (codes value) && is_lower_text (codes value)
    else false

-- A lowercase hexadecimal digit, or whitespace.
abbrev pub Accepted : ℕ → Type 0
Accepted c = ((is_ascii_space c || (leb b'0' c && leb c b'9') || (leb b'a' c && leb c b'f')) ≡ true)

digit-Accepted : (c : ℕ) → is_hex_digit c ≡ true → is_upper c ≡ false → Accepted c
digit-Accepted c h l = ground arith

fromhex-Accepted : (cs : List ℕ) → fromhex_ok cs ≡ true → is_lower_text cs ≡ true → All Accepted cs
unfolding fromhex_ok is_lower_text
fromhex-Accepted [] h l = tt
fromhex-Accepted (c ∷ []) h l = (ground arith, tt)
fromhex-Accepted (c ∷ d ∷ cs) h l = elim (Bool-cases (is_ascii_space c)) [
  | inl e ↦ (ground arith, fromhex-Accepted (d ∷ cs) (ground arith) (ground arith))
  | inr e ↦ (
    digit-Accepted c (ground arith) (ground arith),
    (
      digit-Accepted d (ground arith) (ground arith),
      fromhex-Accepted cs (ground arith) (ground arith),
    ),
  )
]

-- A text that passes has the length, and every character is a lowercase hexadecimal digit or
-- whitespace.
pub is_hex-Accepted :
    (value : String) (n : ℕ)
    → is_hex value n ≡ true
    → (text_len value ≡ n) × All Accepted (codes value)
unfolding is_hex
is_hex-Accepted value n h =
    (ground arith, fromhex-Accepted (codes value) (ground arith) (ground arith))

-- A text of spaces.
abbrev pub spaces : ℕ → String
spaces zero = String.[]
spaces (suc n) = String.◌∷◌ " " (spaces n)

fromhex-spaces :
    (n : ℕ) → (fromhex_ok (codes (spaces n)) ≡ true) × (is_lower_text (codes (spaces n)) ≡ true)
unfolding fromhex_ok is_lower_text
fromhex-spaces zero = (refl, refl)
fromhex-spaces (suc zero) = (refl, refl)
fromhex-spaces (suc (suc n)) = fromhex-spaces (suc n)

text_len-spaces : (n : ℕ) → text_len (spaces n) ≡ n
text_len-spaces zero = refl
text_len-spaces (suc n) = omega (arith, text_len-spaces n)

-- A text of spaces passes at its length, though it holds no digit.
pub is_hex-spaces : (n : ℕ) → is_hex (spaces n) n ≡ true
unfolding is_hex
is_hex-spaces n = let (p, q) = fromhex-spaces n in ground (arith, text_len-spaces n)
