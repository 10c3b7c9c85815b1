-- ===== src/Text.antt =====
-- Python's text operations that the sources use: `str.strip`, `bytes.fromhex` as a test, `str.lower`
-- on hexadecimal digits, and `int(text)`.
use Prim.Native.Char.{Char, code}
use node_installer.Prelude.{
  ℕ, suc, ◌+◌, ◌-◌, ◌*◌, String, Bool, true, false, ◌&&◌, ◌||◌, Option, none, some, List, [], ◌∷◌,
  leb, eqb, if◌then◌else◌, ℤ, pos, sub_ℕ,
}

-- The code points that `str.strip` removes: those for which `str.isspace` holds.
abbrev pub is_space : ℕ → Bool
is_space c =
    (leb 9 c && leb c 13)
    || (leb 28 c && leb c 32)
    || eqb c 0x85
    || eqb c 0xa0
    || eqb c 0x1680
    || (leb 0x2000 c && leb c 0x200a)
    || eqb c 0x2028
    || eqb c 0x2029
    || eqb c 0x202f
    || eqb c 0x205f
    || eqb c 0x3000

abbrev pub is_empty : String → Bool
is_empty String.[] = true
is_empty (String.◌∷◌ c s) = false

unfoldable pub lstrip : String → String
lstrip String.[] = String.[]
lstrip (String.◌∷◌ c s) = if is_space (code c) then lstrip s else String.◌∷◌ c s

-- A space goes when nothing is left behind it.
abbrev pub drop_space : Char → String → String
drop_space c String.[] = if is_space (code c) then String.[] else String.◌∷◌ c String.[]
drop_space c (String.◌∷◌ d s) = String.◌∷◌ c (String.◌∷◌ d s)

unfoldable pub rstrip : String → String
rstrip String.[] = String.[]
rstrip (String.◌∷◌ c s) = drop_space c (rstrip s)

unfoldable pub strip : String → String
unfolding lstrip rstrip
strip s = rstrip (lstrip s)

-- The code points of a text.
abbrev pub codes : String → List ℕ
codes String.[] = []
codes (String.◌∷◌ c s) = code c ∷ codes s

-- `len(text)`: the number of its code points.
abbrev pub text_len : String → ℕ
text_len String.[] = 0
text_len (String.◌∷◌ c s) = suc (text_len s)

-- The digits of a decimal integer, with single underscores between digits.
-- `after_digit` says whether an underscore may stand here.
unfoldable pub decimal_digits : ℕ → Bool → List ℕ → Option ℕ
decimal_digits n after_digit [] = if after_digit then some n else none
decimal_digits n after_digit (c ∷ cs) =
    let digit = decimal_digits (n * 10 + (c - b'0')) true cs in
    let gap = decimal_digits n false cs in
    if leb b'0' c && leb c b'9' then digit else if eqb c b'_' && after_digit then gap else none

signed : List ℕ → Option ℤ
unfolding decimal_digits
signed [] = none
signed (c ∷ cs) =
    if eqb c b'-'
    then elim (decimal_digits 0 false cs) [ none ↦ none | some n ↦ some (sub_ℕ 0 n) ]
    else if eqb c b'+'
    then elim (decimal_digits 0 false cs) [ none ↦ none | some n ↦ some (pos n) ]
    else elim (decimal_digits 0 false (c ∷ cs)) [ none ↦ none | some n ↦ some (pos n) ]

-- `int(text)` for the ASCII digits; `none` is a ValueError.
unfoldable pub int_of_text : String → Option ℤ
unfolding strip signed
int_of_text s = signed (codes (strip s))
