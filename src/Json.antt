-- ===== src/Json.antt =====
-- The values that `json.loads` returns, and the built-ins that the sources apply to them.
-- A number with a fraction or an exponent is kept as the decimal m * 10^-e that was written.
use node_installer.Prelude.{
  ℕ, ◌/◌, ◌^◌, String, Bool, true, false, not, ◌&&◌, Option, none, some, eqb, ◌==◌, if◌then◌else◌,
  ℤ, pos, pos_part, neg_part, sub_ℕ,
}
use node_installer.Text.{is_empty, int_of_text}

mutual
  pub data Json : Type 0 where
    null : Json
    bool : Bool → Json
    int : ℤ → Json
    real : ℤ → ℕ → Json
    infinity : Json
    str : String → Json
    arr : Items → Json
    obj : Fields → Json

  pub data Items : Type 0 where
    nil : Items
    cons : Json → Items → Items

  pub data Fields : Type 0 where
    end : Fields
    field : String → Json → Fields → Fields

-- What decoding bytes as UTF-8 and `json.loads` come to: a value, a UnicodeDecodeError or a
-- JSONDecodeError, or another exception, as of nesting that is too deep.
pub data Loaded : Type 0 where
  loaded : Json → Loaded
  malformed : Loaded
  overrun : Loaded

-- `d.get(key, default)`
abbrev pub get_default : String → Json → Fields → Json
get_default key d end = d
get_default key d (field name v rest) = if name == key then v else get_default key d rest

-- `d.get(key)`
abbrev pub get : String → Fields → Json
get key d = get_default key null d

-- `isinstance(x, dict)`, handing the branch the dictionary.
abbrev pub as_dict : Json → Option Fields
as_dict (obj d) = some d
as_dict _ = none

abbrev is_zero : ℤ → Bool
is_zero n = eqb (pos_part n) 0 && eqb (neg_part n) 0

-- `bool(x)`
abbrev pub truthy : Json → Bool
truthy null = false
truthy (bool b) = b
truthy (int n) = not (is_zero n)
truthy (real m e) = not (is_zero m)
truthy infinity = true
truthy (str s) = not (is_empty s)
truthy (arr nil) = false
truthy (arr (cons x xs)) = true
truthy (obj end) = false
truthy (obj (field k v d)) = true

-- `x is True`
abbrev pub is_true : Json → Bool
is_true (bool b) = b
is_true _ = false

-- What `int(x)` does: a value, a TypeError or a ValueError, or an OverflowError.
pub data PyInt : Type 0 where
  value : ℤ → PyInt
  invalid : PyInt
  overflow : PyInt

-- `int` of a decimal drops its fraction.
abbrev truncate : ℤ → ℕ → ℤ
truncate m e = sub_ℕ (pos_part m / 10 ^ e) (neg_part m / 10 ^ e)

abbrev or_invalid : Option ℤ → PyInt
or_invalid none = invalid
or_invalid (some n) = value n

-- `int(x)`
unfoldable pub py_int : Json → PyInt
py_int (int n) = value n
py_int (bool b) = value (pos (if b then 1 else 0))
py_int (real m e) = value (truncate m e)
py_int infinity = overflow
py_int (str s) = or_invalid (int_of_text s)
py_int _ = invalid

-- `x or 0`, `x or ""`
abbrev pub or_zero : Json → Json
or_zero x = if truthy x then x else int (pos 0)

-- `str(x)` of a text is the text; of any other value it is what `repr` makes of it.
abbrev pub py_str : (Json → String) → Json → String
py_str repr (str s) = s
py_str repr x = repr x

-- `str(x or "")`
abbrev pub text_or_empty : (Json → String) → Json → String
text_or_empty repr x = if truthy x then py_str repr x else ""
