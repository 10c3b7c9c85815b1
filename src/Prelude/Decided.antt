-- ===== src/Prelude/Decided.antt =====
-- What a Boolean test of the sources says, as an equation or an order.
use mathlib.Core.Bool.{Bool, true, false, not, ◌||◌}
use mathlib.Core.Path.{◌≡◌}
use native.Mathlib.Omega.{arith}
use Prim.Native.String.{String}
use Prim.Native.Nat.{ℕ, ◌<◌}
use node_installer.Prelude.Tests.{eqb}
use text.Mathlib.Text.{◌==◌}
use text.Mathlib.TextEquality.{eq_iff}
use node_installer.Prelude.Int.{ℤ, ◌≤ℤ◌, ltb_ℤ, eqb_ℤ}

pub not-false : (b : Bool) → not b ≡ false → b ≡ true
not-false b h = ground arith

pub str-eq : (a b : String) → not (a == b) ≡ false → a ≡ b
str-eq a b h = ground (arith, eq_iff a b)

pub or-false : (a b : Bool) → (a || b) ≡ false → (a ≡ false) × (b ≡ false)
or-false a b h = ground arith

pub ltb_ℤ-false : (a b : ℤ) → ltb_ℤ a b ≡ false → b ≤ℤ a
ltb_ℤ-false a b h = ground arith

pub int-eq : (a b : ℤ) → not (eqb_ℤ a b) ≡ false → a ≡ b
int-eq a b h = ground arith

pub eqb_pos : (n : ℕ) → 0 < n → eqb n 0 ≡ false
eqb_pos n p = ground arith
