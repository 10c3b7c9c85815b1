-- ===== src/Outcome.antt =====
-- What a call does: it returns, raises an error with a code, or raises another exception.
use node_installer.Prelude.{
  String, Bool, true, false, ◌≡◌, refl, subst, ◌⊎◌, inl, inr, ℤ, if◌then◌else◌,
}
use node_installer.Json.{PyInt, value, invalid, overflow}

pub data Outcome {ℓ} (A : Type ℓ) : Type ℓ where
  ok : A → Outcome A
  error : String → Outcome A
  exception : Outcome A

infixl 5 ◌>>=◌ ◌>>◌
unfoldable pub ◌>>=◌ {ℓ κ} : {A : Type ℓ} {B : Type κ} → Outcome A → (A → Outcome B) → Outcome B
ok a >>= f = f a
error c >>= f = error c
exception >>= f = exception

unfoldable pub ◌>>◌ {ℓ} : {B : Type ℓ} → Outcome (Unit {0}) → Outcome B → Outcome B
unfolding ◌>>=◌
m >> k = m >>= λ _. k

-- `if bad: raise Error(code)`
unfoldable pub raise_if : Bool → String → Outcome (Unit {0})
raise_if true code = error code
raise_if false code = ok tt

abbrev pub to_int : PyInt → Outcome ℤ
to_int (value n) = ok n
to_int invalid = exception
to_int overflow = exception

-- Whatever the call returns satisfies `P`.
pub record Ensures {ℓ κ} {A : Type ℓ} (P : A → Type κ) (m : Outcome A) : Type (ℓ ⊔ κ) where
  pub at : (a : A) → m ≡ ok a → P a

module _ {ℓ κ} {B : Type ℓ} {P : B → Type κ} where
  pub Ensures-bind {μ} :
      {A : Type μ} (m : Outcome A) (f : A → Outcome B)
      → ((a : A) → m ≡ ok a → Ensures P (f a))
      → Ensures P (m >>= f)
  unfolding ◌>>=◌
  Ensures-bind (ok a) f h = h a refl
  Ensures-bind (error c) f h = record { at = λ b e. cc }
  Ensures-bind exception f h = record { at = λ b e. cc }

  pub Ensures-raise_if :
      (b : Bool) (code : String) (k : Outcome B)
      → (b ≡ false → Ensures P k)
      → Ensures P (raise_if b code >> k)
  unfolding ◌>>◌ raise_if
  Ensures-raise_if true code k h = record { at = λ b e. cc }
  Ensures-raise_if false code k h = h refl

  pub Ensures-then :
      (m : Outcome (Unit {0})) (k : Outcome B) → (m ≡ ok tt → Ensures P k) → Ensures P (m >> k)
  unfolding ◌>>◌
  Ensures-then (ok tt) k h = h refl
  Ensures-then (error c) k h = record { at = λ b e. cc }
  Ensures-then exception k h = record { at = λ b e. cc }

  pub Ensures-error : (code : String) → Ensures P (error code)
  Ensures-error code = record { at = λ b e. cc }

  pub Ensures-if :
      (b : Bool) (m n : Outcome B)
      → (b ≡ true → Ensures P m)
      → (b ≡ false → Ensures P n)
      → Ensures P (if b then m else n)
  Ensures-if true m n hm hn = hm refl
  Ensures-if false m n hm hn = hn refl

pub Ensures-mono {ℓ κ μ} :
    {A : Type ℓ} {P : A → Type κ} {Q : A → Type μ} {m : Outcome A}
    → ((a : A) → P a → Q a)
    → Ensures P m
    → Ensures Q m
Ensures-mono f h = record { at = λ a e. f a (h.at a e) }

ok-injective {ℓ} : {A : Type ℓ} {a b : A} → ok a ≡ ok b → a ≡ b
ok-injective e = cc

pub Ensures-ok {ℓ κ} : {A : Type ℓ} {P : A → Type κ} (a : A) → P a → Ensures P (ok a)
Ensures-ok {P} a h = record { at = λ b e. subst P (ok-injective e) h }

-- To split on the outcome of a call and keep the equation.
pub Outcome-cases {ℓ} :
    {A : Type ℓ} (m : Outcome A)
    → ((a : A) × (m ≡ ok a)) ⊎ (((c : String) × (m ≡ error c)) ⊎ (m ≡ exception))
Outcome-cases (ok a) = inl (a, refl)
Outcome-cases (error c) = inr (inl (c, refl))
Outcome-cases exception = inr (inr refl)
