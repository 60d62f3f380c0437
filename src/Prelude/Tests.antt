-- ===== src/Prelude/Tests.antt =====
-- Boolean tests on the native numbers, as the conditions of C and C++ use them.
use Prim.Native.Nat.{ℕ, compare, Ordering, ◌+◌, ◌-◌, ◌*◌, ◌/◌}
use mathlib.Core.Path.{◌≡◌, refl}
use mathlib.Core.Logic.{◌≢◌, ◌⊎◌, inl, inr}
use native.Mathlib.Omega.{arith}
use mathlib.Core.Bool.{Bool, true, false}

abbrev pub ltb : ℕ → ℕ → Bool
ltb a b = elim (compare a b) [ Ordering.lt ↦ true | _ ↦ false ]

infix 50 ◌==◌
abbrev pub ◌==◌ : ℕ → ℕ → Bool
a == b = elim (compare a b) [ Ordering.eq ↦ true | _ ↦ false ]

infix 1 if◌then◌else◌
abbrev pub if◌then◌else◌ {ℓ} : {A : Type ℓ} → Bool → A → A → A
if true then x else y = x
if false then x else y = y

-- To split on a computed test and keep the equation.
pub Bool-cases : (b : Bool) → (b ≡ true) ⊎ (b ≡ false)
Bool-cases true = inl refl
Bool-cases false = inr refl

pub eqb_false : (a b : ℕ) → a ≢ b → (a == b) ≡ false
eqb_false a b ne = ground arith

pub eqb_true : (a b : ℕ) → a ≡ b → (a == b) ≡ true
eqb_true a b e = ground arith

-- The least multiple of `a` that is at least `v`.
abbrev pub round_up : ℕ → ℕ → ℕ
round_up v a = (v + (a - 1)) / a * a
