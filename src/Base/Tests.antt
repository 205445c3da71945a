-- ===== src/Base/Tests.antt =====
-- Go's comparisons on native numbers, `if`, and case lemmas that keep the equation.
use Prim.Native.Nat.{ℕ, ◌+◌, ◌%◌, compare, Ordering}
use mathlib.Core.Path.{◌≡◌, refl}
use mathlib.Core.Logic.{◌⊎◌, inl, inr, ◌↔◌}
use mathlib.Core.Bool.{Bool, true, false}
use mathlib.Core.Option.{Option, none, some}
use native.Mathlib.Omega.{arith}

abbrev pub ltb : ℕ → ℕ → Bool
ltb a b = elim (compare a b) [ Ordering.lt ↦ true | _ ↦ false ]

abbrev pub leb : ℕ → ℕ → Bool
leb a b = elim (compare a b) [ Ordering.gt ↦ false | _ ↦ true ]

-- An int64 as its bit pattern, moved so that the signed order is the order of numbers.
abbrev pub signed : ℕ → ℕ
signed x = (x + 9223372036854775808) % 18446744073709551616

-- `a <= b` and `a < b` on int64, of operands that may have wrapped.
abbrev pub le_int64 : ℕ → ℕ → Bool
le_int64 a b = leb (signed a) (signed b)

infix 50 ◌==◌
abbrev pub ◌==◌ : ℕ → ℕ → Bool
a == b = elim (compare a b) [ Ordering.eq ↦ true | _ ↦ false ]

infix 1 if◌then◌else◌
abbrev pub if◌then◌else◌ {ℓ} : {A : Type ℓ} → Bool → A → A → A
if true then x else y = x
if false then x else y = y

pub Bool-cases : (b : Bool) → (b ≡ true) ⊎ (b ≡ false)
Bool-cases true = inl refl
Bool-cases false = inr refl

pub Option-cases {ℓ} : {A : Type ℓ} (o : Option A) → (o ≡ none) ⊎ ((a : A) × (o ≡ some a))
Option-cases none = inl refl
Option-cases (some a) = inr (a, refl)

pub ==_iff : (a b : ℕ) → (a == b ≡ true) ↔ (a ≡ b)
==_iff a b = (λ h. ground arith, λ h. ground arith)

pub true-false : true ≡ false → ⊥
true-false e = cc

pub some-none {ℓ} : {A : Type ℓ} (a : A) → some a ≡ none → ⊥
some-none a e = cc
