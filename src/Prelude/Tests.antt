-- ===== src/Prelude/Tests.antt =====
-- Boolean tests on the native numbers, and the conditional.
use Prim.Native.Nat.{ℕ, zero, suc, ◌≤◌, ◌<◌, compare, Ordering}
use mathlib.Core.Path.{◌≡◌, refl}
use mathlib.Core.Logic.{◌↔◌, ◌⊎◌, inl, inr}
use mathlib.Core.Bool.{Bool, true, false}
use mathlib.Core.Option.{Option, none, some}
use native.Mathlib.Omega.{arith}

abbrev pub ltb : ℕ → ℕ → Bool
ltb a b = elim (compare a b) [ Ordering.lt ↦ true | _ ↦ false ]

abbrev pub leb : ℕ → ℕ → Bool
leb a b = elim (compare a b) [ Ordering.gt ↦ false | _ ↦ true ]

infix 50 ◌==◌
abbrev pub ◌==◌ : ℕ → ℕ → Bool
a == b = elim (compare a b) [ Ordering.eq ↦ true | _ ↦ false ]

infix 1 if◌then◌else◌
abbrev pub if◌then◌else◌ {ℓ} : {A : Type ℓ} → Bool → A → A → A
if true then x else y = x
if false then x else y = y

-- Whether `needed` is at most `available`, by counting down both: it computes at a length whose
-- first elements are known, where `leb` waits.
unfoldable pub fits : ℕ → ℕ → Bool
fits zero available = true
fits (suc needed) zero = false
fits (suc needed) (suc available) = fits needed available

pub fits→le : (a b : ℕ) → fits a b ≡ true → a ≤ b
unfolding fits
fits→le zero b h = omega arith
fits→le (suc a) zero h = cc
fits→le (suc a) (suc b) h = omega (arith, fits→le a b h)

pub le→fits : (a b : ℕ) → a ≤ b → fits a b ≡ true
unfolding fits
le→fits zero b h = refl
le→fits (suc a) zero h = absurd (omega arith)
le→fits (suc a) (suc b) h = le→fits a b (omega arith)

pub lt→not_fits : (a b : ℕ) → b < a → fits a b ≡ false
unfolding fits
lt→not_fits zero b h = absurd (omega arith)
lt→not_fits (suc a) zero h = refl
lt→not_fits (suc a) (suc b) h = lt→not_fits a b (omega arith)

pub not_fits→lt : (a b : ℕ) → fits a b ≡ false → b < a
unfolding fits
not_fits→lt zero b h = cc
not_fits→lt (suc a) zero h = omega arith
not_fits→lt (suc a) (suc b) h = omega (arith, not_fits→lt a b h)

pub ltb→lt : (a b : ℕ) → ltb a b ≡ true → a < b
ltb→lt a b h = ground arith

pub lt→ltb : (a b : ℕ) → a < b → ltb a b ≡ true
lt→ltb a b h = ground arith

pub leb→le : (a b : ℕ) → leb a b ≡ true → a ≤ b
leb→le a b h = ground arith

pub le→leb : (a b : ℕ) → a ≤ b → leb a b ≡ true
le→leb a b h = ground arith

pub ==_iff : (a b : ℕ) → ((a == b) ≡ true) ↔ (a ≡ b)
==_iff a b = ground arith

pub ruleset tests = (arith, ltb→lt, lt→ltb, leb→le, le→leb)

-- To split on a computed value and keep the equation.
pub Bool-cases : (b : Bool) → (b ≡ true) ⊎ (b ≡ false)
Bool-cases true = inl refl
Bool-cases false = inr refl

pub Option-cases {ℓ} : {A : Type ℓ} (o : Option A) → (o ≡ none) ⊎ ((a : A) × (o ≡ some a))
Option-cases none = inl refl
Option-cases (some a) = inr (a, refl)
