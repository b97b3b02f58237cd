-- ===== src/Base/Tests.antt =====
-- Boolean tests on the native numbers, the conditional, and a check of a small range by evaluation.
use Prim.Native.Nat.{ℕ, zero, suc, ◌*◌, ◌/◌, ◌^◌, ◌<◌, compare, Ordering}
use mathlib.Core.Path.{◌≡◌, refl}
use mathlib.Core.Logic.{◌↔◌, ◌⊎◌, inl, inr}
use mathlib.Core.Bool.{Bool, true, false}
use native.Mathlib.Omega.{arith}

abbrev pub ltb : ℕ → ℕ → Bool
ltb a b = elim (compare a b) [ Ordering.lt ↦ true | _ ↦ false ]

abbrev pub leb : ℕ → ℕ → Bool
leb a b = elim (compare a b) [ Ordering.gt ↦ false | _ ↦ true ]

infix 50 ◌==◌
abbrev pub ◌==◌ : ℕ → ℕ → Bool
a == b = elim (compare a b) [ Ordering.eq ↦ true | _ ↦ false ]

infix 1 if◌then◌else◌
abbrev pub if◌then◌else◌ {ℓ} : {A : Type ℓ} → Bool → A → A → A
if true then x else y = x
if false then x else y = y

pub ==_iff : (a b : ℕ) → ((a == b) ≡ true) ↔ (a ≡ b)
==_iff a b = ground arith

pub Bool-cases : (b : Bool) → (b ≡ true) ⊎ (b ≡ false)
Bool-cases true = inl refl
Bool-cases false = inr refl

-- x << k where no bit is lost, and x >> k.
abbrev pub shl : ℕ → ℕ → ℕ
shl x k = x * 2 ^ k

abbrev pub shr : ℕ → ℕ → ℕ
shr x k = x / 2 ^ k

-- Two functions return the same for every argument below the bound.
unfoldable pub agree : ℕ → (ℕ → ℕ) → (ℕ → ℕ) → Bool
agree zero f g = true
agree (suc bound) f g = if f bound == g bound then agree bound f g else false

-- A table is compared with a function by evaluation.
pub agree_below : (bound : ℕ) (f g : ℕ → ℕ) (i : ℕ) → agree bound f g ≡ true → i < bound → f i ≡ g i
unfolding agree
agree_below zero f g i h below = absurd (omega arith)
agree_below (suc bound) f g i h below = ground (arith, agree_below bound f g i)
