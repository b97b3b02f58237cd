-- ===== src/Base/Bits.antt =====
-- `bit_and` with a mask of six ones, and `bit_or` of a multiple of 64 with six bits, as arithmetic.
-- The library defines both operations by the binary digits of the first number; each lemma below
-- doubles the range of the one before it.
use Prim.Native.Nat.{
  ℕ, zero, suc, ◌+◌, ◌*◌, ◌/◌, ◌%◌, ◌≤◌, ◌<◌, min, max, bit_and, bit_or, digits, bit_and-bitwise,
  bit_or-bitwise,
}
use mathlib.Core.Path.{◌≡◌, ◌∙◌}
use native.Mathlib.Omega.{arith}

-- The mask `m` leaves the remainder by `p`.
abbrev Masks : ℕ → ℕ → Type 0
Masks p m = (n a : ℕ) → a ≤ n → digits (λ b. zero) min n a m ≡ a % p

odd_half : (m : ℕ) → (m * 2 + 1) / 2 ≡ m
odd_half m = omega arith

odd_rest : (m : ℕ) → (m * 2 + 1) % 2 ≡ 1
odd_rest m = omega arith

no_mask : Masks 1 0
no_mask zero a le = omega arith
no_mask (suc n) zero le = omega arith
no_mask (suc n) (suc a) le = omega (arith, no_mask n (suc a / 2) (omega arith))

-- A mask with one more digit, for twice the divisor.
Masks-double :
    (p q m : ℕ)
    → ((x : ℕ) → x / 2 % p * 2 + x % 2 ≡ x % q)
    → 0 % q ≡ 0
    → Masks p m
    → Masks q (m * 2 + 1)
Masks-double p q m halves none h zero zero le = omega (arith, none)
Masks-double p q m halves none h (suc n) zero le = omega (arith, none)
Masks-double p q m halves none h zero (suc a) le = absurd (omega arith)
Masks-double p q m halves none h (suc n) (suc a) le =
    rw (odd_half m, odd_rest m) (omega (arith, h n (suc a / 2) (omega arith), halves (suc a)))

mask_63 : Masks 64 63
mask_63 =
    Masks-double 32 64 31 (λ x. omega arith) (omega arith)
      (Masks-double 16 32 15 (λ x. omega arith) (omega arith)
        (Masks-double 8 16 7 (λ x. omega arith) (omega arith)
          (Masks-double 4 8 3 (λ x. omega arith) (omega arith)
            (Masks-double 2 4 1 (λ x. omega arith) (omega arith)
              (Masks-double 1 2 0 (λ x. omega arith) (omega arith) no_mask)))))

-- x & 0x3F
pub bit_and_63 : (a : ℕ) → bit_and a 63 ≡ a % 64
bit_and_63 a = bit_and-bitwise a 63 ∙ mask_63 a a (omega arith)

-- A multiple of `p` and a number below `p` have no digit in common.
abbrev Joins : ℕ → Type 0
Joins p = (n a r : ℕ) → a ≤ n → a % p ≡ 0 → r < p → digits (λ b. b) max n a r ≡ a + r

Joins-one : Joins 1
Joins-one zero a r le d lt = omega arith
Joins-one (suc n) zero r le d lt = omega arith
Joins-one (suc n) (suc a) r le d lt =
    omega (arith, Joins-one n (suc a / 2) (r / 2) (omega arith) (omega arith) (omega arith))

Joins-double :
    (p q : ℕ)
    → ((x : ℕ) → x % q ≡ 0 → (x / 2 % p ≡ 0) × (x % 2 ≡ 0))
    → ((x : ℕ) → x < q → x / 2 < p)
    → Joins p
    → Joins q
Joins-double p q even below h zero a r le d lt = omega arith
Joins-double p q even below h (suc n) zero r le d lt = omega arith
Joins-double p q even below h (suc n) (suc a) r le d lt =
    let (whole, last) = even (suc a) d in
    omega (arith, h n (suc a / 2) (r / 2) (omega arith) whole (below r lt), last)

Joins-64 : Joins 64
Joins-64 =
    Joins-double 32 64 (λ x h. (omega arith, omega arith)) (λ x h. omega arith)
      (Joins-double 16 32 (λ x h. (omega arith, omega arith)) (λ x h. omega arith)
        (Joins-double 8 16 (λ x h. (omega arith, omega arith)) (λ x h. omega arith)
          (Joins-double 4 8 (λ x h. (omega arith, omega arith)) (λ x h. omega arith)
            (Joins-double 2 4 (λ x h. (omega arith, omega arith)) (λ x h. omega arith)
              (Joins-double 1 2 (λ x h. (omega arith, omega arith)) (λ x h. omega arith)
                Joins-one)))))

-- (v << 6) | r for a continuation byte's six bits.
pub bit_or_shifted : (v r : ℕ) → r < 64 → bit_or (v * 64) r ≡ v * 64 + r
bit_or_shifted v r h =
    bit_or-bitwise (v * 64) r ∙ Joins-64 (v * 64) (v * 64) r (omega arith) (omega arith) h
