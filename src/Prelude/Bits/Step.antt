-- ===== src/Prelude/Bits/Step.antt =====
-- One equation for the lowest binary digit of each bitwise operation. The primitives are specified by
-- a recursion on digits that counts down from the first number; the count left over is no matter.
use Prim.Native.Nat.{
  ℕ, zero, suc, ◌+◌, ◌-◌, ◌*◌, ◌/◌, ◌%◌, ◌≤◌, ◌<◌, min, max, digits, bitwise, bit_and, bit_or,
  bit_xor, differ, bit_and-bitwise, bit_or-bitwise, bit_xor-bitwise,
}
use mathlib.Core.Path.{◌≡◌, refl, subst, ◌∙◌}
use native.Mathlib.Omega.{arith}

module _ (last : ℕ → ℕ) (op : ℕ → ℕ → ℕ) where
  -- A count that covers the number may be one larger.
  spare : (count x y : ℕ) → x ≤ count → digits last op (suc count) x y ≡ digits last op count x y
  spare zero zero y le = refl
  spare zero (suc x) y le = absurd (omega arith)
  spare (suc count) zero y le = refl
  spare (suc count) (suc x) y le = rw (spare count (suc x / 2) (y / 2) (omega arith))

  -- So it may be larger by any amount.
  surplus : (more x y : ℕ) → digits last op (x + more) x y ≡ bitwise last op x y
  surplus zero x y = let none : x + 0 ≡ x = omega arith in rw none
  surplus (suc more) x y =
      let next : x + suc more ≡ suc (x + more) = omega arith in
      rw next (spare (x + more) x y (omega arith) ∙ surplus more x y)

  halves : (x y : ℕ) → digits last op x (suc x / 2) y ≡ bitwise last op (suc x / 2) y
  halves x y =
      let h = suc x / 2 in
      let whole : h + (x - h) ≡ x = omega arith in
      subst (λ count. digits last op count h y ≡ bitwise last op h y) whole (surplus (x - h) h y)

  low_digit :
      (x y : ℕ)
      → bitwise last op (suc x) y ≡ bitwise last op (suc x / 2) (y / 2) * 2 + op (suc x % 2) (y % 2)
  low_digit x y = rw (halves x (y / 2))

pub bit_xor_step : (x y : ℕ) → bit_xor x y ≡ bit_xor (x / 2) (y / 2) * 2 + differ (x % 2) (y % 2)
bit_xor_step zero y = simp bit_xor-bitwise (omega arith)
bit_xor_step (suc x) y = simp bit_xor-bitwise (low_digit (λ t. t) differ x y)

pub bit_and_step : (x y : ℕ) → bit_and x y ≡ bit_and (x / 2) (y / 2) * 2 + min (x % 2) (y % 2)
bit_and_step zero y = simp bit_and-bitwise (omega arith)
bit_and_step (suc x) y = simp bit_and-bitwise (low_digit (λ t. 0) min x y)

pub bit_or_step : (x y : ℕ) → bit_or x y ≡ bit_or (x / 2) (y / 2) * 2 + max (x % 2) (y % 2)
bit_or_step zero y = simp bit_or-bitwise (omega arith)
bit_or_step (suc x) y = simp bit_or-bitwise (low_digit (λ t. t) max x y)

digit_sum : (x y : ℕ) → x < 2 → y < 2 → differ x y ≡ (x + y) % 2
digit_sum zero y p q = omega arith
digit_sum (suc zero) zero p q = refl
digit_sum (suc zero) (suc zero) p q = refl
digit_sum (suc zero) (suc (suc y)) p q = absurd (omega arith)
digit_sum (suc (suc x)) y p q = absurd (omega arith)

pub differ_bits : (a b : ℕ) → differ (a % 2) (b % 2) ≡ (a + b) % 2
differ_bits a b = omega (arith, digit_sum (a % 2) (b % 2) (omega arith) (omega arith))
