-- ===== src/Prelude/Bits.antt =====
-- Shifts and masks of Go's unsigned words, as arithmetic, at every width.
mod Step
pub mod Fields
pub mod Table
pub use Step.{bit_and_step}
use Step.{bit_or_step, bit_xor_step, differ_bits}
use Prim.Native.Nat.{ℕ, zero, suc, ◌+◌, ◌-◌, ◌*◌, ◌/◌, ◌%◌, ◌^◌, ◌≤◌, ◌<◌, bit_and, bit_or, bit_xor}
use Prim.Native.Nat.{bit_or-bitwise, bit_xor-bitwise}
use mathlib.Core.Path.{◌≡◌, refl, ap, ap₂, sym, ◌∙◌}
use native.Mathlib.Omega.{arith}
use native.Mathlib.Nat.{pow-suc, one-le-pow, mod-eq_of_lt}
use native.Mathlib.Numerals.{towards_suc}

-- `x << k` on a word of `w` bits, and `x >> k`
abbrev pub shl : ℕ → ℕ → ℕ → ℕ
shl w x k = x * 2 ^ k % 2 ^ w

abbrev pub shr : ℕ → ℕ → ℕ
shr x k = x / 2 ^ k

pub two_pow-add_one : (k : ℕ) → 2 ^ (k + 1) ≡ 2 * 2 ^ k
two_pow-add_one k = simp towards_suc (omega arith)

pub two_pow_lt : (k i : ℕ) → i < k → 2 ^ i < 2 ^ k
two_pow_lt zero i h = absurd (omega arith)
two_pow_lt (suc k) zero h = omega (arith, pow-suc 2 k, one-le-pow k 2)
two_pow_lt (suc k) (suc i) h = omega (arith, pow-suc 2 k, pow-suc 2 i, two_pow_lt k i (omega arith))

-- `1 << i` on a word of `w` bits, for a shift that stays inside
pub shl_one : (w i : ℕ) → i < w → shl w 1 i ≡ 2 ^ i
shl_one w i h =
    let once : 1 * 2 ^ i ≡ 2 ^ i = omega arith in rw once (mod-eq_of_lt (two_pow_lt w i h))

-- The laws go from the half to the number: an induction on a bound.
bit_or-zero_below : (n a : ℕ) → a ≤ n → bit_or a 0 ≡ a
bit_or-zero_below n zero h = refl
bit_or-zero_below zero (suc a) h = absurd (omega arith)
bit_or-zero_below (suc n) (suc a) h =
    omega (arith, bit_or_step (suc a) 0, bit_or-zero_below n (suc a / 2) (omega arith))

bit_xor-zero_below : (n a : ℕ) → a ≤ n → bit_xor a 0 ≡ a
bit_xor-zero_below n zero h = refl
bit_xor-zero_below zero (suc a) h = absurd (omega arith)
bit_xor-zero_below (suc n) (suc a) h = omega (
  arith,
  bit_xor_step (suc a) 0,
  differ_bits (suc a) 0,
  bit_xor-zero_below n (suc a / 2) (omega arith),
)

bit_and-zero_below : (n a : ℕ) → a ≤ n → bit_and a 0 ≡ 0
bit_and-zero_below n zero h = refl
bit_and-zero_below zero (suc a) h = absurd (omega arith)
bit_and-zero_below (suc n) (suc a) h =
    omega (arith, bit_and_step (suc a) 0, bit_and-zero_below n (suc a / 2) (omega arith))

pub bit_or-zero : (a : ℕ) → bit_or a 0 ≡ a
bit_or-zero a = bit_or-zero_below a a (omega arith)

pub bit_xor-zero : (a : ℕ) → bit_xor a 0 ≡ a
bit_xor-zero a = bit_xor-zero_below a a (omega arith)

pub bit_and-zero : (a : ℕ) → bit_and a 0 ≡ 0
bit_and-zero a = bit_and-zero_below a a (omega arith)

zero-bit_or : (b : ℕ) → bit_or 0 b ≡ b
zero-bit_or b = bit_or-bitwise 0 b

zero-bit_xor : (b : ℕ) → bit_xor 0 b ≡ b
zero-bit_xor b = bit_xor-bitwise 0 b

doubled_field : (high width : ℕ) → high * 2 ^ suc width ≡ 2 * (high * 2 ^ width)
doubled_field high width =
    let power : 2 ^ suc width ≡ 2 ^ width * 2 = pow-suc 2 width in rw power (omega arith)

-- One more digit of the exclusive or, without `differ`.
xor_digit : (a b : ℕ) → bit_xor a b ≡ bit_xor (a / 2) (b / 2) * 2 + (a + b) % 2
xor_digit a b = omega (arith, bit_xor_step a b, differ_bits a b)

-- Two words whose digits do not overlap: `|` and `^` add them up, in either order.
pub bit_or_fields : (k q r : ℕ) → r < 2 ^ k → bit_or (q * 2 ^ k) r ≡ q * 2 ^ k + r
bit_or_fields zero q r h = ground (arith, bit_or-zero q)
bit_or_fields (suc k) q r h = ground (
  arith,
  bit_or_step (q * 2 ^ suc k) r,
  doubled_field q k,
  bit_or_fields k q (r / 2) (omega arith),
)

pub bit_or_fields_low : (k q r : ℕ) → r < 2 ^ k → bit_or r (q * 2 ^ k) ≡ q * 2 ^ k + r
bit_or_fields_low zero zero zero h = refl
bit_or_fields_low zero q r h = ground (arith, zero-bit_or q)
bit_or_fields_low (suc k) q r h = ground (
  arith,
  bit_or_step r (q * 2 ^ suc k),
  doubled_field q k,
  bit_or_fields_low k q (r / 2) (omega arith),
)

pub bit_xor_fields : (k q r : ℕ) → r < 2 ^ k → bit_xor (q * 2 ^ k) r ≡ q * 2 ^ k + r
bit_xor_fields zero q r h = ground (arith, bit_xor-zero q)
bit_xor_fields (suc k) q r h = ground (
  arith,
  xor_digit (q * 2 ^ suc k) r,
  doubled_field q k,
  bit_xor_fields k q (r / 2) (omega arith),
)

bit_xor_comm_below : (n a b : ℕ) → a ≤ n → bit_xor a b ≡ bit_xor b a
bit_xor_comm_below n zero b h = zero-bit_xor b ∙ sym (bit_xor-zero b)
bit_xor_comm_below zero (suc a) b h = absurd (omega arith)
bit_xor_comm_below (suc n) (suc a) b h = omega (
  arith,
  xor_digit (suc a) b,
  xor_digit b (suc a),
  bit_xor_comm_below n (suc a / 2) (b / 2) (omega arith),
)

-- `^` is commutative.
pub bit_xor_comm : (a b : ℕ) → bit_xor a b ≡ bit_xor b a
bit_xor_comm a b = bit_xor_comm_below a a b (omega arith)

bit_xor_self_below : (n a : ℕ) → a ≤ n → bit_xor a a ≡ 0
bit_xor_self_below n zero h = refl
bit_xor_self_below zero (suc a) h = absurd (omega arith)
bit_xor_self_below (suc n) (suc a) h =
    omega (arith, xor_digit (suc a) (suc a), bit_xor_self_below n (suc a / 2) (omega arith))

bit_xor_halves :
    (a b : ℕ) → (bit_xor a b / 2 ≡ bit_xor (a / 2) (b / 2)) × (bit_xor a b % 2 ≡ (a + b) % 2)
bit_xor_halves a b = (omega (arith, xor_digit a b), omega (arith, xor_digit a b))

bit_xor_cancel_below : (n a b : ℕ) → a ≤ n → bit_xor (bit_xor a b) b ≡ a
bit_xor_cancel_below n zero b h = rw zero-bit_xor (bit_xor_self_below b b (omega arith))
bit_xor_cancel_below zero (suc a) b h = absurd (omega arith)
bit_xor_cancel_below (suc n) (suc a) b h =
    let (half, low) = bit_xor_halves (suc a) b in
    let digit : bit_xor (bit_xor (suc a) b) b
        ≡ bit_xor (bit_xor (suc a) b / 2) (b / 2) * 2 + (bit_xor (suc a) b + b) % 2 =
      xor_digit (bit_xor (suc a) b) b in
    let folded : bit_xor (bit_xor (suc a) b / 2) (b / 2) ≡ suc a / 2 =
      rw half (bit_xor_cancel_below n (suc a / 2) (b / 2) (omega arith)) in
    omega (arith, digit, folded, low)

-- A second `^` with the same word takes the first one back.
pub bit_xor_cancel : (a b : ℕ) → bit_xor (bit_xor a b) b ≡ a
bit_xor_cancel a b = bit_xor_cancel_below a a b (omega arith)

-- Words of `k` bits stay words of `k` bits.
pub bit_xor-lt : (k a b : ℕ) → a < 2 ^ k → b < 2 ^ k → bit_xor a b < 2 ^ k
bit_xor-lt zero a b p q = ground (arith, bit_xor-zero 0)
bit_xor-lt (suc k) a b p q =
    ground
      (arith, xor_digit a b, pow-suc 2 k, bit_xor-lt k (a / 2) (b / 2) (omega arith) (omega arith))

bit_and_low : (k q r : ℕ) → r < 2 ^ k → bit_and (q * 2 ^ k + r) (2 ^ k - 1) ≡ r
bit_and_low zero q r h = rw bit_and-zero (omega arith)
bit_and_low (suc k) q r h = ground (
  arith,
  bit_and_step (q * 2 ^ suc k + r) (2 ^ suc k - 1),
  doubled_field q k,
  pow-suc 2 k,
  bit_and_low k q (r / 2) (omega arith),
)

-- A mask of `k` low bits is the remainder by `2 ^ k`.
pub bit_and_mask : (k a : ℕ) → bit_and a (2 ^ k - 1) ≡ a % 2 ^ k
bit_and_mask k a = ground (arith, one-le-pow k 2, bit_and_low k (a / 2 ^ k) (a % 2 ^ k))

bit_and_high : (k q m r : ℕ) → r < 2 ^ k → bit_and (q * 2 ^ k + r) (m * 2 ^ k) ≡ bit_and q m * 2 ^ k
bit_and_high zero q m r h =
    let whole : q * 2 ^ 0 + r ≡ q = omega arith in
    let mask : m * 2 ^ 0 ≡ m = omega arith in omega (arith, ap₂ bit_and whole mask)
bit_and_high (suc k) q m r h = ground (
  arith,
  bit_and_step (q * 2 ^ suc k + r) (m * 2 ^ suc k),
  doubled_field q k,
  doubled_field m k,
  doubled_field (bit_and q m) k,
  bit_and_high k q m (r / 2) (omega arith),
)

-- A mask of `w` bits above `k` low ones.
pub bit_and_field : (w k a : ℕ) → bit_and a ((2 ^ w - 1) * 2 ^ k) ≡ a / 2 ^ k % 2 ^ w * 2 ^ k
bit_and_field w k a = ground (
  arith,
  one-le-pow k 2,
  bit_and_high k (a / 2 ^ k) (2 ^ w - 1) (a % 2 ^ k),
  bit_and_mask w (a / 2 ^ k),
)

bit_or_high :
    (k q m r : ℕ) → r < 2 ^ k → bit_or (q * 2 ^ k + r) (m * 2 ^ k) ≡ bit_or q m * 2 ^ k + r
bit_or_high zero q m r h =
    let whole : q * 2 ^ 0 + r ≡ q = omega arith in
    let word : m * 2 ^ 0 ≡ m = omega arith in omega (arith, ap₂ bit_or whole word)
bit_or_high (suc k) q m r h = ground (
  arith,
  bit_or_step (q * 2 ^ suc k + r) (m * 2 ^ suc k),
  doubled_field q k,
  doubled_field m k,
  doubled_field (bit_or q m) k,
  bit_or_high k q m (r / 2) (omega arith),
)

-- Three fields, the middle one set last.
pub bit_or_three :
    (w k p j r : ℕ)
    → r < 2 ^ k
    → j < 2 ^ w
    → bit_or (bit_or r (p * 2 ^ w * 2 ^ k)) (j * 2 ^ k) ≡ (p * 2 ^ w + j) * 2 ^ k + r
bit_or_three w k p j r h g =
    rw (bit_or_fields_low k (p * 2 ^ w) r h)
      (rw (bit_or_high k (p * 2 ^ w) j r h) (rw (bit_or_fields w p j g)))
