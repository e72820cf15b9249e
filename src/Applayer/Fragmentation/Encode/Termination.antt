-- ===== src/Applayer/Fragmentation/Encode/Termination.antt =====
-- The search of the encoder ends.
use lorawan.Prelude.{
  [], length, subst, sym, ok, some, Bool-cases, inl, inr, ap, bit_and, ◌==◌, ◌-◌, ℕ, zero, suc,
  Bool, true, arith, refl, ◌≡◌, ◌%◌, ◌/◌, ◌*◌, ◌^◌, ◌<◌, ◌≤◌, ◌+◌, ap₂, bit_xor, not, ◌&&◌, ◌∙◌,
  List, ltb, false, if◌then◌else◌, replicate, ◌++◌, ◌∷◌, leb,
}
use lorawan.Prelude.Bits.{two_pow_lt, bit_and_mask, bit_and_step}
use lorawan.Prelude.Bits.Fields.{bit_flag}
use native.Mathlib.Nat.{
  mod-eq_of_lt, one-le-pow, mod-lt, mul-mod_right, pow-suc, add-mul-mod_self_left, div-add-mod,
}
use lorawan.Applayer.Fragmentation.Encode.{
  coefficients, matrix_line, parity_rows, rows_from, encode, prbs23, is_power2, next_index,
  add_rows,
}
use lorawan.Prelude.Bytes.{Bytes}
use lorawan.Band.LinkAdr.{set_at}

xor_bits : (a b : ℕ) → a < 2 → b < 2 → bit_xor a b ≡ (a + b) % 2
xor_bits zero zero h k = refl
xor_bits zero (suc zero) h k = refl
xor_bits (suc zero) zero h k = refl
xor_bits (suc zero) (suc zero) h k = refl
xor_bits (suc (suc a)) b h k = absurd (omega arith)
xor_bits zero (suc (suc b)) h k = absurd (omega arith)
xor_bits (suc zero) (suc (suc b)) h k = absurd (omega arith)

five_low : (x : ℕ) → bit_and x 32 ≡ x / 32 % 2 * 32 → bit_and x 32 / 32 ≡ x / 32 % 2
five_low x h = omega arith

prbs23_lem : (x : ℕ) → prbs23 x ≡ x / 2 + (x + x / 32) % 2 * 2 ^ 22
unfolding prbs23
prbs23_lem x =
    let low : bit_and x 1 ≡ x % 2 = bit_and_mask 1 x in
    let five : bit_and x 32 ≡ x / 32 % 2 * 32 = bit_flag 5 x in
    omega (
      arith,
      ap₂ bit_xor low (five_low x five),
      xor_bits (x % 2) (x / 32 % 2) (omega arith) (omega arith),
    )

bit_and_self : (n a : ℕ) → a ≤ n → bit_and a a ≡ a
bit_and_self n zero h = refl
bit_and_self zero (suc a) h = absurd (omega arith)
bit_and_self (suc n) (suc a) h =
    omega (arith, bit_and_step (suc a) (suc a), bit_and_self n (suc a / 2) (omega arith))

-- A number that has no bit in common with the one below it is a power of two.
power_below : (n m : ℕ) → m ≤ n → 0 < m → bit_and m (m - 1) ≡ 0 → (k : ℕ) × (m ≡ 2 ^ k)
power_below n zero h p e = absurd (omega arith)
power_below zero (suc m) h p e = absurd (omega arith)
power_below (suc n) (suc zero) h p e = (0, refl)
power_below (suc n) (suc (suc m)) h p e =
    let half = suc (suc m) / 2 in
    elim (Bool-cases (suc (suc m) % 2 == 0)) [
      | inl even ↦
          let below : (suc (suc m) - 1) / 2 ≡ half - 1 = ground arith in
          let step : bit_and half (half - 1) ≡ 0 =
            ground (arith, bit_and_step (suc (suc m)) (suc (suc m) - 1), ap (bit_and half) below) in
          let (k, eq) = power_below n half (omega arith) (omega arith) step in
          (suc k, ground (arith, pow-suc 2 k, eq))
      | inr odd ↦
          let below : (suc (suc m) - 1) / 2 ≡ half = ground arith in
          absurd (
            ground (
              arith,
              bit_and_step (suc (suc m)) (suc (suc m) - 1),
              ap (bit_and half) below,
              bit_and_self half half (omega arith),
            ))
    ]

-- No divisor of these numbers is one above such a power.
abbrev no_divisor : ℕ → Bool
no_divisor k = not (2 ^ 23 % (2 ^ k + 1) == 0) && not ((2 ^ 23 + 1) % (2 ^ k + 1) == 0)

abbrev none_from : ℕ → ℕ → Bool
none_from i zero = true
none_from i (suc n) = no_divisor i && none_from (i + 1) n

none_from_sound : (i n k : ℕ) → none_from i n ≡ true → i ≤ k → k < i + n → no_divisor k ≡ true
none_from_sound i zero k e h l = absurd (omega arith)
none_from_sound i (suc n) k e h l = elim (Bool-cases (k == i)) [
  | inl same ↦ let eq : k ≡ i = ground arith in rw eq (ground (arith, e))
  | inr other ↦
      none_from_sound (i + 1) n k (ground (arith, e)) (ground (arith, other)) (omega arith)
]

-- Where the remainder is the last one twice, with a bit that comes in, the modulus divides one of them.
divides :
    (m x y : ℕ)
    → x % (m + 1) ≡ m
    → y % (m + 1) ≡ m
    → 2 * y + x % 2 ≡ x + 2 ^ 23
    → (2 ^ 23 + 1 - x % 2) % (m + 1) ≡ 0
divides m x y h k e =
    let M = m + 1 in
    let q = x / M in
    let p = y / M in
    let twice : 2 ^ 23 + 1 - x % 2 + M * q ≡ M * (2 * p + 1) =
      ground (arith, div-add-mod x M, div-add-mod y M) in
    sym (add-mul-mod_self_left (2 ^ 23 + 1 - x % 2) M q)
    ∙ ap (λ (v : ℕ). v % M) twice
    ∙ mul-mod_right M (2 * p + 1)

halves :
    (k x : ℕ)
    → 2 ≤ k
    → k ≤ 16
    → x % (2 ^ k + 1) ≡ 2 ^ k
    → prbs23 x % (2 ^ k + 1) ≡ 2 ^ k
    → prbs23 x ≡ x / 2
halves k x h l e f = elim (Bool-cases ((x + x / 32) % 2 == 0)) [
  | inl out ↦ ground (arith, prbs23_lem x)
  | inr in_ ↦
      let sum : 2 * prbs23 x + x % 2 ≡ x + 2 ^ 23 = ground (arith, prbs23_lem x) in
      let d = divides (2 ^ k) x (prbs23 x) e f sum in
      let no = none_from_sound 2 15 k refl h (omega arith) in ground (arith, d, no)
]

-- The search has a result inside the line, from which the next one can start.
abbrev Ends : ℕ → ℕ → ℕ → ℕ → ℕ → Type 0
Ends fuel m modulus x r =
    (y : ℕ) × (i : ℕ) × (next_index fuel m modulus x r ≡ some (y, i)) × (y < 2 ^ 63) × (i < m)

found_at_once : (fuel m modulus x r : ℕ) → r < m → x < 2 ^ 63 → Ends fuel m modulus x r
unfolding next_index
found_at_once zero m modulus x r h small =
    let inside : ltb r m ≡ true = ground arith in (x, r, rw inside refl, small, h)
found_at_once (suc fuel) m modulus x r h small =
    let inside : ltb r m ≡ true = ground arith in (x, r, rw inside refl, small, h)

one_step :
    (fuel m modulus x r : ℕ)
    → m ≤ r
    → Ends fuel m modulus (prbs23 x) (prbs23 x % modulus)
    → Ends (suc fuel) m modulus x r
unfolding next_index
one_step fuel m modulus x r h (y, i, found, small, inside) =
    let outside : ltb r m ≡ false = ground arith in (y, i, rw outside found, small, inside)

prbs23_bound : (x : ℕ) → x < 2 ^ 63 → prbs23 x < 2 ^ 63
prbs23_bound x h = ground (arith, prbs23_lem x)

below_modulus : (x m : ℕ) → x % (m + 1) < m + 1
below_modulus x m = mod-lt x (omega arith)

last_remainder : (m x : ℕ) → m ≤ x % (m + 1) → x % (m + 1) ≡ m
last_remainder m x h = ground (arith, below_modulus x m)

-- Each failure halves the state, so as many steps are enough as it has bits.
halving-Ends :
    (k fuel x : ℕ)
    → 2 ≤ k
    → k ≤ 16
    → x < 2 ^ fuel
    → x < 2 ^ 63
    → Ends (suc fuel) (2 ^ k) (2 ^ k + 1) x (x % (2 ^ k + 1))
halving-Ends k zero x h l bits small =
    let nil : x % (2 ^ k + 1) ≡ x = mod-eq_of_lt (omega (arith, one-le-pow k 2)) in
    found_at_once 1 (2 ^ k) (2 ^ k + 1) x (x % (2 ^ k + 1)) (omega (arith, nil, one-le-pow k 2))
      small
halving-Ends k (suc fuel) x h l bits small = elim (Bool-cases (ltb (x % (2 ^ k + 1)) (2 ^ k))) [
  | inl inside ↦
      found_at_once (suc (suc fuel)) (2 ^ k) (2 ^ k + 1) x (x % (2 ^ k + 1))
        (ground (arith, inside)) small
  | inr outside ↦
      one_step (suc fuel) (2 ^ k) (2 ^ k + 1) x (x % (2 ^ k + 1)) (ground (arith, outside))
        (elim (Bool-cases (ltb (prbs23 x % (2 ^ k + 1)) (2 ^ k))) [
          | inl next ↦
              found_at_once (suc fuel) (2 ^ k) (2 ^ k + 1) (prbs23 x) (prbs23 x % (2 ^ k + 1))
                (ground (arith, next)) (prbs23_bound x small)
          | inr again ↦
              rw
                (halves k x h l (last_remainder (2 ^ k) x (ground (arith, outside)))
                  (last_remainder (2 ^ k) (prbs23 x) (ground (arith, again))))
                (halving-Ends k fuel (x / 2) h l (omega (arith, pow-suc 2 fuel)) (omega arith))
        ])
]

exponent_bounds : (k : ℕ) → 2 < 2 ^ k → 2 ^ k ≤ 2 ^ 16 → (2 ≤ k) × (k ≤ 16)
exponent_bounds zero h l = absurd (omega arith)
exponent_bounds (suc zero) h l = absurd (omega arith)
exponent_bounds (suc (suc k)) h l = (
  omega arith,
  elim (Bool-cases (leb (suc (suc k)) 16)) [
    | inl few ↦ ground (arith, few)
    | inr many ↦ absurd (omega (arith, two_pow_lt (suc (suc k)) 16 (ground (arith, many))))
  ],
)

-- From any state of an int the search of a line of 3 to 65536 coefficients ends.
next_index-Ends :
    (m x : ℕ)
    → 2 < m
    → m ≤ 2 ^ 16
    → x < 2 ^ 63
    → Ends 65 m (m + (if is_power2 m then 1 else 0)) x (2 ^ 16)
unfolding is_power2
next_index-Ends m x h few small =
    one_step 64 m (m + (if is_power2 m then 1 else 0)) x (2 ^ 16) few
      (elim (Bool-cases (is_power2 m)) [
        | inl power ↦
            let (k, eq) = power_below m m (omega arith) (omega arith) (ground (arith, power)) in
            let (lo, hi) = exponent_bounds k (omega (arith, eq)) (omega (arith, eq)) in
            rw power (
              subst (λ (m : ℕ). Ends 64 m (m + 1) (prbs23 x) (prbs23 x % (m + 1))) (sym eq)
                (halving-Ends k 63 (prbs23 x) lo hi (prbs23_bound x small) (prbs23_bound x small)))
        | inr other ↦
            let same : m + 0 ≡ m = omega arith in
            rw (other, same)
              (found_at_once 64 m m (prbs23 x) (prbs23 x % m) (mod-lt (prbs23 x) (omega arith))
                (prbs23_bound x small))
      ])

-- All coefficients of a line are found.
coefficients_end :
    (n m x : ℕ) (line : List ℕ)
    → 2 < m
    → m ≤ 2 ^ 16
    → x < 2 ^ 63
    → (out : List ℕ) × (coefficients 65 n m (m + (if is_power2 m then 1 else 0)) x line ≡ some out)
unfolding coefficients
coefficients_end zero m x line h few small = (line, refl)
coefficients_end (suc n) m x line h few small =
    let (y, i, found, small', inside) = next_index-Ends m x h few small in
    let (out, eq) = coefficients_end n m y (set_at line i 1) h few small' in (out, rw found eq)

pub matrix_line_end :
    (n m : ℕ)
    → 2 < m
    → m ≤ 2 ^ 16
    → 1 + 1001 * n < 2 ^ 63
    → (line : List ℕ) × (matrix_line 65 n m ≡ some line)
unfolding matrix_line
matrix_line_end n m h few small =
    coefficients_end (m / 2) m (1 + 1001 * n) (replicate m 0) h few small

parity_rows_end :
    (y n size : ℕ) (rows : List Bytes)
    → 2 < length rows
    → length rows ≤ 2 ^ 16
    → 1 + 1001 * (y + n) < 2 ^ 63
    → (parity : List Bytes) × (parity_rows 65 y n size rows ≡ some parity) × (length parity ≡ n)
unfolding parity_rows
parity_rows_end y zero size rows h few small = ([], refl, refl)
parity_rows_end y (suc n) size rows h few small =
    let (line, first) = matrix_line_end (y + 1) (length rows) h few (omega arith) in
    let (rest, eq, len) = parity_rows_end (y + 1) n size rows h few (omega arith) in
    (add_rows line rows (replicate size 0) ∷ rest, rw (first, eq) refl, omega (arith, len))

length-rows_from : (i n size : ℕ) (bytes : Bytes) → length (rows_from i n size bytes) ≡ n
unfolding rows_from
length-rows_from i zero size bytes = refl
length-rows_from i (suc n) size bytes = ap suc (length-rows_from (i + 1) n size bytes)

-- For data of a whole number of fragments, from 3 to 65536, and a redundancy whose line numbers
-- fit an int, 65 steps of fuel are enough for each search of the encoder, in particular where the
-- number of fragments is a power of two: the result is the fragments of the data in their order
-- and as many parity fragments as the redundancy says.
pub encode_ends :
    (bytes : Bytes) (size redundancy : ℕ)
    → length bytes % size ≡ 0
    → 2 < length bytes / size
    → length bytes / size ≤ 2 ^ 16
    → 1 + 1001 * redundancy < 2 ^ 63
    → (parity : List Bytes) × (encode 65 bytes size redundancy
        ≡ some (ok (rows_from 0 (length bytes / size) size bytes ++ parity)))
      × (length parity ≡ redundancy)
unfolding encode
encode_ends bytes size redundancy whole h few small =
    let rows = rows_from 0 (length bytes / size) size bytes in
    let count = length-rows_from 0 (length bytes / size) size bytes in
    let (parity, eq, len) =
      parity_rows_end 0 redundancy size rows (omega (arith, count)) (omega (arith, count))
        (omega arith) in
    (parity, rw (whole, eq) refl, len)
