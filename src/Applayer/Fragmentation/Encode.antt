-- ===== src/Applayer/Fragmentation/Encode.antt =====
-- The encoder of applayer/fragmentation/encode.go. Its search is on fuel, and Termination has the
-- fuel that is enough. A fragment size of 0 is a division by zero in Go, and is left aside.
pub mod Termination
use lorawan.Prelude.{
  ℕ, zero, suc, [], ◌∷◌, Bool, List, Option, some, none, Result, ok, err, message, if◌then◌else◌,
  ltb, not, ◌==◌, ◌&&◌, bit_and, bit_xor, ◌+◌, ◌-◌, ◌*◌, ◌/◌, ◌%◌, ◌^◌, replicate, slice, length,
  ◌++◌,
}
use lorawan.Prelude.Bytes.{Bytes}
use lorawan.Band.LinkAdr.{set_at}
use lorawan.Phy.Keystream.{xor_bytes}

abbrev pub and_then : {A B : Type 0} → Option A → (A → Option B) → Option B
and_then none next = none
and_then (some a) next = next a

unfoldable pub prbs23 : ℕ → ℕ
prbs23 x = x / 2 + bit_xor (bit_and x 1) (bit_and x 32 / 32) * 2 ^ 22

unfoldable pub is_power2 : ℕ → Bool
is_power2 num = not (num == 0) && bit_and num (num - 1) == 0

-- `for r >= m`, with the modulus `m + mm`: the last `x` and `r`.
unfoldable pub next_index : ℕ → ℕ → ℕ → ℕ → ℕ → Option (ℕ × ℕ)
next_index zero m modulus x r = if ltb r m then some (x, r) else none
next_index (suc fuel) m modulus x r =
    let rest = next_index fuel m modulus (prbs23 x) (prbs23 x % modulus) in
    if ltb r m then some (x, r) else rest

-- The loop over the coefficients, of which `n` are left.
unfoldable pub coefficients : ℕ → ℕ → ℕ → ℕ → ℕ → List ℕ → Option (List ℕ)
coefficients fuel zero m modulus x line = some line
coefficients fuel (suc n) m modulus x line =
    and_then (next_index fuel m modulus x (2 ^ 16))
      λ found. coefficients fuel n m modulus found.0 (set_at line found.1 1)

unfoldable pub matrix_line : ℕ → ℕ → ℕ → Option (List ℕ)
matrix_line fuel n m =
    coefficients fuel (m / 2) m (m + (if is_power2 m then 1 else 0)) (1 + 1001 * n) (replicate m 0)

-- The rows of the data from number `i` on.
unfoldable pub rows_from : ℕ → ℕ → ℕ → Bytes → List Bytes
rows_from i zero size bytes = []
rows_from i (suc n) size bytes =
    slice (i * size) (i * size + size) bytes ∷ rows_from (i + 1) n size bytes

-- The rows that the line selects, added to `s`.
unfoldable pub add_rows : List ℕ → List Bytes → Bytes → Bytes
add_rows (a ∷ line) (row ∷ rows) s = add_rows line rows (if a == 1 then xor_bytes s row else s)
add_rows line rows s = s

-- The parity rows from number `y` on.
unfoldable pub parity_rows : ℕ → ℕ → ℕ → ℕ → List Bytes → Option (List Bytes)
parity_rows fuel y zero size rows = some []
parity_rows fuel y (suc n) size rows = and_then (matrix_line fuel (y + 1) (length rows)) λ line.
    and_then (parity_rows fuel (y + 1) n size rows)
      λ rest. some (add_rows line rows (replicate size 0) ∷ rest)

unfoldable pub encode : ℕ → Bytes → ℕ → ℕ → Option (Result (List Bytes))
encode fuel bytes size redundancy =
    if not (length bytes % size == 0)
    then some (err (message "length of data must be a multiple of the given fragment-size"))
    else let rows = rows_from 0 (length bytes / size) size bytes in
      and_then (parity_rows fuel 0 redundancy size rows) λ parity. some (ok (rows ++ parity))
