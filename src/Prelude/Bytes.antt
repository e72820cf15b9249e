-- ===== src/Prelude/Bytes.antt =====
-- Bytes and words, and the byte orders of encoding/binary.
use Prim.Native.Nat.{ℕ, zero, suc, ◌+◌, ◌*◌, ◌/◌, ◌%◌, ◌^◌, ◌<◌}
use mathlib.Core.Path.{◌≡◌, refl}
use mathlib.Core.List.{List, [], ◌∷◌, ◌++◌}
use native.Mathlib.Omega.{arith}
use lorawan.Prelude.Lists.{length, All}
use lorawan.Prelude.Results.{Result, ok}
use mathlib.Core.Bool.{Bool, true, false, ◌&&◌}
use lorawan.Prelude.Tests.{◌==◌}

abbrev pub Bytes : Type 0
Bytes = List ℕ

abbrev pub IsByte : ℕ → Type 0
IsByte b = b < 2 ^ 8

abbrev pub IsU16 : ℕ → Type 0
IsU16 n = n < 2 ^ 16

abbrev pub IsU32 : ℕ → Type 0
IsU32 n = n < 2 ^ 32

-- What fills a `[n]byte`.
abbrev pub IsArray : ℕ → Bytes → Type 0
IsArray n bs = (length bs ≡ n) × All IsByte bs

-- binary.LittleEndian.PutUint16 and PutUint32
abbrev pub put_uint16 : ℕ → Bytes
put_uint16 n = (n % 256) ∷ (n / 256 % 256) ∷ []

abbrev pub put_uint32 : ℕ → Bytes
put_uint32 n = (n % 256) ∷ (n / 256 % 256) ∷ (n / 65536 % 256) ∷ (n / 16777216 % 256) ∷ []

-- binary.LittleEndian.Uint16 and Uint32. Where the slice is too short Go panics; no caller does that.
abbrev pub uint16 : Bytes → ℕ
uint16 (a ∷ b ∷ _) = a + b * 256
uint16 _ = 0

abbrev pub uint32 : Bytes → ℕ
uint32 (a ∷ b ∷ c ∷ d ∷ _) = a + b * 256 + c * 65536 + d * 16777216
uint32 _ = 0

-- binary.BigEndian.PutUint32 and Uint32
abbrev pub put_uint32_be : ℕ → Bytes
put_uint32_be n = (n / 16777216 % 256) ∷ (n / 65536 % 256) ∷ (n / 256 % 256) ∷ (n % 256) ∷ []

abbrev pub uint32_be : Bytes → ℕ
uint32_be (a ∷ b ∷ c ∷ d ∷ _) = a * 16777216 + b * 65536 + c * 256 + d
uint32_be _ = 0

pub uint16-put_uint16 : (n : ℕ) → IsU16 n → uint16 (put_uint16 n) ≡ n
uint16-put_uint16 n h = omega arith

pub uint32-put_uint32 : (n : ℕ) → IsU32 n → uint32 (put_uint32 n) ≡ n
uint32-put_uint32 n h = omega arith

-- The value has an encoding of `n` bytes, and decodes from it.
abbrev pub RoundTrips {ℓ} : {A : Type ℓ} → (A → Result Bytes) → (Bytes → Result A) → ℕ → A → Type ℓ
RoundTrips marshal unmarshal n a =
    (bs : Bytes) × (marshal a ≡ ok bs) × (length bs ≡ n) × All IsByte bs × (unmarshal bs ≡ ok a)

pub uint32_be-put_uint32_be : (n : ℕ) → IsU32 n → uint32_be (put_uint32_be n) ≡ n
uint32_be-put_uint32_be n h = omega arith

-- A statement about every list of `n` bytes, byte by byte.
abbrev pub Bytewise : ℕ → (Bytes → Type 0) → Type 0
Bytewise zero P = P []
Bytewise (suc n) P = (b : ℕ) → Bytewise n (λ bs. P (b ∷ bs))

pub bytewise : (n : ℕ) (P : Bytes → Type 0) → Bytewise n P → (bs : Bytes) → length bs ≡ n → P bs
bytewise zero P f [] h = f
bytewise zero P f (b ∷ bs) h = absurd (omega arith)
bytewise (suc n) P f [] h = absurd (omega arith)
bytewise (suc n) P f (b ∷ bs) h = bytewise n (λ bs. P (b ∷ bs)) (f b) bs (omega arith)

pub put_uint32_be-uint32_be : (bs : Bytes) → IsArray 4 bs → put_uint32_be (uint32_be bs) ≡ bs
put_uint32_be-uint32_be bs h =
    bytewise 4 (λ bs. All IsByte bs → put_uint32_be (uint32_be bs) ≡ bs) (λ a b c d k. ground arith)
      bs h.0 h.1

-- `a == b` on byte arrays, and bytes.Equal
unfoldable pub bytes_eq : Bytes → Bytes → Bool
bytes_eq [] [] = true
bytes_eq [] (y ∷ ys) = false
bytes_eq (x ∷ xs) [] = false
bytes_eq (x ∷ xs) (y ∷ ys) = x == y && bytes_eq xs ys

pub bytes_eq_refl : (a : Bytes) → bytes_eq a a ≡ true
unfolding bytes_eq
bytes_eq_refl [] = refl
bytes_eq_refl (x ∷ xs) = ground (arith, bytes_eq_refl xs)

pub bytes_eq_sound : (a b : Bytes) → bytes_eq a b ≡ true → a ≡ b
unfolding bytes_eq
bytes_eq_sound [] [] h = refl
bytes_eq_sound [] (y ∷ ys) h = cc
bytes_eq_sound (x ∷ xs) [] h = cc
bytes_eq_sound (x ∷ xs) (y ∷ ys) h = ground (arith, bytes_eq_sound xs ys)

-- A value is written as `n` bytes, which decode to it whatever follows them.
abbrev pub ReadsBack : {A : Type 0} → Result Bytes → (Bytes → Result A) → ℕ → A → Type 0
ReadsBack written read n a =
    (bs : Bytes) × (written ≡ ok bs) × (length bs ≡ n) × ((rest : Bytes) → read (bs ++ rest) ≡ ok a)
