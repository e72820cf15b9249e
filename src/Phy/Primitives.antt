-- ===== src/Phy/Primitives.antt =====
-- The block cipher of crypto/aes and the hash of github.com/jacobsa/crypto/cmac, as parameters.
use lorawan.Prelude.{ℕ, Result, ◌≡◌, ok, length}
use lorawan.Prelude.Bytes.{Bytes, IsArray}

-- `aes.NewCipher` and the methods of `cipher.Block`
pub record Aes : Type 1 where
  pub Block : Type 0
  pub new_cipher : Bytes → Result Block
  pub block_size : Block → ℕ
  pub encrypt : Block → Bytes → Bytes
  pub decrypt : Block → Bytes → Bytes

-- What the package documents: a key of 16 bytes is accepted, blocks are of 16 bytes, and the two
-- directions are inverse to each other.
pub record IsAes (A : Aes) : Type 0 where
  pub accepts : (key : Bytes) → IsArray 16 key → (b : A.Block) × (A.new_cipher key ≡ ok b)
  pub sixteen : (b : A.Block) → A.block_size b ≡ 16
  pub encrypt-IsArray : (b : A.Block) (x : Bytes) → IsArray 16 x → IsArray 16 (A.encrypt b x)
  pub decrypt-IsArray : (b : A.Block) (x : Bytes) → IsArray 16 x → IsArray 16 (A.decrypt b x)
  pub encrypt-decrypt : (b : A.Block) (x : Bytes) → IsArray 16 x → A.encrypt b (A.decrypt b x) ≡ x
  pub decrypt-encrypt : (b : A.Block) (x : Bytes) → IsArray 16 x → A.decrypt b (A.encrypt b x) ≡ x

-- `cmac.New` and the methods of `hash.Hash`
pub record Cmac : Type 1 where
  pub Hash : Type 0
  pub new : Bytes → Result Hash
  pub write : Hash → Bytes → Result Hash
  pub sum : Hash → Bytes

-- What the packages document: a key of 16 bytes is accepted, a write to a hash never fails, and the
-- sum has 16 bytes.
pub record IsCmac (C : Cmac) : Type 0 where
  pub accepts : (key : Bytes) → IsArray 16 key → (h : C.Hash) × (C.new key ≡ ok h)
  pub writes : (h : C.Hash) (bs : Bytes) → (h' : C.Hash) × (C.write h bs ≡ ok h')
  pub sixteen : (h : C.Hash) → length (C.sum h) ≡ 16
