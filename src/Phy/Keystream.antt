-- ===== src/Phy/Keystream.antt =====
-- The functions EncryptFRMPayload and EncryptFOpts of phypayload.go.
pub mod Involution
use lorawan.Prelude.{
  ℕ, Bool, List, [], ◌∷◌, ◌++◌, Result, bit_xor, if◌then◌else◌, suc, length, take, ◌>>=◌, ◌>>◌,
  fail_if, ◌%◌, ◌+◌, ltb, not, ok, ◌==◌, ◌^◌, drop, message, replicate, ◌/◌, zero, ◌-◌,
}
use lorawan.Prelude.Bytes.{Bytes, put_uint32}
use lorawan.Phy.Primitives.{Aes}
use lorawan.Ident.{DevAddr, marshal_dev_addr}

-- `data[j] ^ s[j]`, as far as `s` goes
unfoldable pub xor_bytes : Bytes → Bytes → Bytes
xor_bytes [] ks = []
xor_bytes (x ∷ xs) [] = x ∷ xs
xor_bytes (x ∷ xs) (k ∷ ks) = bit_xor x k ∷ xor_bytes xs ks

-- The counter block `a`: its byte 4, its direction, and its last byte.
abbrev pub counter_block : ℕ → Bool → DevAddr → ℕ → ℕ → Bytes
counter_block kind uplink addr f_cnt i =
    1 ∷ 0 ∷ 0 ∷ 0 ∷ kind ∷ (if uplink then 0 else 1) ∷ (addr ++ (put_uint32 f_cnt ++ (0 ∷ i ∷ [])))

-- `append(data, make([]byte, 16-(pLen%16))...)` where the length is no multiple of 16
unfoldable pub pad_block : Bytes → Bytes
pad_block bs = if length bs % 16 == 0 then bs else bs ++ replicate (16 - length bs % 16) 0

module _ (A : Aes) where
  -- The loop over `n` blocks of the data, from block `i`.
  unfoldable pub xor_blocks : A.Block → Bool → DevAddr → ℕ → ℕ → ℕ → Bytes → Bytes
  xor_blocks block uplink addr f_cnt i zero bs = bs
  xor_blocks block uplink addr f_cnt i (suc n) bs =
      xor_bytes (take 16 bs) (A.encrypt block (counter_block 0 uplink addr f_cnt ((i + 1) % 2 ^ 8)))
      ++ xor_blocks block uplink addr f_cnt (i + 1) n (drop 16 bs)

  -- The cipher of a key, whose blocks must be of 16 bytes.
  unfoldable pub cipher_of : Bytes → Result A.Block
  cipher_of key = do
    b ← A.new_cipher key
    fail_if (not (A.block_size b == 16)) (message "block size of 16 was expected")
    ok b

  unfoldable pub encrypt_frm_payload : Bytes → Bool → DevAddr → ℕ → Bytes → Result Bytes
  encrypt_frm_payload key uplink dev_addr f_cnt bs = do
    let padded = pad_block bs
    block ← cipher_of key
    a ← marshal_dev_addr dev_addr
    ok (take (length bs) (xor_blocks block uplink a f_cnt 0 (length padded / 16) padded))

  unfoldable pub encrypt_f_opts : Bytes → Bool → Bool → DevAddr → ℕ → Bytes → Result Bytes
  encrypt_f_opts key a_f_cnt_down uplink dev_addr f_cnt bs = do
    fail_if (ltb 15 (length bs)) (message "max size of FOpts is 15 bytes")
    block ← cipher_of key
    a ← marshal_dev_addr dev_addr
    ok (
        xor_bytes bs
          (A.encrypt block (counter_block (if a_f_cnt_down then 2 else 1) uplink a f_cnt 1)))
