-- ===== src/Phy/Keystream/Involution.antt =====
-- EncryptFRMPayload and EncryptFOpts of phypayload.go as the exclusive or with a keystream.
use lorawan.Prelude.{
  ℕ, [], ◌∷◌, All, Bool, length, take, ◌≡◌, ap, ap₂, ◌++◌, arith, suc, take-append, bit_xor, refl,
  ◌+◌, ◌%◌, ◌^◌, zero, ◌/◌, Bool-cases, ◌*◌, drop, if◌then◌else◌, ◌==◌, All-append, inl,
  length-drop, inr, length-append, length-take, sym, take-append-drop, ◌∙◌, ==_iff, ok, replicate,
  reverse, ◌-◌, length-replicate, length-reverse, All-reverse, ◌≤◌,
}
use lorawan.Phy.Keystream.{
  xor_bytes, counter_block, pad_block, xor_blocks, cipher_of, encrypt_frm_payload, encrypt_f_opts,
}
use lorawan.Phy.Primitives.{Aes, IsAes}
use lorawan.Prelude.Bytes.{Bytes, IsByte, IsArray, put_uint32}
use lorawan.Ident.{DevAddr, marshal_dev_addr}
use lorawan.Prelude.Bits.{bit_xor-lt, bit_xor_cancel}
use mathlib.Core.List.{append-nil}

pub xor_bytes_cancel : (xs ks : Bytes) → xor_bytes (xor_bytes xs ks) ks ≡ xs
unfolding xor_bytes
xor_bytes_cancel [] ks = refl
xor_bytes_cancel (x ∷ xs) [] = refl
xor_bytes_cancel (x ∷ xs) (k ∷ ks) =
    ap₂ (λ y (t : Bytes). y ∷ t) (bit_xor_cancel x k) (xor_bytes_cancel xs ks)

pub length-xor_bytes : (xs ks : Bytes) → length (xor_bytes xs ks) ≡ length xs
unfolding xor_bytes
length-xor_bytes [] ks = refl
length-xor_bytes (x ∷ xs) [] = refl
length-xor_bytes (x ∷ xs) (k ∷ ks) = ap suc (length-xor_bytes xs ks)

pub xor_bytes-All : (xs ks : Bytes) → All IsByte xs → All IsByte ks → All IsByte (xor_bytes xs ks)
unfolding xor_bytes
xor_bytes-All [] ks h k = tt
xor_bytes-All (x ∷ xs) [] h k = h
xor_bytes-All (x ∷ xs) (y ∷ ks) h k = (bit_xor-lt 8 x y h.0 k.0, xor_bytes-All xs ks h.1 k.1)

-- Bytes that follow do not matter to those before them.
take-xor_bytes : (xs ys ks : Bytes) → take (length xs) (xor_bytes (xs ++ ys) ks) ≡ xor_bytes xs ks
unfolding xor_bytes
take-xor_bytes [] ys ks = refl
take-xor_bytes (x ∷ xs) ys [] = take-append (suc (length xs)) (x ∷ xs) ys refl
take-xor_bytes (x ∷ xs) ys (k ∷ ks) = ap (λ (t : Bytes). bit_xor x k ∷ t) (take-xor_bytes xs ys ks)

-- The front of the data takes the front of the keystream.
xor_bytes-append :
    (xs ys ks ls : Bytes)
    → length xs ≡ length ks
    → xor_bytes (xs ++ ys) (ks ++ ls) ≡ xor_bytes xs ks ++ xor_bytes ys ls
unfolding xor_bytes
xor_bytes-append [] ys [] ls h = refl
xor_bytes-append [] ys (k ∷ ks) ls h = absurd (omega arith)
xor_bytes-append (x ∷ xs) ys [] ls h = absurd (omega arith)
xor_bytes-append (x ∷ xs) ys (k ∷ ks) ls h =
    ap (λ (t : Bytes). bit_xor x k ∷ t) (xor_bytes-append xs ys ks ls (omega arith))

-- The blocks that a payload takes, the last one filled up.
abbrev pub blocks : Bytes → ℕ
blocks bs = (length bs + 15) / 16

pad_block_lem :
    (bs : Bytes)
    → (pad : Bytes) × (pad_block bs ≡ bs ++ pad) × (length (bs ++ pad) ≡ blocks bs * 16)
unfolding pad_block
pad_block_lem bs = elim (Bool-cases (length bs % 16 == 0)) [
  | inl even ↦ (
    [],
    rw (even, append-nil) refl,
    rw append-nil (omega (arith, (==_iff (length bs % 16) 0).0 even)),
  )
  | inr odd ↦
      let pad : Bytes = replicate (16 - length bs % 16) 0 in
      (
        pad,
        rw odd refl,
        ground (arith, odd, length-append bs pad, length-replicate {A = ℕ} (16 - length bs % 16) 0),
      )
]

module _ (A : Aes) (block : A.Block) (uplink : Bool) (addr : DevAddr) (f_cnt : ℕ) where
  abbrev pub keystream : ℕ → ℕ → Bytes
  keystream i zero = []
  keystream i (suc n) =
      A.encrypt block (counter_block 0 uplink addr f_cnt ((i + 1) % 2 ^ 8)) ++ keystream (i + 1) n

module _ (A : Aes) (laws : IsAes A) (block : A.Block) (uplink : Bool) (addr : DevAddr)
    (f_cnt : ℕ) where
  counter_block-IsArray :
      (kind i : ℕ)
      → IsByte kind
      → IsByte i
      → IsArray 4 addr
      → IsArray 16 (counter_block kind uplink addr f_cnt i)
  counter_block-IsArray kind i h k a =
      let tail : Bytes = put_uint32 f_cnt ++ (0 ∷ i ∷ []) in
      let direction : ℕ = if uplink then 0 else 1 in
      let bytes : All IsByte (addr ++ tail) =
        All-append IsByte addr tail a.1
          (omega arith, (omega arith, (omega arith, (omega arith, (omega arith, (k, tt)))))) in
      (
        omega (arith, a.0, length-append addr tail),
        (omega arith, (omega arith, (omega arith, (omega arith, (h, (ground arith, bytes)))))),
      )

  block_size_lem :
      (i : ℕ)
      → IsArray 4 addr
      → IsArray 16 (A.encrypt block (counter_block 0 uplink addr f_cnt ((i + 1) % 2 ^ 8)))
  block_size_lem i a =
      laws.encrypt-IsArray block (counter_block 0 uplink addr f_cnt ((i + 1) % 2 ^ 8))
        (counter_block-IsArray 0 ((i + 1) % 2 ^ 8) (omega arith) (omega arith) a)

  xor_blocks_lem :
      (i n : ℕ) (bs : Bytes)
      → IsArray 4 addr
      → length bs ≡ n * 16
      → xor_blocks A block uplink addr f_cnt i n bs
        ≡ xor_bytes bs (keystream A block uplink addr f_cnt i n)
  unfolding xor_blocks xor_bytes
  xor_blocks_lem i zero [] a h = refl
  xor_blocks_lem i zero (b ∷ bs) a h = absurd (omega arith)
  xor_blocks_lem i (suc n) bs a h =
      let s = A.encrypt block (counter_block 0 uplink addr f_cnt ((i + 1) % 2 ^ 8)) in
      let rest : xor_blocks A block uplink addr f_cnt (i + 1) n (drop 16 bs)
          ≡ xor_bytes (drop 16 bs) (keystream A block uplink addr f_cnt (i + 1) n) =
        xor_blocks_lem (i + 1) n (drop 16 bs) a (omega (arith, length-drop 16 bs)) in
      let front : length (take 16 bs) ≡ length s =
        omega (arith, length-take 16 bs, (block_size_lem i a).0) in
      let split : xor_bytes bs (s ++ keystream A block uplink addr f_cnt (i + 1) n)
          ≡ xor_bytes (take 16 bs) s
            ++ xor_bytes (drop 16 bs) (keystream A block uplink addr f_cnt (i + 1) n) =
        ap (λ (t : Bytes). xor_bytes t (s ++ keystream A block uplink addr f_cnt (i + 1) n))
          (sym (take-append-drop 16 bs))
        ∙ xor_bytes-append (take 16 bs) (drop 16 bs) s
            (keystream A block uplink addr f_cnt (i + 1) n) front in
      rw rest (sym split)

  xor_blocks-pad :
      (bs : Bytes)
      → IsArray 4 addr
      → take
          (length bs)
          (xor_blocks A block uplink addr f_cnt 0 (length (pad_block bs) / 16) (pad_block bs))
        ≡ xor_bytes bs (keystream A block uplink addr f_cnt 0 (blocks bs))
  xor_blocks-pad bs a =
      let (pad, whole, len) = pad_block_lem bs in
      let n : length (bs ++ pad) / 16 ≡ blocks bs = omega (arith, len) in
      rw (whole, n, xor_blocks_lem 0 (blocks bs) (bs ++ pad) a len) (take-xor_bytes bs pad _)

module _ (A : Aes) (laws : IsAes A) (key : Bytes) (uplink : Bool) (dev_addr : DevAddr)
    (f_cnt : ℕ) where
  cipher_of_lem : IsArray 16 key → (block : A.Block) × (cipher_of A key ≡ ok block)
  unfolding cipher_of
  cipher_of_lem k = let (block, e) = laws.accepts key k in (block, rw (e, laws.sixteen) refl)

  -- With a lawful cipher, a 16-byte key and a 4-byte address, EncryptFRMPayload of any bytes is
  -- their exclusive or with the keystream of encrypted counter blocks, one block for each 16
  -- bytes begun, the padding of the last block having no effect.
  pub encrypt_frm_payload_lem :
      IsArray 16 key
      → IsArray 4 dev_addr
      → (block : A.Block) × (cipher_of A key ≡ ok block)
        × ((bs : Bytes)
            → encrypt_frm_payload A key uplink dev_addr f_cnt bs
              ≡ ok (xor_bytes bs (keystream A block uplink (reverse dev_addr) f_cnt 0 (blocks bs))))
  unfolding encrypt_frm_payload marshal_dev_addr
  encrypt_frm_payload_lem k a =
      let (block, e) = cipher_of_lem k in
      let addr : IsArray 4 (reverse dev_addr) =
        (omega (arith, a.0, length-reverse dev_addr), All-reverse IsByte dev_addr a.1) in
      (
        block,
        e,
        λ bs. rw e (ap ok (xor_blocks-pad A laws block uplink (reverse dev_addr) f_cnt bs addr)),
      )

  -- Encrypting what was encrypted gives the payload back.
  pub encrypt_frm_payload_twice :
      IsArray 16 key
      → IsArray 4 dev_addr
      → (bs : Bytes)
      → (enc : Bytes) × (encrypt_frm_payload A key uplink dev_addr f_cnt bs ≡ ok enc)
        × (length enc ≡ length bs)
        × (encrypt_frm_payload A key uplink dev_addr f_cnt enc ≡ ok bs)
  encrypt_frm_payload_twice k a bs =
      let (block, e, lem) = encrypt_frm_payload_lem k a in
      let ks = keystream A block uplink (reverse dev_addr) f_cnt 0 (blocks bs) in
      let enc = xor_bytes bs ks in
      let len : length enc ≡ length bs = length-xor_bytes bs ks in
      (enc, lem bs, len, lem enc ∙ rw len (ap ok (xor_bytes_cancel bs ks)))

  -- With a lawful cipher and a 16-byte key, EncryptFOpts of at most 15 bytes succeeds with as
  -- many bytes, and of its result with the same arguments gives the bytes back.
  pub encrypt_f_opts_twice :
      (a_f_cnt_down : Bool)
      → IsArray 16 key
      → (bs : Bytes) → length bs ≤ 15
      → (enc : Bytes) × (encrypt_f_opts A key a_f_cnt_down uplink dev_addr f_cnt bs ≡ ok enc)
        × (length enc ≡ length bs)
        × (encrypt_f_opts A key a_f_cnt_down uplink dev_addr f_cnt enc ≡ ok bs)
  unfolding encrypt_f_opts marshal_dev_addr
  encrypt_f_opts_twice down k bs h =
      let (block, e) = cipher_of_lem k in
      let s =
        A.encrypt block (counter_block (if down then 2 else 1) uplink (reverse dev_addr) f_cnt 1) in
      let enc = xor_bytes bs s in
      let len : length enc ≡ length bs = length-xor_bytes bs s in
      (enc, rw e (ground arith), len, rw (len, e, xor_bytes_cancel bs s) (ground arith))
