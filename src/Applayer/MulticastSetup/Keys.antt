-- ===== src/Applayer/MulticastSetup/Keys.antt =====
-- The keys of applayer/multicastsetup/keys.go, over the block cipher of crypto/aes.
use lorawan.Prelude.{
  ◌∷◌, Result, ◌≡◌, ok, replicate, ◌>>=◌, ◌++◌, ◌==◌, ◌>>◌, fail_if, length, not, true, arith,
  message, ok_injective, refl, sym, ◌∙◌, ap, ℕ, get_or, ◌<◌, length-append, All-append,
}
use lorawan.Prelude.Bytes.{Bytes, IsArray, IsByte}
use lorawan.Phy.Primitives.{Aes, IsAes}
use lorawan.Ident.RoundTrip.{dev_addr_lem}
use lorawan.Ident.{DevAddr, marshal_dev_addr}

module _ (A : Aes) where
  unfoldable pub get_key : Bytes → Bytes → Result Bytes
  get_key key b = do
    block ← A.new_cipher key
    fail_if (not (A.block_size block == length b)) (message "block-size is expected")
    ok (A.encrypt block b)

  unfoldable pub get_mc_root_key_for_gen_app_key : Bytes → Result Bytes
  get_mc_root_key_for_gen_app_key gen_app_key = get_key gen_app_key (replicate 16 0)

  unfoldable pub get_mc_root_key_for_app_key : Bytes → Result Bytes
  get_mc_root_key_for_app_key app_key = get_key app_key (0x20 ∷ replicate 15 0)

  unfoldable pub get_mc_ke_key : Bytes → Result Bytes
  get_mc_ke_key mc_root_key = get_key mc_root_key (replicate 16 0)

  -- The address stands behind the first byte.
  unfoldable pub get_mc_app_s_key : Bytes → DevAddr → Result Bytes
  get_mc_app_s_key mc_key mc_addr = do
    addr ← marshal_dev_addr mc_addr
    get_key mc_key (1 ∷ (addr ++ replicate 11 0))

  unfoldable pub get_mc_net_s_key : Bytes → DevAddr → Result Bytes
  get_mc_net_s_key mc_key mc_addr = do
    addr ← marshal_dev_addr mc_addr
    get_key mc_key (2 ∷ (addr ++ replicate 11 0))

  -- A lawful cipher gives a key of 16 bytes for a block of 16 bytes, and other blocks other keys.
  get_key_lem :
      (laws : IsAes A) (key b : Bytes)
      → IsArray 16 key
      → IsArray 16 b
      → (out : Bytes) × (get_key key b ≡ ok out) × IsArray 16 out
  unfolding get_key
  get_key_lem laws key b h k =
      let (block, eq) = laws.accepts key h in
      let size : (A.block_size block == length b) ≡ true =
        ground (arith, laws.sixteen block, k.0) in
      (A.encrypt block b, rw (eq, size) refl, laws.encrypt-IsArray block b k)

  get_key_injective :
      (laws : IsAes A) (key b c out : Bytes)
      → IsArray 16 key
      → IsArray 16 b
      → IsArray 16 c
      → get_key key b ≡ ok out
      → get_key key c ≡ ok out
      → b ≡ c
  unfolding get_key
  get_key_injective laws key b c out h k l e f =
      let (block, eq) = laws.accepts key h in
      let size : (A.block_size block == length b) ≡ true =
        ground (arith, laws.sixteen block, k.0) in
      let size' : (A.block_size block == length c) ≡ true =
        ground (arith, laws.sixteen block, l.0) in
      let first : A.encrypt block b ≡ out = ok_injective (rw (eq, size) at e) in
      let second : A.encrypt block c ≡ out = ok_injective (rw (eq, size') at f) in
      sym (laws.decrypt-encrypt block b k)
      ∙ ap (A.decrypt block) (first ∙ sym second)
      ∙ laws.decrypt-encrypt block c l

  -- The block of a type byte and an address in its byte order.
  address_block-IsArray :
      (t : ℕ) (addr : Bytes) → t < 256 → IsArray 4 addr → IsArray 16 (t ∷ (addr ++ replicate 11 0))
  address_block-IsArray t addr h k = (
    ground (arith, length-append addr (replicate 11 0), k.0),
    (h, All-append IsByte addr (replicate 11 0) k.1 (ground arith)),
  )

  -- Of two blocks with distinct first bytes the keys are distinct.
  get_key-distinct :
      (laws : IsAes A) (key : Bytes) (t u : ℕ) (bs cs : Bytes)
      → IsArray 16 key
      → IsArray 16 (t ∷ bs)
      → IsArray 16 (u ∷ cs)
      → ¬ (t ≡ u)
      → (a b : Bytes) × (get_key key (t ∷ bs) ≡ ok a)
        × (get_key key (u ∷ cs) ≡ ok b)
        × IsArray 16 a
        × IsArray 16 b
        × ¬ (a ≡ b)
  get_key-distinct laws key t u bs cs h k l apart =
      let (a, first, small) = get_key_lem laws key (t ∷ bs) h k in
      let (b, second, small') = get_key_lem laws key (u ∷ cs) h l in
      (
        a,
        b,
        first,
        second,
        small,
        small',
        λ same. apart (
            ap (λ (v : Bytes). get_or v 0 0)
              (get_key_injective laws key (t ∷ bs) (u ∷ cs) b h k l (first ∙ ap ok same) second)),
      )

  -- With a lawful cipher, a 16-byte multicast key and a 4-byte multicast address, the application
  -- and the network session keys are derived without error, are 16 bytes each, and are not the
  -- same.
  pub session_keys_differ :
      (laws : IsAes A) (mc_key : Bytes) (mc_addr : DevAddr)
      → IsArray 16 mc_key
      → IsArray 4 mc_addr
      → (a n : Bytes) × (get_mc_app_s_key mc_key mc_addr ≡ ok a)
        × (get_mc_net_s_key mc_key mc_addr ≡ ok n)
        × IsArray 16 a
        × IsArray 16 n
        × ¬ (a ≡ n)
  unfolding get_mc_app_s_key get_mc_net_s_key
  session_keys_differ laws mc_key mc_addr h k =
      let ((addr, written, len, bytes, _), _, _) = dev_addr_lem mc_addr k in
      let tail = addr ++ replicate 11 0 in
      let (a, n, first, second, small, small', apart) =
        get_key-distinct laws mc_key 1 2 tail tail h
          (address_block-IsArray 1 addr (omega arith) (len, bytes))
          (address_block-IsArray 2 addr (omega arith) (len, bytes)) (λ e. omega arith) in
      (a, n, rw written first, rw written second, small, small', apart)

  -- With a lawful cipher and a 16-byte key, the root keys that are derived from it as GenAppKey and as
  -- AppKey are 16 bytes each, and are not the same.
  pub root_keys_differ :
      (laws : IsAes A) (key : Bytes)
      → IsArray 16 key
      → (a b : Bytes) × (get_mc_root_key_for_gen_app_key key ≡ ok a)
        × (get_mc_root_key_for_app_key key ≡ ok b)
        × IsArray 16 a
        × IsArray 16 b
        × ¬ (a ≡ b)
  unfolding get_mc_root_key_for_gen_app_key get_mc_root_key_for_app_key
  root_keys_differ laws key h =
      get_key-distinct laws key 0 0x20 (replicate 15 0) (replicate 15 0) h (refl, ground arith)
        (refl, ground arith) (λ e. omega arith)
