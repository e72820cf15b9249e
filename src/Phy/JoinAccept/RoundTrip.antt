-- ===== src/Phy/JoinAccept/RoundTrip.antt =====
-- EncryptJoinAcceptPayload and DecryptJoinAcceptPayload of phypayload.go, one after the other.
use lorawan.Prelude.{
  zero, suc, ℕ, [], ◌∷◌, ◌++◌, ◌≡◌, some, ◌*◌, arith, suc, take, length-take, All-take, ok, drop,
  length-drop, All-drop, length, length-append, ◌/◌, All-append, refl, take-append, drop-append,
  take-append-drop, ◌-◌, ◌%◌, ◌==◌, true, ap, ◌∙◌,
}
use lorawan.Phy.Primitives.{Aes, IsAes}
use lorawan.Phy.JoinAccept.{
  each_block, encrypt_join_accept_payload, decrypt_join_accept_payload, decipher_join_accept,
  decode_join_accept, zero_join_accept,
}
use lorawan.Prelude.Bytes.{Bytes, IsArray, IsByte}
use lorawan.Phy.Packet.{PhyPayload, element}
use lorawan.Join.Accept.{JoinAcceptPayload}
use lorawan.Frame.Element.{join_accept, data_payload}
use lorawan.Phy.Keystream.{cipher_of}
use lorawan.Join.Accept.RoundTrip.{
  JoinAcceptInRange, CfListCarried, join_accept_lem, cf_list_size_cases,
}

-- Block by block, a function and one that undoes it.
each_block_lem :
    (f g : Bytes → Bytes)
    → ((x : Bytes) → IsArray 16 x → IsArray 16 (f x) × (g (f x) ≡ x))
    → (n : ℕ) (bs : Bytes) → IsArray (n * 16) bs
    → IsArray (n * 16) (each_block f n bs) × (each_block g n (each_block f n bs) ≡ bs)
unfolding each_block
each_block_lem f g h zero [] k = ((refl, tt), refl)
each_block_lem f g h zero (b ∷ bs) k = absurd (omega (arith, k.0))
each_block_lem f g h (suc n) bs k =
    let x = take 16 bs in
    let front : IsArray 16 x = (omega (arith, length-take 16 bs, k.0), All-take IsByte 16 bs k.1) in
    let rest : IsArray (n * 16) (drop 16 bs) =
      (omega (arith, length-drop 16 bs, k.0), All-drop IsByte 16 bs k.1) in
    let (fx, back) = h x front in
    let (fs, backs) = each_block_lem f g h n (drop 16 bs) rest in
    let tail = each_block f n (drop 16 bs) in
    (
      (omega (arith, length-append (f x) tail, fx.0, fs.0), All-append IsByte (f x) tail fx.1 fs.1),
      rw (take-append 16 (f x) tail fx.0, drop-append 16 (f x) tail fx.0, back, backs)
          (take-append-drop 16 bs),
    )

abbrev pub with_join_accept : PhyPayload → JoinAcceptPayload → PhyPayload
with_join_accept p a = record p { contents = some (element (join_accept a)) }

module _ (A : Aes) (laws : IsAes A) (key : Bytes) (p : PhyPayload) where
  -- With a lawful cipher and a 16-byte key, a join-accept in range with no CFList, one of five
  -- frequencies that are multiples of 100 Hz and fit 24 bits, under a type byte other than 1, or
  -- one of at most six masks of sixteen channels under the type 1, of which the last has a
  -- channel, is encrypted without error, and decrypting the result gives back the same payload
  -- and the same MIC.
  pub decrypt-encrypt_join_accept :
      (a : JoinAcceptPayload)
      → IsArray 16 key
      → IsArray 4 p.mic
      → JoinAcceptInRange a
      → CfListCarried a.cf_list
      → (q : PhyPayload) × (encrypt_join_accept_payload A (with_join_accept p a) key ≡ (q, ok tt))
        × (decrypt_join_accept_payload A q key ≡ (with_join_accept p a, ok tt))
  unfolding encrypt_join_accept_payload decrypt_join_accept_payload decipher_join_accept cipher_of
  decrypt-encrypt_join_accept a k mic range cf =
      let (b, e, len, bytes, back) = join_accept_lem a range cf zero_join_accept refl in
      let (block, c) = laws.accepts key k in
      let pt = b ++ p.mic in
      let n = length pt / 16 in
      let whole : length pt ≡ n * 16 =
        omega (arith, length-append b p.mic, len, mic.0, cf_list_size_cases a.cf_list) in
      let (ct_array, undone) =
        each_block_lem (A.decrypt block) (A.encrypt block)
          (λ x h. (laws.decrypt-IsArray block x h, laws.encrypt-decrypt block x h)) n pt
          (whole, All-append IsByte b p.mic bytes mic.1) in
      let ct = each_block (A.decrypt block) n pt in
      let m = length pt - 4 in
      let even : length pt % 16 == 0 ≡ true = ground (arith, whole) in
      let same : length ct / 16 ≡ n = omega (arith, ct_array.0) in
      let even' : length ct % 16 == 0 ≡ true = ground (arith, ct_array.0) in
      let long : m ≡ length b = omega (arith, length-append b p.mic, mic.0) in
      let front : take m pt ≡ b = rw long (take-append (length b) b p.mic refl) in
      let code : drop m pt ≡ p.mic = rw long (drop-append (length b) b p.mic refl) in
      let q : PhyPayload = record p {
        contents = some (element (data_payload (take m ct)));
        mic = drop m ct;
      } in
      let deciphered : decipher_join_accept A q key ≡ ok pt =
        rw (take-append-drop m ct, even', c, laws.sixteen block, same, undone) refl in
      (
        q,
        rw (e, even, c, laws.sixteen block) refl,
        ap (decode_join_accept q) deciphered ∙ rw (front, back, code) refl,
      )
