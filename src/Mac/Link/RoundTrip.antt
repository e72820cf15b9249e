-- ===== src/Mac/Link/RoundTrip.antt =====
-- Link check and link ADR payloads of mac_commands.go, written and read back.
use lorawan.Prelude.{
  ℕ, ◌+◌, ◌*◌, ◌^◌, ◌/◌, ◌≤◌, ◌<◌, ◌≡◌, refl, ap, subst, sym, ◌∙◌, Bool, false, List, [], ◌∷◌, ok,
  if◌then◌else◌, bit_or, replicate, length, arith, ◌++◌,
}
use lorawan.Prelude.Bits.{shl, bit_or_fields_low, shl_one, two_pow-add_one}
use native.Mathlib.Nat.{pow-suc, one-le-pow, div-div-eq-div-mul, mul_comm}
use lorawan.Prelude.Bits.Fields.{xor_pack, low_nibble, high_nibble, high_three, bit_flag}
use lorawan.Prelude.Bytes.{put_uint16, uint16, IsByte, RoundTrips}
use lorawan.Mac.Link.{
  ChMask, ch_mask_nil, ch_mask_bits, set_ch_mask, marshal_ch_mask, unmarshal_ch_mask, Redundancy,
  marshal_redundancy, unmarshal_redundancy, LinkAdrReqPayload, LinkCheckAnsPayload,
  marshal_link_check_ans, unmarshal_link_check_ans, marshal_link_adr_req, unmarshal_link_adr_req,
  LinkAdrAnsPayload, zero_link_adr_ans, zero_link_adr_req, marshal_link_adr_ans,
  unmarshal_link_adr_ans,
}

-- What the flags stand for, lowest channel first.
abbrev mask_value : List Bool → ℕ
mask_value [] = 0
mask_value (b ∷ bs) = (if b then 1 else 0) + 2 * mask_value bs

abbrev pub LinkCheckAnsInRange : LinkCheckAnsPayload → Type 0
LinkCheckAnsInRange p = IsByte p.margin × IsByte p.gw_cnt

pub link_check_ans_lem :
    (p : LinkCheckAnsPayload)
    → LinkCheckAnsInRange p
    → RoundTrips marshal_link_check_ans unmarshal_link_check_ans 2 p
unfolding marshal_link_check_ans unmarshal_link_check_ans
link_check_ans_lem p h = (p.margin ∷ p.gw_cnt ∷ [], refl, refl, omega arith, refl)

abbrev pub RedundancyInRange : Redundancy → Type 0
RedundancyInRange r = (r.nb_rep ≤ 15) × (r.ch_mask_cntl ≤ 7)

pub redundancy_lem :
    (r : Redundancy) → RedundancyInRange r → RoundTrips marshal_redundancy unmarshal_redundancy 1 r
unfolding marshal_redundancy unmarshal_redundancy
redundancy_lem r h =
    let b = r.ch_mask_cntl * 16 + r.nb_rep in
    (
      b ∷ [],
      ground (arith, xor_pack 4 r.nb_rep r.ch_mask_cntl),
      refl,
      omega arith,
      ground (arith, low_nibble b, high_three b),
    )

pub link_adr_ans_lem :
    (p : LinkAdrAnsPayload)
    → RoundTrips marshal_link_adr_ans (unmarshal_link_adr_ans zero_link_adr_ans) 1 p
unfolding marshal_link_adr_ans unmarshal_link_adr_ans
link_adr_ans_lem p = (
  ((if p.channel_mask_ack then 1 else 0)
        + (if p.data_rate_ack then 2 else 0)
        + (if p.power_ack then 4 else 0))
      ∷ [],
  ground arith,
  refl,
  ground arith,
  ground arith,
)

half_shift : (i n : ℕ) → n / 2 ^ (i + 1) ≡ n / 2 ^ i / 2
half_shift i n =
    rw (two_pow-add_one i)
      (ap (λ (t : ℕ). n / t) (mul_comm 2 (2 ^ i)) ∙ sym (div-div-eq-div-mul n (2 ^ i) 2))

ch_mask_bits_lem :
    (bs : List Bool) (i n : ℕ)
    → i + length bs ≤ 16
    → n < 2 ^ i
    → ch_mask_bits bs i n ≡ n + 2 ^ i * mask_value bs
unfolding ch_mask_bits
ch_mask_bits_lem [] i n h k = omega arith
ch_mask_bits_lem (b ∷ bs) i n h k = ground (
  arith,
  shl_one 16 i,
  bit_or_fields_low i 1 n,
  two_pow-add_one i,
  ap (λ (t : ℕ). t * mask_value bs) (two_pow-add_one i),
  ch_mask_bits_lem bs (i + 1) (if b then bit_or n (shl 16 1 i) else n),
)

set_ch_mask_lem :
    (bs : List Bool) (i n : ℕ)
    → i + length bs ≤ 16
    → n / 2 ^ i ≡ mask_value bs
    → set_ch_mask n i (replicate (length bs) false) ≡ bs
unfolding set_ch_mask
set_ch_mask_lem [] i n h k = refl
set_ch_mask_lem (b ∷ bs) i n h k = ground (
  arith,
  shl_one 16 i,
  bit_flag i n,
  one-le-pow i 2,
  half_shift i n,
  set_ch_mask_lem bs (i + 1) n,
)

mask_value-lt : (bs : List Bool) → mask_value bs < 2 ^ length bs
mask_value-lt [] = omega arith
mask_value-lt (b ∷ bs) = ground (arith, pow-suc 2 (length bs), mask_value-lt bs)

-- A channel mask comes back into a receiver that has no channel set.
pub ch_mask_lem :
    (m : ChMask) → length m ≡ 16 → RoundTrips marshal_ch_mask (unmarshal_ch_mask ch_mask_nil) 2 m
unfolding marshal_ch_mask unmarshal_ch_mask
ch_mask_lem m h =
    let n = uint16 (put_uint16 (ch_mask_bits m 0 0)) in
    let bits : ch_mask_bits m 0 0 ≡ mask_value m =
      ch_mask_bits_lem m 0 0 (omega arith) (omega arith) ∙ omega arith in
    let fits : mask_value m < 2 ^ 16 = subst (λ k. mask_value m < 2 ^ k) h (mask_value-lt m) in
    let clear : set_ch_mask n 0 ch_mask_nil ≡ set_ch_mask n 0 (replicate (length m) false) = rw h in
    (
      put_uint16 (ch_mask_bits m 0 0),
      refl,
      refl,
      omega arith,
      ap ok (clear ∙ set_ch_mask_lem m 0 n (omega arith) (omega (arith, bits, fits))),
    )

abbrev pub LinkAdrReqInRange : LinkAdrReqPayload → Type 0
LinkAdrReqInRange p =
    (p.data_rate ≤ 15)
    × (p.tx_power ≤ 15)
    × (length p.ch_mask ≡ 16)
    × RedundancyInRange p.redundancy

pub link_adr_req_lem :
    (p : LinkAdrReqPayload)
    → LinkAdrReqInRange p
    → RoundTrips marshal_link_adr_req (unmarshal_link_adr_req zero_link_adr_req) 4 p
unfolding marshal_link_adr_req unmarshal_link_adr_req ch_mask_lem redundancy_lem
link_adr_req_lem p h =
    let b = p.data_rate * 16 + p.tx_power in
    let (cm, cm_eq, cm_len, cm_bytes, cm_back) = ch_mask_lem p.ch_mask h.2 in
    let (r, r_eq, r_len, r_bytes, r_back) = redundancy_lem p.redundancy h.3 in
    (
      (b ∷ []) ++ (cm ++ r),
      ground (arith, xor_pack 4 p.tx_power p.data_rate, cm_eq, r_eq),
      refl,
      omega arith,
      ground (arith, low_nibble b, high_nibble b, cm_back, r_back),
    )
