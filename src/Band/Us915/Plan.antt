-- ===== src/Band/Us915/Plan.antt =====
-- The plans of band/band_us902_928.go and what the device does with them.
use mathlib.Core.List.{append-nil, append_assoc}
use lorawan.Prelude.{
  ℕ, zero, suc, Bool, List, Option, get_or, length, ltb, ◌∷◌, ◌≡◌, ap, false, if◌then◌else◌, true,
  ◌&&◌, ◌++◌, arith, leb, refl, ◌<◌, [], ◌%◌, ◌||◌, ◌+◌, ◌∙◌, Bool-cases, ok, ◌^◌, inl, ◌*◌, inr,
  ◌==◌, ◌/◌, some, All, length-take, none, slice, sym, take, ◌-◌, replicate, ◌≤◌, length-replicate,
}
use lorawan.Band.LinkAdr.{
  block_mask, block_payload, block_payloads, is_block, set_at, sort_ints, is_offered,
  get_link_adr_req_payloads, apply_payload, apply_payloads, channel_is_active, device_mask,
}
use lorawan.Band.LinkAdr.Masks.{
  length-set_at, get_or-set_at, get_or-block_mask, length-block_mask, get_or_outside,
  channel_is_active-sort_ints, length-device_mask, get_or-replicate,
}
use lorawan.Band.LinkAdr.Apply.{apply_mask_exact, masked}
use lorawan.Band.LinkAdr.Blocks.{
  SetsBlock, Reaches, Remaining, apply_mask-SetsBlock, block_payloads-Reaches, enabled_after-keep,
  keep, keep_all,
}
use lorawan.Band.LinkAdr.Plan.{payloads-Reaches, enabled_inside, channel_is_active-enabled}
use lorawan.Mac.Link.{ChMask, LinkAdrReqPayload, ch_mask_nil}
use lorawan.Band.Channel.State.{no_custom}
use lorawan.Band.Channel.{Band, Channel, zero_channel, get_enabled_uplink_channel_indices}
use lorawan.Band.Us915.{
  all_off_payload, sub_band_payload, sub_band_payloads, fill, us_apply_payload,
  us_get_link_adr_req_payloads, us_get_enabled_uplink_channel_indices_for,
}

-- The mask of the first payload, and the channels of the others.
upper_mask : ChMask → List ℕ → ChMask
upper_mask first [] = first
upper_mask first (c ∷ cs) = upper_mask (if leb 64 c then set_at first (c % 16) true else first) cs

lower : List ℕ → List ℕ
lower cs = keep (λ c. ltb c 64) cs

is_block_sound : (last : Option ℕ) (q : ℕ) → is_block last q ≡ true → last ≡ some q
unfolding is_block
is_block_sound none q h = cc
is_block_sound (some l) q h = ground arith

sub_band_payloads_lem :
    (enabled : List ℕ) (first : ChMask) (rest : List LinkAdrReqPayload) (last : Option ℕ)
    (cs : List ℕ)
    → sub_band_payloads enabled first rest last cs
      ≡ all_off_payload (upper_mask first cs)
        ∷ (rest ++ block_payloads (sub_band_payload enabled) last (lower cs))
unfolding sub_band_payloads upper_mask lower block_payloads is_block
sub_band_payloads_lem enabled first rest last [] = rw append-nil refl
sub_band_payloads_lem enabled first rest last (c ∷ cs) = elim (Bool-cases (leb 64 c)) [
  | inl high ↦
      let out_of : ltb c 64 ≡ false = ground arith in
      rw (high, out_of) (sub_band_payloads_lem enabled (set_at first (c % 16) true) rest last cs)
  | inr low ↦
      let within : ltb c 64 ≡ true = ground arith in
      elim (Bool-cases (is_block last (c / 16))) [
        | inl same ↦
            rw (low, within, same)
              (sub_band_payloads_lem enabled first rest (some (c / 16)) cs
                ∙ ap
                    (λ (l : Option ℕ).
                      all_off_payload (upper_mask first cs)
                      ∷ (rest ++ block_payloads (sub_band_payload enabled) l (lower cs)))
                    (sym (is_block_sound last (c / 16) same)))
        | inr other ↦
            let p = sub_band_payload enabled (c / 16) in
            rw (low, within, other)
              (sub_band_payloads_lem enabled first (rest ++ (p ∷ [])) (some (c / 16)) cs
                ∙ rw append_assoc refl)
      ]
]

length-upper_mask : (first : ChMask) (cs : List ℕ) → length (upper_mask first cs) ≡ length first
unfolding upper_mask
length-upper_mask first [] = refl
length-upper_mask first (c ∷ cs) =
    length-upper_mask (if leb 64 c then set_at first (c % 16) true else first) cs
    ∙ ground (arith, length-set_at first (c % 16) true)

get_or-upper_mask :
    (first : ChMask) (cs : List ℕ) (k : ℕ)
    → ((j : ℕ) → channel_is_active cs j ≡ true → j < 80)
    → k < 16
    → length first ≡ 16
    → get_or (upper_mask first cs) k false ≡ (get_or first k false || channel_is_active cs (64 + k))
unfolding upper_mask channel_is_active
get_or-upper_mask first [] k small h len = ground arith
get_or-upper_mask first (c ∷ cs) k small h len =
    get_or-upper_mask (if leb 64 c then set_at first (c % 16) true else first) cs k
      (λ j e. small j (ground arith)) h (ground (arith, length-set_at first (c % 16) true))
    ∙ ground (arith, get_or-set_at first (c % 16) k true, small c)

channel_is_active-lower :
    (cs : List ℕ) (j : ℕ) → channel_is_active (lower cs) j ≡ (ltb j 64 && channel_is_active cs j)
unfolding lower channel_is_active
channel_is_active-lower [] j = ground arith
channel_is_active-lower (c ∷ cs) j = ground (arith, channel_is_active-lower cs j)

length-fill : (n : ℕ) (v : Bool) (m : List Bool) → length (fill n v m) ≡ length m
unfolding fill
length-fill zero v m = refl
length-fill (suc n) v [] = refl
length-fill (suc n) v (x ∷ m) = ap suc (length-fill n v m)

get_or-fill :
    (n j : ℕ) (m : List Bool)
    → get_or (fill n false m) j false ≡ (if ltb j n then false else get_or m j false)
unfolding fill
get_or-fill zero j m = ground arith
get_or-fill (suc n) j [] = ground arith
get_or-fill (suc n) zero (x ∷ m) = ground arith
get_or-fill (suc n) (suc j) (x ∷ m) = ground (arith, get_or-fill n j m)

get_or-take :
    (n k : ℕ) (m : List Bool)
    → get_or (take n m) k false ≡ (if ltb k n then get_or m k false else false)
get_or-take zero k m = ground arith
get_or-take (suc n) k [] = ground arith
get_or-take (suc n) zero (x ∷ m) = ground arith
get_or-take (suc n) (suc k) (x ∷ m) = ground (arith, get_or-take n k m)

module _ (b : Band) (size : length b.uplink_channels ≡ 72) where
  enabled : List ℕ
  enabled = sort_ints (get_enabled_uplink_channel_indices b)

  is_enabled : ℕ → Bool
  is_enabled j = (get_or b.uplink_channels j zero_channel).enabled

  channel_is_active-enabled_lem : (j : ℕ) → channel_is_active enabled j ≡ is_enabled j
  unfolding enabled is_enabled
  channel_is_active-enabled_lem j =
      channel_is_active-sort_ints (get_enabled_uplink_channel_indices b) j
      ∙ channel_is_active-enabled b [] j

  is_enabled_inside : (j : ℕ) → is_enabled j ≡ true → j < 72
  unfolding is_enabled
  is_enabled_inside j e = omega (arith, size, enabled_inside b [] b.uplink_channels j e)

  sub_band_payload-SetsBlock :
      (q : ℕ) (m : List Bool)
      → q < 4
      → length m ≡ 72
      → SetsBlock is_enabled 72 q m (us_apply_payload (sub_band_payload enabled q) m)
  unfolding us_apply_payload sub_band_payload apply_payload
  sub_band_payload-SetsBlock q m h len =
      let start : q % 2 ^ 8 * 16 % 2 ^ 8 ≡ q * 16 = omega arith in
      let block : (q % 2 ^ 8 == 6 || q % 2 ^ 8 == 7) ≡ false = ground arith in
      rw (block, start)
        (apply_mask-SetsBlock 72 is_enabled is_enabled_inside q
          (block_mask (λ ec. true) q enabled ch_mask_nil) m
          (length-block_mask (λ ec. true) q enabled ch_mask_nil)
          (λ k e.
            get_or-block_mask (λ ec. true) q enabled ch_mask_nil k e refl
            ∙ ground (arith, channel_is_active-enabled_lem (q * 16 + k), get_or-replicate 16 k))
          len)

  -- The mask of the first payload holds the channels from 64 on.
  last_mask : ChMask
  last_mask = slice 0 8 (upper_mask ch_mask_nil enabled)

  length-last_mask : length last_mask ≡ 8
  unfolding last_mask
  length-last_mask =
      omega (
        arith,
        length-take 8 (upper_mask ch_mask_nil enabled),
        length-upper_mask ch_mask_nil enabled,
      )

  enabled-small : (j : ℕ) → channel_is_active enabled j ≡ true → j < 72
  enabled-small j e = is_enabled_inside j (sym (channel_is_active-enabled_lem j) ∙ e)

  get_or-last_mask : (k : ℕ) → get_or last_mask k false ≡ (ltb k 8 && is_enabled (64 + k))
  unfolding last_mask
  get_or-last_mask k =
      get_or-take 8 k (upper_mask ch_mask_nil enabled)
      ∙ ground (
        arith,
        get_or-upper_mask ch_mask_nil enabled k (λ j e. omega (arith, enabled-small j e)),
        channel_is_active-enabled_lem (64 + k),
        get_or-replicate 16 k,
      )

  first_payload :
      (m : List Bool)
      → length m ≡ 72
      → (out : List Bool) × (us_apply_payload (all_off_payload (upper_mask ch_mask_nil enabled)) m
          ≡ ok out)
        × (length out ≡ 72)
        × Remaining is_enabled (lower enabled) out
  unfolding us_apply_payload all_off_payload last_mask
  first_payload m len =
      let (out, eq, len', each) =
        apply_mask_exact 64 last_mask (fill 64 false m)
          (λ k e. ground (arith, get_or-last_mask k, length-fill 64 false m)) in
      (out, eq, len' ∙ length-fill 64 false m ∙ len, λ j e. each j ∙ settled j e)
    where
      settled :
          (j : ℕ)
          → channel_is_active (lower enabled) j ≡ false
          → masked 64 last_mask (fill 64 false m) j ≡ is_enabled j
      settled j e = elim (Bool-cases (ltb j 64)) [
        | inl low ↦ ground (
          arith,
          get_or-fill 64 j m,
          channel_is_active-lower enabled j,
          channel_is_active-enabled_lem j,
        )
        | inr high ↦
            let least : 64 ≤ j = ground arith in
            let place : 64 + (j - 64) ≡ j = omega arith in
            ground (
              arith,
              length-last_mask,
              rw place at (get_or-last_mask (j - 64)),
              get_or-fill 64 j m,
              get_or_outside m j,
              is_enabled_inside j,
            )
      ]

  out-Reaches :
      (m : List Bool)
      → length m ≡ 72
      → Reaches is_enabled 72 (
          apply_payloads us_apply_payload (sub_band_payloads enabled ch_mask_nil [] none enabled) m)
  unfolding apply_payloads
  out-Reaches m len =
      let (out, eq, len', rest) = first_payload m len in
      let (fin, fin_eq, fin_len, each) =
        block_payloads-Reaches 72 4 is_enabled (sub_band_payload enabled) us_apply_payload
          sub_band_payload-SetsBlock (lower enabled) out
          (λ j e. ground (arith, channel_is_active-lower enabled j)) len' rest in
      (fin, rw (sub_band_payloads_lem, eq) fin_eq, fin_len, each)

  -- The payloads of the general method are for the first six blocks.
  agrees :
      (device : List ℕ) (q : ℕ) (m : List Bool)
      → q < 6
      → us_apply_payload (block_payload b device q) m ≡ apply_payload (block_payload b device q) m
  unfolding us_apply_payload block_payload
  agrees device q m h =
      let block : (q % 2 ^ 8 == 6 || q % 2 ^ 8 == 7) ≡ false = ground arith in rw block refl

sub_bands-Reaches :
    (b : Band) (size : length b.uplink_channels ≡ 72) (device : List ℕ)
    → Reaches
        (λ j. (get_or b.uplink_channels j zero_channel).enabled && true)
        (length b.uplink_channels)
        (apply_payloads us_apply_payload
          (sub_band_payloads
            (sort_ints (get_enabled_uplink_channel_indices b))
            ch_mask_nil
            []
            none
            (sort_ints (get_enabled_uplink_channel_indices b)))
          (device_mask device (replicate (length b.uplink_channels) false)))
unfolding enabled is_enabled
sub_bands-Reaches b size device =
    let (out, eq, len, each) =
      out-Reaches b size (device_mask device (replicate (length b.uplink_channels) false))
        (length-device_mask device _ ∙ length-replicate (length b.uplink_channels) false ∙ size) in
    (out, eq, len ∙ sym size, λ j. each j ∙ ground arith)

-- For a band of 72 uplink channels, none of them custom, and a device whose channels are numbered
-- below 96, the shorter of the two LinkADRReq sequences of the United States, applied as the
-- region applies them, leaves the device with exactly the enabled channels of the band.
pub us_payloads_synchronise :
    (b : Band) (device : List ℕ)
    → length b.uplink_channels ≡ 72
    → All (λ (c : Channel). c.custom ≡ false) b.uplink_channels
    → All (λ c. c < 96) device
    → us_get_enabled_uplink_channel_indices_for b device (us_get_link_adr_req_payloads b device)
      ≡ ok (get_enabled_uplink_channel_indices b)
unfolding us_get_enabled_uplink_channel_indices_for us_get_link_adr_req_payloads is_offered enabled
    is_enabled
us_payloads_synchronise b device size plain small =
    elim (Bool-cases (
      ltb (length (get_link_adr_req_payloads b device)) (
        length (
          sub_band_payloads (sort_ints (get_enabled_uplink_channel_indices b)) ch_mask_nil [] none
            (sort_ints (get_enabled_uplink_channel_indices b)))))) [
              | inl shorter ↦ rw shorter (
                  enabled_after-keep us_apply_payload b device (get_link_adr_req_payloads b device)
                    (is_offered b device)
                    (payloads-Reaches b device 6 us_apply_payload (omega arith)
                      (agrees b size device) small (omega arith))
                  ∙ ap ok (
                      keep_all (is_offered b device) (get_enabled_uplink_channel_indices b)
                        (λ c. ground (arith, no_custom b.uplink_channels c plain))))
              | inr longer ↦ rw longer (
                  enabled_after-keep us_apply_payload b device _ (λ j. true)
                    (sub_bands-Reaches b size device)
                  ∙ ap ok (keep_all (λ j. true) (get_enabled_uplink_channel_indices b) (λ c. refl)))
            ]
