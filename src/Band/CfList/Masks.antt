-- ===== src/Band/CfList/Masks.antt =====
-- The channel masks of the CFList of a band (getCFListChannelMask in band.go).
use mathlib.Core.List.{append_assoc, append-nil}
use lorawan.Prelude.{
  ℕ, zero, suc, List, Bool, ◌++◌, length, ◌∷◌, [], ◌+◌, ◌≡◌, ap, ◌%◌, ◌∙◌, sym, ◌<◌, replicate,
  false, arith, not, ◌==◌, ◌&&◌, length-append, refl, All, All-append, ◌*◌, ◌≤◌, Bool-cases, ok,
  some, inl, inr, ap₂, ltb, ◌||◌, length-replicate, subst, take, length-take, some_injective,
}
use text.Mathlib.Text.{◌==◌ as str_eq}
use lorawan.Band.Channel.{Band, Channel}
use lorawan.Band.LinkAdr.{set_at}
use lorawan.Band.LinkAdr.Masks.{length-set_at}
use lorawan.Band.CfList.{cf_list_masks, get_cf_list_channel_mask, get_cf_list}
use lorawan.Band.CfList.Contents.{set_at-append}
use lorawan.Join.CfList.{
  CfList, channel_masks, marshal_cf_list, marshal_cf_list_payload, marshal_channel_masks,
  append_masks,
}
use lorawan.Mac.Link.{ChMask, ch_mask_nil}
use lorawan.Mac.Link.RoundTrip.{ch_mask_lem}
use Prim.Native.String.{String}
use lorawan.Prelude.Bytes.{Bytes}

-- The masks one after the other, and the states of the channels.
abbrev pub flatten : List ChMask → List Bool
flatten [] = []
flatten (m ∷ ms) = m ++ flatten ms

abbrev pub states : List Channel → List Bool
states [] = []
states (c ∷ cs) = c.enabled ∷ states cs

flatten-append : (ms : List ChMask) (m : ChMask) → flatten (ms ++ (m ∷ [])) ≡ flatten ms ++ m
flatten-append [] m = append-nil m
flatten-append (x ∷ ms) m =
    ap (λ (t : List Bool). x ++ t) (flatten-append ms m) ∙ sym (append_assoc x (flatten ms) m)

set_first : (v : Bool) → set_at ch_mask_nil 0 v ≡ v ∷ replicate 15 false
unfolding set_at
set_first v = refl

-- The masks `result` hold those of `masks`, then the states `done` and those of the channels.
abbrev Fills : List ChMask → List Bool → List Channel → List ChMask → Type 0
Fills masks done cs result =
    (p : ℕ) × (p < 16)
    × (flatten result ≡ flatten masks ++ (done ++ (states cs ++ replicate p false)))

Fills-full :
    (masks : List ChMask) (done : List Bool) (c : Channel) (cs : List Channel)
    (result : List ChMask)
    → Fills (masks ++ (done ∷ [])) (c.enabled ∷ []) cs result
    → Fills masks done (c ∷ cs) result
Fills-full masks done c cs result (p, small, eq) =
    (p, small, eq ∙ rw (flatten-append, append_assoc) refl)

Fills-part :
    (masks : List ChMask) (done : List Bool) (c : Channel) (cs : List Channel)
    (result : List ChMask)
    → Fills masks (done ++ (c.enabled ∷ [])) cs result
    → Fills masks done (c ∷ cs) result
Fills-part masks done c cs result (p, small, eq) = (p, small, eq ∙ rw append_assoc refl)

cf_list_masks_full :
    (masks : List ChMask) (mask : ChMask) (i : ℕ) (c : Channel) (cs : List Channel)
    → i % 16 ≡ 0
    → (i == 0) ≡ false
    → cf_list_masks i masks mask (c ∷ cs)
      ≡ cf_list_masks (i + 1) (masks ++ (mask ∷ [])) (c.enabled ∷ replicate 15 false) cs
unfolding cf_list_masks
cf_list_masks_full masks mask i c cs h k = rw (h, k) (rw set_first refl)

cf_list_masks_part :
    (masks : List ChMask) (done : List Bool) (n i : ℕ) (c : Channel) (cs : List Channel)
    → (not (i == 0) && i % 16 == 0) ≡ false
    → i % 16 ≡ length done
    → cf_list_masks i masks (done ++ replicate (suc n) false) (c ∷ cs)
      ≡ cf_list_masks (i + 1) masks ((done ++ (c.enabled ∷ [])) ++ replicate n false) cs
unfolding cf_list_masks
cf_list_masks_part masks done n i c cs part here =
    rw (part, here) (rw (set_at-append, append_assoc) refl)

-- With `n` places of the current mask free, its channels counted by `i`.
cf_list_masks_lem :
    (masks : List ChMask) (done : List Bool) (n i : ℕ) (cs : List Channel)
    → length done + n ≡ 16
    → i % 16 ≡ length done % 16
    → (i == 0) ≡ (length done == 0)
    → n < 16 + length cs
    → Fills masks done cs (cf_list_masks i masks (done ++ replicate n false) cs)
cf_list_masks_lem masks done n i [] size place start room =
    (n, omega arith, unfold cf_list_masks in flatten-append masks (done ++ replicate n false))
cf_list_masks_lem masks done zero i (c ∷ cs) size place start room = rw append-nil (
    rw (cf_list_masks_full masks done i c cs (omega arith) (ground arith)) (
      Fills-full masks done c cs
        (cf_list_masks (i + 1) (masks ++ (done ∷ [])) (c.enabled ∷ replicate 15 false) cs)
        (cf_list_masks_lem (masks ++ (done ∷ [])) (c.enabled ∷ []) 15 (i + 1) cs refl (omega arith)
          (ground arith) (omega arith))))
cf_list_masks_lem masks done (suc n) i (c ∷ cs) size place start room =
    let longer : length (done ++ (c.enabled ∷ [])) ≡ length done + 1 =
      length-append done (c.enabled ∷ []) in
    let step = cf_list_masks_part masks done n i c cs (ground arith) (ground arith) in
    rw step (
      Fills-part masks done c cs
        (cf_list_masks (i + 1) masks ((done ++ (c.enabled ∷ [])) ++ replicate n false) cs)
        (cf_list_masks_lem masks (done ++ (c.enabled ∷ [])) n (i + 1) cs (omega (arith, longer))
          (omega (arith, longer)) (ground (arith, longer)) (omega arith)))

cf_list_masks-All :
    (masks : List ChMask) (mask : ChMask) (i : ℕ) (cs : List Channel)
    → All (λ (m : ChMask). length m ≡ 16) masks
    → length mask ≡ 16
    → All (λ (m : ChMask). length m ≡ 16) (cf_list_masks i masks mask cs)
unfolding cf_list_masks
cf_list_masks-All masks mask i [] h k =
    All-append (λ (m : ChMask). length m ≡ 16) masks (mask ∷ []) h (k, tt)
cf_list_masks-All masks mask i (c ∷ cs) h k = elim (Bool-cases (not (i == 0) && i % 16 == 0)) [
  | inl full ↦ rw full (
      cf_list_masks-All (masks ++ (mask ∷ [])) (set_at ch_mask_nil (i % 16) c.enabled) (i + 1) cs
        (All-append (λ (m : ChMask). length m ≡ 16) masks (mask ∷ []) h (k, tt))
        (length-set_at ch_mask_nil (i % 16) c.enabled))
  | inr part ↦ rw part (
      cf_list_masks-All masks (set_at mask (i % 16) c.enabled) (i + 1) cs h
        (length-set_at mask (i % 16) c.enabled ∙ k))
]

length-flatten :
    (ms : List ChMask)
    → All (λ (m : ChMask). length m ≡ 16) ms
    → length (flatten ms) ≡ 16 * length ms
length-flatten [] h = omega arith
length-flatten (m ∷ ms) h = omega (arith, length-append m (flatten ms), length-flatten ms h.1, h.0)

length-states : (cs : List Channel) → length (states cs) ≡ length cs
length-states [] = refl
length-states (c ∷ cs) = ap suc (length-states cs)

append_masks_lem :
    (ms : List ChMask)
    → All (λ (m : ChMask). length m ≡ 16) ms
    → (bs : Bytes) × (append_masks ms ≡ ok bs) × (length bs ≡ 2 * length ms)
unfolding append_masks
append_masks_lem [] h = ([], refl, omega arith)
append_masks_lem (m ∷ ms) h =
    let (b, e, len, bytes, back) = ch_mask_lem m h.0 in
    let (bs, e', len') = append_masks_lem ms h.1 in
    (b ++ bs, rw (e, e') refl, omega (arith, length-append b bs, len, len'))

-- What the masks hold: the states of the channels in their order, and no further channel.
abbrev pub HoldsStates : List Channel → List ChMask → Type 0
HoldsStates cs ms =
    (p : ℕ) × (p < 16)
    × (flatten ms ≡ states cs ++ replicate p false)
    × All (λ (m : ChMask). length m ≡ 16) ms

-- A CFList of channel masks for the channels, in sixteen bytes.
abbrev pub IsMaskList : List Channel → CfList → Type 0
IsMaskList cs l =
    (ms : List ChMask) × (l ≡ record { payload = channel_masks ms; cf_list_type = 1 })
    × HoldsStates cs ms
    × (bs : Bytes) × (marshal_cf_list l ≡ ok bs)
    × (length bs ≡ 16)

masks_bytes :
    (ms : List ChMask)
    → All (λ (m : ChMask). length m ≡ 16) ms
    → length ms ≤ 6
    → (bs : Bytes) × (marshal_cf_list (record { payload = channel_masks ms; cf_list_type = 1 })
        ≡ ok bs)
      × (length bs ≡ 16)
unfolding marshal_cf_list marshal_cf_list_payload marshal_channel_masks
masks_bytes ms sixteen few =
    let (b, e, len) = append_masks_lem ms sixteen in
    let six : ltb 6 (length ms) ≡ false = ground arith in
    let padded = b ++ replicate 15 0 in
    (
      take 15 padded ++ (1 ∷ []),
      rw (six, e) refl,
      omega (
        arith,
        length-append (take 15 padded) (1 ∷ []),
        length-take 15 padded,
        length-append b (replicate 15 0),
      ),
    )

channel_mask-IsMaskList :
    (b : Band)
    → 0 < length b.uplink_channels
    → length b.uplink_channels ≤ 96
    → IsMaskList b.uplink_channels (get_cf_list_channel_mask b)
unfolding get_cf_list_channel_mask
channel_mask-IsMaskList b some_channel few =
    let cs = b.uplink_channels in
    let ms = cf_list_masks 0 [] ch_mask_nil cs in
    let sixteen : All (λ (m : ChMask). length m ≡ 16) ms =
      cf_list_masks-All [] ch_mask_nil 0 cs tt refl in
    let (p, small, eq) = cf_list_masks_lem [] [] 16 0 cs refl refl refl (omega arith) in
    let count : 16 * length ms ≡ length cs + p =
      sym (length-flatten ms sixteen)
      ∙ ap length eq
      ∙ length-append (states cs) (replicate p false)
      ∙ ap₂ (λ (x y : ℕ). x + y) (length-states cs) (length-replicate p false) in
    let (bs, written, size) = masks_bytes ms sixteen (omega (arith, count)) in
    (ms, refl, (p, small, eq, sixteen), bs, written, size)

-- Where a band without extra channels, of 1 to 96 uplink channels, returns a CFList, it is of the
-- mask type, its masks one after the other are the states of all the channels in their order and
-- false after them, and it takes 16 bytes.
pub get_cf_list-IsMaskList :
    (b : Band) (version : String) (l : CfList)
    → b.supports_extra_channels ≡ false
    → 0 < length b.uplink_channels
    → length b.uplink_channels ≤ 96
    → get_cf_list b version ≡ some l
    → IsMaskList b.uplink_channels l
unfolding get_cf_list get_cf_list_channel_mask
get_cf_list-IsMaskList b version l plain some_channel few e =
    elim (Bool-cases (str_eq version "1.0.0" || str_eq version "1.0.1" || str_eq version "1.0.2")) [
      | inl old ↦ cc (rw (plain, old) at e)
      | inr new ↦
          subst (IsMaskList b.uplink_channels) (some_injective (rw (plain, new) at e))
            (channel_mask-IsMaskList b some_channel few)
    ]
