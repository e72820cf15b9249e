-- ===== src/Band/LinkAdr/Blocks.antt =====
-- The payloads of band.go that give whole blocks of channels a wanted state.
use lorawan.Prelude.{
  ℕ, suc, Bool, true, false, List, [], ◌∷◌, ◌≡◌, ◌<◌, ◌+◌, ◌-◌, ◌*◌, ◌/◌, ◌&&◌, ◌==◌, ltb,
  if◌then◌else◌, length, get_or, replicate, arith, refl, ok, Bool-cases, inl, inr, Option, none,
  some, ◌∙◌, ap, Result,
}
use lorawan.Band.LinkAdr.{
  channel_is_active, block_payloads, is_block, apply_payloads, apply_mask, mask_channels,
  enabled_after, device_mask,
}
use lorawan.Band.LinkAdr.Masks.{get_or_outside}
use lorawan.Band.LinkAdr.Apply.{apply_mask_exact}
use lorawan.Band.Channel.{Band, Channel, zero_channel, indices, get_enabled_uplink_channel_indices}
use lorawan.Mac.Link.{ChMask, LinkAdrReqPayload}

-- A block of sixteen channels gets the wanted state, and the others keep theirs.
abbrev pub SetsBlock : (ℕ → Bool) → ℕ → ℕ → List Bool → Result (List Bool) → Type 0
SetsBlock wanted n q m r =
    (out : List Bool) × (r ≡ ok out)
    × (length out ≡ n)
    × ((j : ℕ) → get_or out j false ≡ (if j / 16 == q then wanted j else get_or m j false))

-- Every channel gets the wanted state.
abbrev pub Reaches : (ℕ → Bool) → ℕ → Result (List Bool) → Type 0
Reaches wanted n r =
    (out : List Bool) × (r ≡ ok out) × (length out ≡ n) × ((j : ℕ) → get_or out j false ≡ wanted j)

module _ (n : ℕ) (wanted : ℕ → Bool) (inside : (j : ℕ) → wanted j ≡ true → j < n) where
  pub apply_mask-SetsBlock :
      (q : ℕ) (mask : ChMask) (m : List Bool)
      → length mask ≡ 16
      → ((k : ℕ) → k < 16 → get_or mask k false ≡ wanted (q * 16 + k))
      → length m ≡ n
      → SetsBlock wanted n q m (apply_mask (q * 16) mask m)
  apply_mask-SetsBlock q mask m size each len =
      let (out, eq, len', all) = apply_mask_exact (q * 16) mask m (within) in
      (out, eq, len' ∙ len, λ j. all j ∙ ground (arith, size, block_place j))
    where
      within : (k : ℕ) → get_or mask k false ≡ true → q * 16 + k < length m
      within k e = elim (Bool-cases (ltb k 16)) [
        | inl low ↦ ground (arith, each k, inside (q * 16 + k), len)
        | inr high ↦ ground (arith, get_or_outside mask k, size)
      ]

      block_place : (j : ℕ) → j / 16 ≡ q → get_or mask (j - q * 16) false ≡ wanted j
      block_place j e =
          let place : q * 16 + (j - q * 16) ≡ j = omega arith in
          each (j - q * 16) (omega arith) ∙ rw place refl

-- Each channel of the last block is as wanted, and so is any other whose block is not to come.
abbrev LastDone : (ℕ → Bool) → Option ℕ → List Bool → Type 0
LastDone wanted last m = (j : ℕ) → is_block last (j / 16) ≡ true → get_or m j false ≡ wanted j

abbrev pub Remaining : (ℕ → Bool) → List ℕ → List Bool → Type 0
Remaining wanted cs m = (j : ℕ) → channel_is_active cs j ≡ false → get_or m j false ≡ wanted j

module _ (n bound : ℕ) (wanted : ℕ → Bool) (payload : ℕ → LinkAdrReqPayload)
    (apply : LinkAdrReqPayload → List Bool → Result (List Bool))
    (sets : (q : ℕ) (m : List Bool)
      → q < bound
      → length m ≡ n
      → SetsBlock wanted n q m (apply (payload q) m)) where
  Reaches-block :
      (q : ℕ) (ps : List LinkAdrReqPayload) (m out : List Bool)
      → apply (payload q) m ≡ ok out
      → Reaches wanted n (apply_payloads apply ps out)
      → Reaches wanted n (apply_payloads apply (payload q ∷ ps) m)
  unfolding apply_payloads
  Reaches-block q ps m out eq (fin, fin_eq, len, each) = (fin, rw eq fin_eq, len, each)

  blocks-Reaches :
      (last : Option ℕ) (cs : List ℕ) (m : List Bool)
      → ((j : ℕ) → channel_is_active cs j ≡ true → j / 16 < bound)
      → length m ≡ n
      → LastDone wanted last m
      → Remaining wanted cs m
      → Reaches wanted n (apply_payloads apply (block_payloads payload last cs) m)
  unfolding block_payloads channel_is_active is_block apply_payloads
  blocks-Reaches last [] m small len done h = (m, refl, len, λ j. h j refl)
  blocks-Reaches last (c ∷ cs) m small len done h = elim (Bool-cases (is_block last (c / 16))) [
    | inl same ↦ rw same (
        blocks-Reaches last cs m (λ j e. small j (ground arith)) len done
          (λ j e. ground (arith, h j, done j, same)))
    | inr other ↦
        let (out, eq, len', each) = sets (c / 16) m (small c (ground arith)) len in
        rw other (
          Reaches-block (c / 16) (block_payloads payload (some (c / 16)) cs) m out eq (
            blocks-Reaches (some (c / 16)) cs out (λ j e. small j (ground arith)) len'
              (λ j e. each j ∙ ground arith) (λ j e. each j ∙ ground (arith, h j))))
  ]

  -- The payloads of the blocks of a list give every channel the wanted state, where the channels
  -- outside the list have it.
  pub block_payloads-Reaches :
      (cs : List ℕ) (m : List Bool)
      → ((j : ℕ) → channel_is_active cs j ≡ true → j / 16 < bound)
      → length m ≡ n
      → Remaining wanted cs m
      → Reaches wanted n (apply_payloads apply (block_payloads payload none cs) m)
  unfolding is_block
  block_payloads-Reaches cs m small len h = blocks-Reaches none cs m small len (λ j e. cc) h

-- The channels of a list that pass a test.
abbrev pub keep : (ℕ → Bool) → List ℕ → List ℕ
keep test [] = []
keep test (c ∷ cs) = if test c then c ∷ keep test cs else keep test cs

mask_channels-keep :
    (i : ℕ) (m : List Bool) (cs : List Channel) (test : ℕ → Bool)
    → length m ≡ length cs
    → ((k : ℕ) → get_or m k false ≡ ((get_or cs k zero_channel).enabled && test (i + k)))
    → mask_channels i m ≡ keep test (indices (λ c. c.enabled) i cs)
unfolding mask_channels indices
mask_channels-keep i [] [] test len h = refl
mask_channels-keep i [] (c ∷ cs) test len h = absurd (omega arith)
mask_channels-keep i (v ∷ m) [] test len h = absurd (omega arith)
mask_channels-keep i (v ∷ m) (c ∷ cs) test len h =
    let here : i + 0 ≡ i = omega arith in
    let head : v ≡ (c.enabled && test i) = rw here at (h 0) in
    let rest : mask_channels (i + 1) m ≡ keep test (indices (λ c. c.enabled) (i + 1) cs) =
      mask_channels-keep (i + 1) m cs test (omega arith)
        (λ k. let next : i + 1 + k ≡ i + suc k = omega arith in rw next (h (suc k))) in
    rw (head, rest) (ground arith)

pub keep_all : (test : ℕ → Bool) (cs : List ℕ) → ((c : ℕ) → test c ≡ true) → keep test cs ≡ cs
keep_all test [] h = refl
keep_all test (c ∷ cs) h = rw (h c, keep_all test cs h) refl

-- The method that applies the payloads, where they give every channel the wanted state.
pub enabled_after-keep :
    (apply : LinkAdrReqPayload → List Bool → Result (List Bool)) (b : Band) (device : List ℕ)
    (ps : List LinkAdrReqPayload) (test : ℕ → Bool)
    → Reaches
        (λ j. (get_or b.uplink_channels j zero_channel).enabled && test j)
        (length b.uplink_channels)
        (apply_payloads apply ps (device_mask device (replicate (length b.uplink_channels) false)))
    → enabled_after apply b device ps ≡ ok (keep test (get_enabled_uplink_channel_indices b))
unfolding enabled_after get_enabled_uplink_channel_indices
enabled_after-keep apply b device ps test (out, eq, len, each) = rw eq (
    ap ok (
      mask_channels-keep 0 out b.uplink_channels test len
        (λ k. let all : 0 + k ≡ k = omega arith in rw all (each k))))
