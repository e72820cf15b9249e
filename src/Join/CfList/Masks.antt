-- ===== src/Join/CfList/Masks.antt =====
-- A CFList of channel masks (payload.go), written and read back.
use mathlib.Core.List.{append_assoc, append-nil}
use lorawan.Prelude.{
  ℕ, zero, suc, [], ◌∷◌, List, Bool, true, false, ok, length, All, replicate, take, ltb, get_or,
  ◌≡◌, ◌≢◌, ◌≤◌, ◌+◌, ◌*◌, ◌++◌, arith, refl, ap, ◌∙◌, if◌then◌else◌, All-append, Bool-cases, ◌-◌,
  inl, inr, length-append, subst, take-replicate, length-replicate, take-append, get_or-append_add,
}
use lorawan.Prelude.Bytes.{Bytes, RoundTrips, IsByte, bytewise}
use lorawan.Mac.Link.{ChMask, ch_mask_nil, marshal_ch_mask, unmarshal_ch_mask, set_ch_mask}
use lorawan.Mac.Link.RoundTrip.{ch_mask_lem}
use lorawan.Join.CfList.{
  CfListPayload, channels, channel_masks, is_nil_mask, append_masks, read_masks,
  marshal_channel_masks, unmarshal_channel_masks, marshal_cf_list, unmarshal_cf_list,
  marshal_cf_list_payload,
}
use lorawan.Join.CfList.RoundTrip.{CfListInRange, cf_list_lem}

-- The last mask has a channel.
abbrev pub EndsSet : List ChMask → Type 0
EndsSet [] = Unit {0}
EndsSet (m ∷ []) = m ≢ ch_mask_nil
EndsSet (m ∷ n ∷ ms) = EndsSet (n ∷ ms)

-- What a CFList can carry: five frequencies under a type other than 1, or at most six masks of
-- sixteen channels under the type 1, of which the last is not empty.
abbrev pub PayloadCarried : CfListPayload → ℕ → Type 0
PayloadCarried (channels fs) t = CfListInRange fs t
PayloadCarried (channel_masks ms) t =
    (t ≡ 1) × (length ms ≤ 6) × All (λ (m : ChMask). length m ≡ 16) ms × EndsSet ms

nil_mask_lem : (n : ℕ) (m : List Bool) → length m ≡ n → is_nil_mask m ≡ true → m ≡ replicate n false
unfolding is_nil_mask
nil_mask_lem zero [] h e = refl
nil_mask_lem zero (b ∷ m) h e = absurd (omega arith)
nil_mask_lem (suc n) [] h e = absurd (omega arith)
nil_mask_lem (suc n) (true ∷ m) h e = cc
nil_mask_lem (suc n) (false ∷ m) h e =
    ap (λ (t : List Bool). false ∷ t) (nil_mask_lem n m (omega arith) e)

read_two :
    (kept pending : List ChMask) (m : ChMask) (rest b : Bytes)
    → length b ≡ 2
    → unmarshal_ch_mask ch_mask_nil b ≡ ok m
    → read_masks kept pending (b ++ rest)
      ≡ read_masks
          (if is_nil_mask m then kept else kept ++ (pending ++ (m ∷ [])))
          (if is_nil_mask m then pending ++ (m ∷ []) else [])
          rest
unfolding read_masks
read_two kept pending m rest b h =
    bytewise 2
      (λ b.
        unmarshal_ch_mask ch_mask_nil b ≡ ok m
        → read_masks kept pending (b ++ rest)
          ≡ read_masks (if is_nil_mask m then kept else kept ++ (pending ++ (m ∷ [])))
              (if is_nil_mask m then pending ++ (m ∷ []) else []) rest)
      (λ x y e. rw e refl) b h

-- One mask in front of any bytes.
read_mask :
    (kept pending : List ChMask) (m : ChMask)
    → length m ≡ 16
    → (b : Bytes) × (marshal_ch_mask m ≡ ok b)
      × (length b ≡ 2)
      × All IsByte b
      × ((rest : Bytes)
          → read_masks kept pending (b ++ rest)
            ≡ read_masks
                (if is_nil_mask m then kept else kept ++ (pending ++ (m ∷ [])))
                (if is_nil_mask m then pending ++ (m ∷ []) else [])
                rest)
unfolding read_masks
read_mask kept pending m h =
    let (b, e, len, bytes, back) = ch_mask_lem m h in
    (b, e, len, bytes, λ rest. read_two kept pending m rest b len back)

not_nil : (m : ChMask) → length m ≡ 16 → m ≢ ch_mask_nil → is_nil_mask m ≡ false
not_nil m h e = elim (Bool-cases (is_nil_mask m)) [
  | inl empty ↦ absurd (e (nil_mask_lem 16 m h empty))
  | inr used ↦ used
]

-- The masks are kept up to the last one, since it has a channel.
read_masks_lem :
    (kept pending : List ChMask) (m : ChMask) (ms : List ChMask)
    → All (λ (m : ChMask). length m ≡ 16) (m ∷ ms)
    → EndsSet (m ∷ ms)
    → (bs : Bytes) × (append_masks (m ∷ ms) ≡ ok bs)
      × (length bs ≡ 2 * length (m ∷ ms))
      × All IsByte bs
      × ((rest : Bytes)
          → read_masks kept pending (bs ++ rest)
            ≡ read_masks (kept ++ (pending ++ (m ∷ ms))) [] rest)
unfolding append_masks
read_masks_lem kept pending m [] h e =
    let (b, eq, len, bytes, step) = read_mask kept pending m h.0 in
    let used : is_nil_mask m ≡ false = not_nil m h.0 e in
    (
      b ++ [],
      rw eq refl,
      ground (arith, len, append-nil b),
      All-append IsByte b [] bytes tt,
      λ rest. rw append-nil (rw used at (step rest)),
    )
read_masks_lem kept pending m (n ∷ ms) h e = elim (Bool-cases (is_nil_mask m)) [
  | inl empty ↦
      let (b, eq, len, bytes, step) = read_mask kept pending m h.0 in
      let (bs, eqs, lens, all, steps) = read_masks_lem kept (pending ++ (m ∷ [])) n ms h.1 e in
      (
        b ++ bs,
        rw (eq, eqs) refl,
        omega (arith, length-append b bs, len, lens),
        All-append IsByte b bs bytes all,
        λ rest.
            rw append_assoc ((rw empty at (step (bs ++ rest))) ∙ steps rest ∙ rw append_assoc refl),
      )
  | inr used ↦
      let (b, eq, len, bytes, step) = read_mask kept pending m h.0 in
      let (bs, eqs, lens, all, steps) =
        read_masks_lem (kept ++ (pending ++ (m ∷ []))) [] n ms h.1 e in
      (
        b ++ bs,
        rw (eq, eqs) refl,
        omega (arith, length-append b bs, len, lens),
        All-append IsByte b bs bytes all,
        λ rest.
            rw append_assoc (
              (rw used at (step (bs ++ rest))) ∙ steps rest ∙ rw (append_assoc, append_assoc) refl),
      )
]

read_padding :
    (n : ℕ) (kept pending : List ChMask) → read_masks kept pending (replicate n 0) ≡ ok kept
unfolding read_masks unmarshal_ch_mask set_ch_mask is_nil_mask
read_padding zero kept pending = refl
read_padding (suc zero) kept pending = refl
read_padding (suc (suc n)) kept pending = read_padding n kept (pending ++ (ch_mask_nil ∷ []))

-- What the padding leaves of the bytes.
take-filled :
    (bs : Bytes) (k n : ℕ)
    → k ≤ n
    → take (length bs + k) (bs ++ replicate n 0) ≡ bs ++ replicate k 0
take-filled [] k n h = let none : 0 + k ≡ k = omega arith in rw none (take-replicate k n 0 h)
take-filled (b ∷ bs) k n h =
    let next : suc (length bs) + k ≡ suc (length bs + k) = omega arith in
    rw next (ap (λ (t : Bytes). b ∷ t) (take-filled bs k n h))

masks_lem :
    (ms : List ChMask)
    → All (λ (m : ChMask). length m ≡ 16) ms
    → EndsSet ms
    → (bs : Bytes) × (append_masks ms ≡ ok bs)
      × (length bs ≡ 2 * length ms)
      × All IsByte bs
      × ((k : ℕ) → read_masks [] [] (bs ++ replicate k 0) ≡ ok ms)
unfolding append_masks
masks_lem [] all ends = ([], refl, refl, tt, λ k. read_padding k [] [])
masks_lem (m ∷ ms) all ends =
    let (bs, eq, len, bytes, back) = read_masks_lem [] [] m ms all ends in
    (bs, eq, len, bytes, λ k. back (replicate k 0) ∙ read_padding k (m ∷ ms) [])

zeros_are_bytes : (k : ℕ) → All IsByte (replicate k 0)
zeros_are_bytes zero = tt
zeros_are_bytes (suc k) = (omega arith, zeros_are_bytes k)

mask_list_lem :
    (ms : List ChMask)
    → length ms ≤ 6
    → All (λ (m : ChMask). length m ≡ 16) ms
    → EndsSet ms
    → RoundTrips marshal_cf_list unmarshal_cf_list 16
        (record { payload = channel_masks ms; cf_list_type = 1 })
unfolding marshal_cf_list unmarshal_cf_list marshal_cf_list_payload marshal_channel_masks
    unmarshal_channel_masks
mask_list_lem ms few all ends =
    let (b, e, len, bytes, back) = masks_lem ms all ends in
    let k = 15 - length b in
    let zeros : Bytes = replicate k 0 in
    let body = b ++ zeros in
    let last : Bytes = 1 ∷ [] in
    let bs = body ++ last in
    let total : length b + k ≡ 15 = omega (arith, len) in
    let padded : take 15 (b ++ replicate 15 0) ≡ body =
      subst (λ (n : ℕ). take n (b ++ replicate 15 0) ≡ body) total
        (take-filled b k 15 (omega arith)) in
    let body_size : length body ≡ 15 =
      omega (arith, length-append b zeros, length-replicate {A = ℕ} k 0) in
    let size : length bs ≡ 16 = omega (arith, length-append body last) in
    let front : take 15 bs ≡ body = take-append 15 body last body_size in
    let end : get_or bs 15 0 ≡ 1 = get_or-append_add 15 0 body last 0 body_size in
    let allowed : ltb 6 (length ms) ≡ false = ground arith in
    let short : ltb 15 (length body) ≡ false = ground arith in
    (
      bs,
      rw (allowed, e, padded) refl,
      size,
      All-append IsByte body last (All-append IsByte b zeros bytes (zeros_are_bytes k))
          (omega arith, tt),
      rw (size, front, end, short, back k) refl,
    )

-- A CFList that can be carried takes 16 bytes and comes back from them.
pub carried_cf_list :
    (payload : CfListPayload) (t : ℕ)
    → PayloadCarried payload t
    → RoundTrips marshal_cf_list unmarshal_cf_list 16
        (record { payload = payload; cf_list_type = t })
carried_cf_list (channels fs) t h = cf_list_lem fs t h
carried_cf_list (channel_masks ms) t (one, few, all, ends) = rw one (mask_list_lem ms few all ends)
