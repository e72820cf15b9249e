-- ===== src/Band/LinkAdr/Masks.antt =====
-- The masks of the LinkADRReq payloads of band.go, channel by channel.
use lorawan.Prelude.{
  ℕ, zero, suc, Bool, true, false, List, [], ◌∷◌, ◌++◌, ◌≡◌, ◌≢◌, ◌<◌, ◌≤◌, ◌+◌, ◌*◌, ◌%◌, ◌&&◌,
  ◌||◌, not, ◌==◌, ltb, leb, if◌then◌else◌, length, get_or, replicate, arith, refl,
  length-replicate, All, Bool-cases, inl, inr, ==_iff, ltb→lt, sym, ◌∙◌,
}
use lorawan.Band.LinkAdr.{
  channel_is_active, missing, int_slice_diff, insert_int, sort_ints, set_at, is_offered, block_mask,
  device_mask,
}
use lorawan.Band.Channel.{Band, Channel, zero_channel, indices}
use lorawan.Mac.Link.{ChMask}

pub length-set_at : (m : List Bool) (j : ℕ) (v : Bool) → length (set_at m j v) ≡ length m
unfolding set_at
length-set_at [] j v = refl
length-set_at (b ∷ m) zero v = refl
length-set_at (b ∷ m) (suc j) v = omega (arith, length-set_at m j v)

pub get_or-set_at :
    (m : List Bool) (j i : ℕ) (v : Bool)
    → get_or (set_at m j v) i false ≡ (if i == j && ltb j (length m) then v else get_or m i false)
unfolding set_at
get_or-set_at [] j i v = ground arith
get_or-set_at (b ∷ m) zero zero v = ground arith
get_or-set_at (b ∷ m) zero (suc i) v = ground arith
get_or-set_at (b ∷ m) (suc j) zero v = ground arith
get_or-set_at (b ∷ m) (suc j) (suc i) v = ground (arith, get_or-set_at m j i v)

pub get_or-replicate : (n i : ℕ) → get_or (replicate n false) i false ≡ false
get_or-replicate zero i = refl
get_or-replicate (suc n) zero = refl
get_or-replicate (suc n) (suc i) = get_or-replicate n i

pub get_or_outside : (m : List Bool) (i : ℕ) → length m ≤ i → get_or m i false ≡ false
get_or_outside [] i h = refl
get_or_outside (b ∷ m) zero h = absurd (omega arith)
get_or_outside (b ∷ m) (suc i) h = get_or_outside m i (omega arith)

-- The lists of channels as sets.
pub channel_is_active-append :
    (xs ys : List ℕ) (j : ℕ)
    → channel_is_active (xs ++ ys) j ≡ (channel_is_active xs j || channel_is_active ys j)
unfolding channel_is_active
channel_is_active-append [] ys j = refl
channel_is_active-append (x ∷ xs) ys j = ground (arith, channel_is_active-append xs ys j)

channel_is_active-insert_int :
    (x : ℕ) (xs : List ℕ) (j : ℕ)
    → channel_is_active (insert_int x xs) j ≡ (j == x || channel_is_active xs j)
unfolding channel_is_active insert_int
channel_is_active-insert_int x [] j = refl
channel_is_active-insert_int x (y ∷ ys) j = ground (arith, channel_is_active-insert_int x ys j)

pub channel_is_active-sort_ints :
    (xs : List ℕ) (j : ℕ) → channel_is_active (sort_ints xs) j ≡ channel_is_active xs j
unfolding channel_is_active sort_ints
channel_is_active-sort_ints [] j = refl
channel_is_active-sort_ints (x ∷ xs) j =
    ground
      (arith, channel_is_active-insert_int x (sort_ints xs) j, channel_is_active-sort_ints xs j)

channel_is_active-missing :
    (xs ys : List ℕ) (j : ℕ)
    → channel_is_active (missing xs ys) j ≡ (channel_is_active xs j && not (channel_is_active ys j))
unfolding channel_is_active missing
channel_is_active-missing [] ys j = refl
channel_is_active-missing (x ∷ xs) ys j = elim (Bool-cases (j == x)) [
  | inl e ↦ ground (arith, channel_is_active-missing xs ys j, ==_iff j x)
  | inr e ↦ ground (arith, channel_is_active-missing xs ys j)
]

pub channel_is_active-int_slice_diff :
    (xs ys : List ℕ) (j : ℕ)
    → channel_is_active xs j ≢ channel_is_active ys j
    → channel_is_active (int_slice_diff xs ys) j ≡ true
unfolding int_slice_diff
channel_is_active-int_slice_diff xs ys j h = ground (
  arith,
  channel_is_active-append (missing xs ys) (missing ys xs) j,
  channel_is_active-missing xs ys j,
  channel_is_active-missing ys xs j,
)

pub channel_is_active_sound :
    (xs : List ℕ) (j n : ℕ) → All (λ c. c < n) xs → channel_is_active xs j ≡ true → j < n
unfolding channel_is_active
channel_is_active_sound [] j n h k = cc
channel_is_active_sound (x ∷ xs) j n h k = ground (arith, channel_is_active_sound xs j n h.1)

pub channel_is_active-diff_sound :
    (xs ys : List ℕ) (j : ℕ)
    → channel_is_active (int_slice_diff xs ys) j ≡ true
    → (channel_is_active xs j || channel_is_active ys j) ≡ true
unfolding int_slice_diff
channel_is_active-diff_sound xs ys j h = ground (
  arith,
  channel_is_active-append (missing xs ys) (missing ys xs) j,
  channel_is_active-missing xs ys j,
  channel_is_active-missing ys xs j,
)

indices_below :
    (test : Channel → Bool) (i j : ℕ) (cs : List Channel)
    → j < i
    → channel_is_active (indices test i cs) j ≡ false
unfolding channel_is_active indices
indices_below test i j [] h = refl
indices_below test i j (c ∷ cs) h = ground (arith, indices_below test (i + 1) j cs)

indices_here :
    (test : Channel → Bool) (i : ℕ) (c : Channel) (cs : List Channel)
    → channel_is_active (indices test i (c ∷ cs)) i ≡ test c
unfolding channel_is_active indices
indices_here test i c cs = ground (arith, indices_below test (i + 1) i cs)

indices_later :
    (test : Channel → Bool) (i j : ℕ) (c : Channel) (cs : List Channel)
    → i < j
    → channel_is_active (indices test i (c ∷ cs)) j ≡ channel_is_active (indices test (i + 1) cs) j
unfolding channel_is_active indices
indices_later test i j c cs h = ground arith

-- The loops over the channels list those that pass the test.
pub channel_is_active-indices :
    (test : Channel → Bool) (i k : ℕ) (cs : List Channel)
    → test zero_channel ≡ false
    → channel_is_active (indices test i cs) (i + k) ≡ test (get_or cs k zero_channel)
channel_is_active-indices test i k [] h = unfold channel_is_active indices in sym h
channel_is_active-indices test i zero (c ∷ cs) h =
    let here : i + 0 ≡ i = omega arith in rw here (indices_here test i c cs)
channel_is_active-indices test i (suc k) (c ∷ cs) h =
    let next : i + suc k ≡ i + 1 + k = omega arith in
    indices_later test i (i + suc k) c cs (omega arith)
    ∙ rw next (channel_is_active-indices test (i + 1) k cs h)

-- The channels that the mask of the device holds.
pub length-device_mask : (cs : List ℕ) (m : List Bool) → length (device_mask cs m) ≡ length m
unfolding device_mask
length-device_mask [] m = refl
length-device_mask (c ∷ cs) m =
    length-device_mask cs (if ltb c (length m) then set_at m c true else m)
    ∙ ground (arith, length-set_at m c true)

get_or-device_mask :
    (cs : List ℕ) (m : List Bool) (j : ℕ)
    → j < length m
    → get_or (device_mask cs m) j false ≡ (get_or m j false || channel_is_active cs j)
unfolding device_mask channel_is_active
get_or-device_mask [] m j h = ground arith
get_or-device_mask (c ∷ cs) m j h =
    get_or-device_mask cs (if ltb c (length m) then set_at m c true else m) j
      (ground (arith, length-set_at m c true))
    ∙ ground (arith, get_or-set_at m c j true)

pub get_or-device_mask-false :
    (cs : List ℕ) (n j : ℕ)
    → get_or (device_mask cs (replicate n false)) j false ≡ (ltb j n && channel_is_active cs j)
get_or-device_mask-false cs n j = elim (Bool-cases (ltb j n)) [
  | inl inside ↦ rw inside (
      get_or-device_mask cs (replicate n false) j (rw length-replicate (ltb→lt j n inside))
      ∙ rw get_or-replicate refl)
  | inr outside ↦ rw outside (
      get_or_outside (device_mask cs (replicate n false)) j
        (rw (length-device_mask, length-replicate) (ground arith)))
]

module _ (b : Band) (device : List ℕ) where
  -- What `isOffered` and the state of the channels together say of a channel.
  abbrev pub is_wanted : ℕ → Bool
  is_wanted j = (get_or b.uplink_channels j zero_channel).enabled && is_offered b device j

module _ (offered : ℕ → Bool) where
  pub length-block_mask :
      (q : ℕ) (ecs : List ℕ) (m : ChMask) → length (block_mask offered q ecs m) ≡ length m
  unfolding block_mask
  length-block_mask q [] m = refl
  length-block_mask q (ec ∷ ecs) m =
      length-block_mask q ecs (
        if offered ec && leb (q * 16) ec && ltb ec ((q + 1) * 16)
        then set_at m (ec % 16) true
        else m)
      ∙ ground (arith, length-set_at m (ec % 16) true)

  set_block :
      (q ec k : ℕ) (m : ChMask)
      → k < 16
      → length m ≡ 16
      → get_or
          (if offered ec && leb (q * 16) ec && ltb ec ((q + 1) * 16)
            then set_at m (ec % 16) true
            else m)
          k
          false
        ≡ (get_or m k false || (q * 16 + k == ec && offered (q * 16 + k)))
  set_block q ec k m h len = elim (Bool-cases (q * 16 + k == ec)) [
    | inl e ↦
        let same : q * 16 + k ≡ ec = ground arith in
        let place : ec % 16 ≡ k = omega arith in
        rw (same, place) (ground (arith, get_or-set_at m k k true))
    | inr e ↦ ground (arith, get_or-set_at m (ec % 16) k true)
  ]

  pub get_or-block_mask :
      (q : ℕ) (ecs : List ℕ) (m : ChMask) (k : ℕ)
      → k < 16
      → length m ≡ 16
      → get_or (block_mask offered q ecs m) k false
        ≡ (get_or m k false || (channel_is_active ecs (q * 16 + k) && offered (q * 16 + k)))
  unfolding block_mask channel_is_active
  get_or-block_mask q [] m k h len = ground arith
  get_or-block_mask q (ec ∷ ecs) m k h len =
      get_or-block_mask q ecs
        (if offered ec && leb (q * 16) ec && ltb ec ((q + 1) * 16)
          then set_at m (ec % 16) true
          else m)
        k h (ground (arith, length-set_at m (ec % 16) true))
      ∙ ground (arith, set_block q ec k m h len)
