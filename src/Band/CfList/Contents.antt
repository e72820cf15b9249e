-- ===== src/Band/CfList/Contents.antt =====
-- What the CFList of a band holds (GetCFList in band.go).
use mathlib.Core.List.{append_assoc}
use lorawan.Prelude.{
  take-replicate, ℕ, zero, suc, List, length, take, ◌++◌, ◌∷◌, ◌≡◌, arith, if◌then◌else◌, replicate,
  ◌+◌, [], ◌%◌, refl, ◌^◌, Bool-cases, ap, ◌≤◌, inl, ◌&&◌, ltb, false, true, length-append, sym,
  ◌∙◌, inr, All, some, All-take, All-append, length-take, get_or, ◌==◌, subst, some_injective, Bool,
}
use lorawan.Band.Channel.{Channel, Band}
use lorawan.Band.LinkAdr.{set_at}
use lorawan.Band.CfList.{cf_list_channels, is_extra, get_cf_list, get_cf_list_channels}
use lorawan.Join.CfList.{Channels, CfList, channels, marshal_cf_list, unmarshal_cf_list}
use lorawan.Mac.Settings.RoundTrip.{FrequencyInRange}
use Prim.Native.String.{String}
use lorawan.Prelude.Bytes.{RoundTrips}
use lorawan.Join.CfList.RoundTrip.{cf_list_lem}

-- A custom channel for the data rates 0 to 5, which alone can stand in the list.
abbrev pub IsListed : Channel → Type 0
IsListed c = (c.custom ≡ true) × (c.min_dr ≡ 0) × (c.max_dr ≡ 5)

abbrev pub is_listed : Channel → Bool
is_listed c = if c.custom then c.min_dr == 0 && c.max_dr == 5 else false

is_extra_lem : (c : Channel) → is_extra c ≡ is_listed c
unfolding is_extra
is_extra_lem c = ground arith

is_listed_sound : (c : Channel) → is_listed c ≡ true → IsListed c
is_listed_sound c h = (ground arith, ground arith, ground arith)

-- The frequencies of those channels, in their order.
abbrev pub extra_frequencies : List Channel → List ℕ
extra_frequencies [] = []
extra_frequencies (c ∷ cs) =
    if is_listed c then (c.frequency % 2 ^ 32) ∷ extra_frequencies cs else extra_frequencies cs

-- The place after some frequencies takes the next one.
pub set_at-append :
    {A : Type 0} (done : List A) (n : ℕ) (d v : A)
    → set_at (done ++ replicate (suc n) d) (length done) v ≡ done ++ (v ∷ replicate n d)
unfolding set_at
set_at-append [] n d v = refl
set_at-append {A} (x ∷ done) n d v = ap (λ (t : List A). x ∷ t) (set_at-append done n d v)

cf_list_channels-full :
    (i : ℕ) (fs : Channels) (cs : List Channel) → 5 ≤ i → cf_list_channels i fs cs ≡ fs
unfolding cf_list_channels
cf_list_channels-full i fs [] h = refl
cf_list_channels-full i fs (c ∷ cs) h =
    let stop : (is_extra c && ltb i 5) ≡ false = ground arith in
    rw stop (cf_list_channels-full i fs cs h)

cf_list_channels_lem :
    (done : List ℕ) (n : ℕ) (cs : List Channel)
    → length done + n ≡ 5
    → cf_list_channels (length done) (done ++ replicate n 0) cs
      ≡ done ++ take n (extra_frequencies cs ++ replicate 5 0)
unfolding cf_list_channels
cf_list_channels_lem done n [] h =
    ap (λ (t : List ℕ). done ++ t) (sym (take-replicate n 5 0 (omega arith)))
cf_list_channels_lem done zero (c ∷ cs) h =
    cf_list_channels-full (length done) (done ++ []) (c ∷ cs) (omega arith)
cf_list_channels_lem done (suc n) (c ∷ cs) h = elim (Bool-cases (is_listed c)) [
  | inl extra ↦
      let chosen : is_extra c ≡ true = is_extra_lem c ∙ extra in
      let room : ltb (length done) 5 ≡ true = ground arith in
      let v : ℕ = c.frequency % 2 ^ 32 in
      let size : length (done ++ (v ∷ [])) ≡ length done + 1 = length-append done (v ∷ []) in
      rw (chosen, extra, room)
        (rw set_at-append (
          ap (λ (t : List ℕ). cf_list_channels (length done + 1) t cs)
            (sym (append_assoc done (v ∷ []) (replicate n 0)))
          ∙ rw size at (cf_list_channels_lem (done ++ (v ∷ [])) n cs (omega (arith, size)))
          ∙ append_assoc done (v ∷ []) (take n (extra_frequencies cs ++ replicate 5 0))))
  | inr plain ↦
      let skipped : is_extra c ≡ false = is_extra_lem c ∙ plain in
      rw (skipped, plain) (cf_list_channels_lem done (suc n) cs h)
]

-- A CFList of the given channels, which comes back from its bytes.
abbrev pub IsChannelList : List Channel → CfList → Type 0
IsChannelList cs l =
    (l ≡ record {
      payload = channels (take 5 (extra_frequencies cs ++ replicate 5 0));
      cf_list_type = 0;
    })
    × RoundTrips marshal_cf_list unmarshal_cf_list 16 l

-- The frequency of a channel of the list can be written.
abbrev pub ExtraInRange : Channel → Type 0
ExtraInRange c = IsListed c → FrequencyInRange c.frequency

extra_frequencies-All :
    (cs : List Channel) → All ExtraInRange cs → All FrequencyInRange (extra_frequencies cs)
extra_frequencies-All [] h = tt
extra_frequencies-All (c ∷ cs) h = elim (Bool-cases (is_listed c)) [
  | inl extra ↦
      let small : c.frequency % 2 ^ 32 ≡ c.frequency =
        ground (arith, h.0 (is_listed_sound c extra)) in
      rw (extra, small) (h.0 (is_listed_sound c extra), extra_frequencies-All cs h.1)
  | inr plain ↦ rw plain (extra_frequencies-All cs h.1)
]

get_cf_list_channels-IsChannelList :
    (b : Band) (l : CfList)
    → All ExtraInRange b.uplink_channels
    → get_cf_list_channels b ≡ some l
    → IsChannelList b.uplink_channels l
unfolding get_cf_list_channels
get_cf_list_channels-IsChannelList b l h e =
    let zeros : List ℕ = replicate 5 0 in
    let extras = extra_frequencies b.uplink_channels in
    let fs = take 5 (extras ++ zeros) in
    let eq : cf_list_channels 0 (replicate 5 0) b.uplink_channels ≡ fs =
      cf_list_channels_lem [] 5 b.uplink_channels refl in
    let in_range : All FrequencyInRange fs = All-take FrequencyInRange 5 (extras ++ zeros) (
      All-append FrequencyInRange extras zeros (extra_frequencies-All b.uplink_channels h)
        (ground arith)) in
    let five : length fs ≡ 5 =
      omega (arith, length-take 5 (extras ++ zeros), length-append extras zeros) in
    elim (Bool-cases (get_or fs 0 0 == 0)) [
      | inl zero_first ↦ cc (rw (eq, zero_first) at e)
      | inr used ↦
          subst (IsChannelList b.uplink_channels) (some_injective (rw (eq, used) at e))
            (refl, cf_list_lem fs 0 ((five, in_range), omega arith, λ k. omega arith))
    ]

-- Where a band with extra channels returns a CFList, and the frequency of each of its custom
-- channels for exactly the data rates 0 to 5 is a multiple of 100 Hz that fits 24 bits, the list
-- holds the frequencies of the first five of these channels in their order with zeros after them,
-- none of any other channel, and it takes 16 bytes and comes back from them.
pub get_cf_list-IsChannelList :
    (b : Band) (version : String) (l : CfList)
    → b.supports_extra_channels ≡ true
    → All ExtraInRange b.uplink_channels
    → get_cf_list b version ≡ some l
    → IsChannelList b.uplink_channels l
unfolding get_cf_list get_cf_list_channels
get_cf_list-IsChannelList b version l extra h e =
    get_cf_list_channels-IsChannelList b l h (rw extra at e)
