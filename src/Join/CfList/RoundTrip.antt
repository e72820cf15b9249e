-- ===== src/Join/CfList/RoundTrip.antt =====
-- A CFList of channels (payload.go), written and read back.
use lorawan.Prelude.{
  [], ◌∷◌, length, All, replicate, ◌≡◌, arith, ok, ◌*◌, take, ◌/◌, ◌++◌, refl, ℕ, ◌≢◌,
  length-append, take-append, get_or, get_or-append_add, All-append,
}
use lorawan.Join.CfList.{
  Channels, marshal_channels, unmarshal_channels, read_channels, marshal_cf_list, unmarshal_cf_list,
  marshal_cf_list_payload, channels,
}
use lorawan.Prelude.Bytes.{RoundTrips, Bytes, IsByte, put_uint32}
use lorawan.Mac.Settings.RoundTrip.{FrequencyInRange}

read_channels_lem :
    (fs : Channels)
    → All FrequencyInRange fs
    → (old : Channels) → length old ≡ length fs
    → (bs : Bytes) × (marshal_channels fs ≡ ok bs)
      × (length bs ≡ 3 * length fs)
      × All IsByte bs
      × (read_channels old bs ≡ fs)
unfolding marshal_channels read_channels
read_channels_lem [] h [] l = ([], refl, refl, tt, refl)
read_channels_lem [] h (g ∷ old) l = absurd (omega arith)
read_channels_lem (f ∷ fs) h [] l = absurd (omega arith)
read_channels_lem (f ∷ fs) h (g ∷ old) l =
    let (bs, e, len, bytes, back) = read_channels_lem fs h.1 old (omega arith) in
    (
      take 3 (put_uint32 (f / 100)) ++ bs,
      ground (arith, e),
      omega (arith, len),
      (omega arith, (omega arith, (omega arith, bytes))),
      ground (arith, back),
    )

-- Five frequencies.
abbrev pub ChannelsInRange : Channels → Type 0
ChannelsInRange fs = (length fs ≡ 5) × All FrequencyInRange fs

pub channels_lem :
    (fs : Channels)
    → ChannelsInRange fs
    → RoundTrips marshal_channels (unmarshal_channels (replicate 5 0)) 15 fs
unfolding unmarshal_channels
channels_lem fs h =
    let (bs, e, len, bytes, back) = read_channels_lem fs h.1 (replicate 5 0) (omega arith) in
    let len' : length bs ≡ 15 = omega (arith, len) in (bs, e, len', bytes, rw (len', back))

-- A CFList of channels, whose type is not that of the channel masks.
abbrev pub CfListInRange : Channels → ℕ → Type 0
CfListInRange fs t = ChannelsInRange fs × IsByte t × (t ≢ 1)

-- A CFList of five channels, each a multiple of 100 Hz that fits 24 bits, and of a type byte
-- other than 1 takes 16 bytes and comes back from them.
pub cf_list_lem :
    (fs : Channels) (t : ℕ)
    → CfListInRange fs t
    → RoundTrips marshal_cf_list unmarshal_cf_list 16
        (record { payload = channels fs; cf_list_type = t })
unfolding marshal_cf_list unmarshal_cf_list marshal_cf_list_payload
cf_list_lem fs t h =
    let (b, e, len, bytes, back) = channels_lem fs h.0 in
    let last : Bytes = t ∷ [] in
    let bs = b ++ last in
    let size : length bs ≡ 16 = omega (arith, length-append b last) in
    let front : take 15 bs ≡ b = take-append 15 b last len in
    let end : get_or bs 15 0 ≡ t = get_or-append_add 15 0 b last 0 len in
    let padded : take 15 (b ++ replicate 15 0) ≡ b = take-append 15 b (replicate 15 0) len in
    (
      bs,
      rw (e, padded) refl,
      size,
      All-append IsByte b last bytes (h.1, tt),
      rw (size, front, end, back) (ground (arith, h)),
    )
