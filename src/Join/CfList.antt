-- ===== src/Join/CfList.antt =====
-- The CFList of a join-accept (payload.go): channel frequencies or channel masks.
pub mod RoundTrip
pub mod Masks
use lorawan.Prelude.{
  ℕ, List, Result, Bool, get_or, ok, ◌>>=◌, ◌>>◌, [], fail_if, take, true, ◌∷◌, ltb, not, replicate,
  ◌++◌, if◌then◌else◌, length, ◌%◌, ◌&&◌, ◌*◌, bytes_at_most, message, ◌==◌, ◌^◌, err, multiple_of,
  bytes_expected, ◌-◌, ◌/◌, max_value,
}
use lorawan.Prelude.Bytes.{Bytes, uint32, put_uint32}
use lorawan.Mac.Link.{ChMask, marshal_ch_mask, unmarshal_ch_mask, ch_mask_nil}

-- `CFListChannelPayload`: a `[5]uint32`
abbrev pub Channels : Type 0
Channels = List ℕ

-- The channels that are still to be written.
unfoldable pub marshal_channels : Channels → Result Bytes
marshal_channels [] = ok []
marshal_channels (f ∷ fs) = do
  fail_if (not (f % 100 == 0)) (multiple_of "frequency" 100)
  fail_if (ltb (2 ^ 24 - 1) (f / 100)) (max_value "frequency" 16777215)
  rest ← marshal_channels fs
  ok (take 3 (put_uint32 (f / 100)) ++ rest)

-- Three bytes a channel; the channels of the receiver that are not reached stay.
unfoldable pub read_channels : Channels → Bytes → Channels
read_channels (f ∷ fs) (a ∷ b ∷ c ∷ bs) =
    uint32 (a ∷ b ∷ c ∷ 0 ∷ []) * 100 % 2 ^ 32 ∷ read_channels fs bs
read_channels fs _ = fs

unfoldable pub unmarshal_channels : Channels → Bytes → Result Channels
unmarshal_channels p bs = do
  fail_if (ltb 15 (length bs)) (bytes_at_most 15)
  fail_if (not (length bs % 3 == 0)) (multiple_of "length" 3)
  ok (read_channels p bs)

-- `cm == chMaskNil`
unfoldable pub is_nil_mask : List Bool → Bool
is_nil_mask [] = true
is_nil_mask (b ∷ bs) = not b && is_nil_mask bs

-- The masks that are still to be written.
unfoldable pub append_masks : List ChMask → Result Bytes
append_masks [] = ok []
append_masks (m ∷ ms) = do b ← marshal_ch_mask m; rest ← append_masks ms; ok (b ++ rest)

unfoldable pub marshal_channel_masks : List ChMask → Result Bytes
marshal_channel_masks ms = do
  fail_if (ltb 6 (length ms)) (message "max number of channel-masks is 6")
  append_masks ms

-- The loop over pairs of bytes, with the masks kept and those pending. A last single byte is
-- dropped.
unfoldable pub read_masks : List ChMask → List ChMask → Bytes → Result (List ChMask)
read_masks kept pending (a ∷ b ∷ bs) = do
  cm ← unmarshal_ch_mask ch_mask_nil (a ∷ b ∷ [])
  let pending' = pending ++ (cm ∷ [])
  read_masks (if is_nil_mask cm then kept else kept ++ pending')
      (if is_nil_mask cm then pending' else []) bs
read_masks kept pending _ = ok kept

unfoldable pub unmarshal_channel_masks : List ChMask → Bytes → Result (List ChMask)
unmarshal_channel_masks p bs = do
  fail_if (ltb 15 (length bs)) (bytes_at_most 15)
  read_masks p [] bs

-- The two payloads that a CFList can hold.
pub data CfListPayload : Type 0 where
  channels : Channels → CfListPayload
  channel_masks : List ChMask → CfListPayload

pub record CfList : Type 0 where
  pub payload : CfListPayload
  pub cf_list_type : ℕ

unfoldable pub marshal_cf_list_payload : CfListPayload → Result Bytes
marshal_cf_list_payload (channels fs) = marshal_channels fs
marshal_cf_list_payload (channel_masks ms) = marshal_channel_masks ms

-- `copy(out, b)` into 16 bytes, of which the last is the type
unfoldable pub marshal_cf_list : CfList → Result Bytes
marshal_cf_list l = do
  b ← marshal_cf_list_payload l.payload
  ok (take 15 (b ++ replicate 15 0) ++ (l.cf_list_type ∷ []))

unfoldable pub unmarshal_cf_list : Bytes → Result CfList
unmarshal_cf_list bs =
    let t = get_or bs 15 0 in
    let masks : Result CfList = do
      ms ← unmarshal_channel_masks [] (take 15 bs)
      ok (record { payload = channel_masks ms; cf_list_type = t })
    in let frequencies : Result CfList = do
      fs ← unmarshal_channels (replicate 5 0) (take 15 bs)
      ok (record { payload = channels fs; cf_list_type = t })
      in if not (length bs == 16)
        then err (bytes_expected 16)
        else if t == 1
        then masks
        else frequencies
