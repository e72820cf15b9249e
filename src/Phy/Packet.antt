-- ===== src/Phy/Packet.antt =====
-- The physical payload and its bytes (phypayload.go).
pub mod RoundTrip
use lorawan.Prelude.{
  ℕ, Bool, [], ◌∷◌, ◌++◌, Option, Result, ◌==◌, ok, ◌>>=◌, ◌>>◌, ◌||◌, bit_or, err, fail_if,
  bit_and, ltb, message, bytes_expected, length, some, bytes_at_least, none, if◌then◌else◌, slice,
  get_or, ◌-◌, drop,
}
use lorawan.Phy.MType
use lorawan.Prelude.Bytes.{Bytes}
use lorawan.Frame.Body.{MacPayload, marshal_mac_payload, unmarshal_mac_payload, zero_mac_payload}
use lorawan.Frame.Element.{
  Payload, marshal_element, join_request, rejoin_request02, unmarshal_data_payload, data_payload,
  rejoin_request1,
}
use Prim.Native.String.{String}
use lorawan.Join.{unmarshal_join_request, unmarshal_rejoin_request02, unmarshal_rejoin_request1}
use lorawan.Prelude.Bits.{shr, shl}

pub record Mhdr : Type 0 where
  pub m_type : ℕ
  pub major : ℕ

unfoldable pub marshal_mhdr : Mhdr → Result Bytes
marshal_mhdr h = ok (bit_or (shl 8 h.m_type 5) (bit_and h.major 0x03) ∷ [])

unfoldable pub unmarshal_mhdr : Bytes → Result Mhdr
unmarshal_mhdr (b ∷ []) = ok (record { m_type = shr b 5; major = bit_and b 0x03 })
unmarshal_mhdr _ = err (bytes_expected 1)

-- The values that the MACPayload field holds.
pub data Contents : Type 0 where
  mac_payload : MacPayload → Contents
  element : Payload → Contents

-- The MACPayload field may be nil. The MIC is a `[4]byte`.
pub record PhyPayload : Type 0 where
  pub mhdr : Mhdr
  pub contents : Option Contents
  pub mic : Bytes

unfoldable pub is_uplink : PhyPayload → Bool
is_uplink p =
    let t = p.mhdr.m_type in
    t == MType.join_request
    || t == MType.unconfirmed_data_up
    || t == MType.confirmed_data_up
    || t == MType.rejoin_request

unfoldable pub marshal_contents : Contents → Result Bytes
marshal_contents (mac_payload m) = marshal_mac_payload m
marshal_contents (element e) = marshal_element e

-- `if p.MACPayload == nil { return … }`
abbrev pub contents_of : Option Contents → String → Result Contents
contents_of none text = err (message text)
contents_of (some c) text = ok c

unfoldable pub marshal_phy_payload : PhyPayload → Result Bytes
marshal_phy_payload p = do
  c ← contents_of p.contents "MACPayload should not be nil"
  h ← marshal_mhdr p.mhdr
  b ← marshal_contents c
  ok (h ++ (b ++ p.mic))

-- The zero value of the type that the message type selects, and its `UnmarshalBinary`.
unfoldable pub unmarshal_rejoin : ℕ → Bytes → Result Contents
unmarshal_rejoin t bs =
    let type02 : Result Contents = do
      p ← unmarshal_rejoin_request02 bs
      ok (element (rejoin_request02 p))
    in let type1 : Result Contents = do
      p ← unmarshal_rejoin_request1 bs
      ok (element (rejoin_request1 p))
      in if t == 0 || t == 2
        then type02
        else if t == 1
        then type1
        else err (message "invalid RejoinType")

unfoldable pub unmarshal_contents : ℕ → ℕ → Bytes → Result Contents
unmarshal_contents t rejoin_type bs =
    let join : Result Contents = do p ← unmarshal_join_request bs; ok (element (join_request p))
    in let bytes : Result Contents = do b ← unmarshal_data_payload bs; ok (element (data_payload b))
      in let frame : Result Contents = do
        p ← unmarshal_mac_payload zero_mac_payload bs
        ok (mac_payload p)
        in if t == MType.join_request
          then join
          else if t == MType.join_accept
          then bytes
          else if t == MType.rejoin_request
          then unmarshal_rejoin rejoin_type bs
          else if t == MType.proprietary
          then bytes
          else frame

unfoldable pub unmarshal_phy_payload : Bytes → Result PhyPayload
unmarshal_phy_payload bs = do
  fail_if (ltb (length bs) 5) (bytes_at_least 5)
  h ← unmarshal_mhdr (slice 0 1 bs)
  c ← unmarshal_contents h.m_type (get_or bs 1 0) (slice 1 (length bs - 4) bs)
  ok (record { mhdr = h; contents = some c; mic = drop (length bs - 4) bs })
