-- ===== src/Phy/Packet/RoundTrip.antt =====
-- PHYPayload of phypayload.go, written and read back.
use lorawan.Prelude.{
  suc, ℕ, [], ◌∷◌, ◌++◌, ◌≡◌, ◌≤◌, ok, some, ◌<◌, All, get_or, length, ◌*◌, ◌+◌, arith,
  length-append, ◌-◌, slice, slice_skip, ◌∙◌, slice_here, drop, drop-append_add, drop-append,
  All-append, ◌⊎◌, refl,
}
use lorawan.Phy.MType
use lorawan.Phy.Packet.{
  Contents, marshal_contents, marshal_mhdr, marshal_phy_payload, unmarshal_mhdr,
  unmarshal_phy_payload, Mhdr, PhyPayload, unmarshal_contents, unmarshal_rejoin, mac_payload,
  element,
}
use lorawan.Prelude.Bytes.{Bytes, IsArray, IsByte}
use lorawan.Frame.Body.{MacPayload}
use lorawan.Frame.Element.{
  marshal_element, marshal_data_payload, unmarshal_data_payload, join_request, rejoin_request02,
  rejoin_request1, data_payload,
}
use lorawan.Frame.Header.RoundTrip.{FhdrInRange}
use lorawan.Frame.Body.RoundTrip.{PortInRange, mac_payload_lem, received_mac_payload}
use lorawan.Join.{JoinRequestPayload, RejoinRequestType02Payload, RejoinRequestType1Payload}
use lorawan.Join.RoundTrip.{
  JoinRequestInRange, join_request_lem, rejoin_request02_lem, rejoin_request1_lem,
  RejoinRequest02InRange, RejoinRequest1InRange, rejoin_type02, rejoin_type1,
}
use lorawan.Prelude.Bits.{bit_or_fields, bit_and_mask}

-- The contents that go with a message type, and what a receiver reads of them.
pub data Received (t : ℕ) : Contents → Contents → Type 0 where
  of_frame :
      (m : MacPayload) (opts frm : Bytes)
      → (2 ≤ t) × (t ≤ 5)
      → FhdrInRange m.fhdr opts
      → PortInRange m frm m.f_port
      → Received t (mac_payload m) (mac_payload (received_mac_payload m opts frm))
  of_join_request :
      (p : JoinRequestPayload)
      → t ≡ MType.join_request
      → JoinRequestInRange p
      → Received t (element (join_request p)) (element (join_request p))
  of_rejoin_request02 :
      (p : RejoinRequestType02Payload)
      → t ≡ MType.rejoin_request
      → RejoinRequest02InRange p
      → Received t (element (rejoin_request02 p)) (element (rejoin_request02 p))
  of_rejoin_request1 :
      (p : RejoinRequestType1Payload)
      → t ≡ MType.rejoin_request
      → RejoinRequest1InRange p
      → Received t (element (rejoin_request1 p)) (element (rejoin_request1 p))
  of_bytes :
      (bs : Bytes)
      → (t ≡ MType.join_accept) ⊎ (t ≡ MType.proprietary)
      → All IsByte bs
      → Received t (element (data_payload bs)) (element (data_payload bs))

-- The bytes of the contents, which begin with the rejoin type where there is one.
abbrev ContentsRoundTrip : ℕ → Contents → Contents → Type 0
ContentsRoundTrip t c d =
    (bs : Bytes) × (marshal_contents c ≡ ok bs)
    × All IsByte bs
    × ((mic : Bytes) → unmarshal_contents t (get_or (bs ++ mic) 0 0) bs ≡ ok d)

contents_lem : (t : ℕ) (c d : Contents) → Received t c d → ContentsRoundTrip t c d
unfolding marshal_contents marshal_element unmarshal_contents unmarshal_rejoin marshal_data_payload
    unmarshal_data_payload
contents_lem t _ _ (of_frame m opts frm type h k) =
    let (bs, e, len, bytes, back) = mac_payload_lem m opts frm h k in
    (bs, e, bytes, λ mic. rw back (ground arith))
contents_lem t _ _ (of_join_request p type h) =
    let (bs, e, len, bytes, back) = join_request_lem p h in
    (bs, e, bytes, λ mic. rw (type, back) refl)
contents_lem t _ _ (of_rejoin_request02 p type h) =
    let (bs, e, len, bytes, back) = rejoin_request02_lem p h in
    (bs, e, bytes, λ mic. rw (type, back) (ground (arith, rejoin_type02 p bs mic e, h.0)))
contents_lem t _ _ (of_rejoin_request1 p type h) =
    let (bs, e, len, bytes, back) = rejoin_request1_lem p h in
    (bs, e, bytes, λ mic. rw (type, back) (ground (arith, rejoin_type1 p bs mic e, h.0)))
contents_lem t _ _ (of_bytes bs type h) = (bs, refl, h, λ mic. ground (arith, type))

mhdr_lem :
    (h : Mhdr)
    → (h.m_type < 8) × (h.major < 4)
    → (b : ℕ) × (marshal_mhdr h ≡ ok (b ∷ [])) × IsByte b × (unmarshal_mhdr (b ∷ []) ≡ ok h)
unfolding marshal_mhdr unmarshal_mhdr
mhdr_lem h range =
    let b = h.m_type * 32 + h.major in
    (
      b,
      ground (arith, bit_or_fields 5 h.m_type h.major, bit_and_mask 2 h.major),
      omega arith,
      ground (arith, bit_and_mask 2 b),
    )

-- A physical payload with a three-bit message type, a two-bit major version and a four-byte MIC,
-- whose contents go with the message type, has bytes, and unmarshalling them gives the payload
-- back: a data frame as the receiver sees it, and join requests, rejoin requests, encrypted
-- join-accepts and proprietary bytes unchanged.
pub phy_payload_lem :
    (p : PhyPayload) (c d : Contents)
    → p.contents ≡ some c
    → (p.mhdr.m_type < 8) × (p.mhdr.major < 4)
    → IsArray 4 p.mic
    → Received p.mhdr.m_type c d
    → (bs : Bytes) × (marshal_phy_payload p ≡ ok bs)
      × All IsByte bs
      × (unmarshal_phy_payload bs ≡ ok (record p { contents = some d }))
unfolding marshal_phy_payload unmarshal_phy_payload
phy_payload_lem p c d holds range mic rec =
    let (b, e, byte, back) = mhdr_lem p.mhdr range in
    let (bs, es, bytes, backs) = contents_lem p.mhdr.m_type c d rec in
    let rest = bs ++ p.mic in
    let whole : length rest ≡ length bs + 4 = omega (arith, length-append bs p.mic, mic.0) in
    let cut : suc (length bs + 4) - 4 ≡ 1 + length bs = omega arith in
    let inner : slice 1 (1 + length bs) (b ∷ rest) ≡ bs =
      slice_skip 1 0 (length bs) (b ∷ []) rest refl ∙ slice_here (length bs) bs p.mic refl in
    let code : drop (1 + length bs) (b ∷ rest) ≡ p.mic =
      drop-append_add 1 (length bs) (b ∷ []) rest refl ∙ drop-append (length bs) bs p.mic refl in
    (
      b ∷ rest,
      rw (holds, e, es) refl,
      (byte, All-append IsByte bs p.mic bytes mic.1),
      rw (whole, cut, back, inner, code, backs p.mic) (ground arith),
    )
