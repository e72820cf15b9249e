-- ===== src/Join/RoundTrip.antt =====
-- Join and rejoin requests of payload.go, written and read back.
use lorawan.Prelude.{
  ◌++◌, length, ◌≡◌, arith, length-append, slice, slice_here, slice_skip, ◌∙◌, slice_last,
  All-append, ◌⊎◌, ◌∷◌, [], refl, ok, get_or, >>=-eq-ok, fail_if, not, ◌==◌, message, ◌&&◌, ap, sym,
  ok_injective,
}
use lorawan.Join.{
  JoinRequestPayload, marshal_join_request, unmarshal_join_request, RejoinRequestType02Payload,
  RejoinRequestType1Payload, marshal_rejoin_request02, marshal_rejoin_request1,
  unmarshal_rejoin_request02, unmarshal_rejoin_request1,
}
use lorawan.Prelude.Bytes.{IsArray, IsU16, RoundTrips, IsByte, put_uint16, Bytes}
use lorawan.Ident.RoundTrip.{eui64_lem, dev_nonce_lem, net_id_lem}
use lorawan.Ident.{marshal_eui64, marshal_net_id}

abbrev pub JoinRequestInRange : JoinRequestPayload → Type 0
JoinRequestInRange p = IsArray 8 p.join_eui × IsArray 8 p.dev_eui × IsU16 p.dev_nonce

-- A join-request of two 8-byte EUIs and a 16-bit nonce takes 18 bytes and comes back from them.
pub join_request_lem :
    (p : JoinRequestPayload)
    → JoinRequestInRange p
    → RoundTrips marshal_join_request unmarshal_join_request 18 p
unfolding marshal_join_request unmarshal_join_request
join_request_lem p h =
    let (b1, e1, l1, y1, u1) = (eui64_lem p.join_eui h.0).0 in
    let (b2, e2, l2, y2, u2) = (eui64_lem p.dev_eui h.1).0 in
    let (b3, e3, l3, y3, u3) = dev_nonce_lem p.dev_nonce h.2 in
    let bs = b1 ++ (b2 ++ b3) in
    let len : length bs ≡ 18 = omega (arith, length-append b1 (b2 ++ b3), length-append b2 b3) in
    let s1 : slice 0 8 bs ≡ b1 = slice_here 8 b1 (b2 ++ b3) l1 in
    let s2 : slice 8 16 bs ≡ b2 = slice_skip 8 0 8 b1 (b2 ++ b3) l1 ∙ slice_here 8 b2 b3 l2 in
    let s3 : slice 16 18 bs ≡ b3 =
      slice_skip 8 8 10 b1 (b2 ++ b3) l1 ∙ slice_skip 8 0 2 b2 b3 l2 ∙ slice_last 2 b3 l3 in
    (
      bs,
      ground (arith, e1, e2, e3),
      len,
      All-append IsByte b1 (b2 ++ b3) y1 (All-append IsByte b2 b3 y2 y3),
      rw (len, s1, s2, s3, u1, u2, u3),
    )

abbrev pub RejoinRequest02InRange : RejoinRequestType02Payload → Type 0
RejoinRequest02InRange p =
    ((p.rejoin_type ≡ 0) ⊎ (p.rejoin_type ≡ 2))
    × IsArray 3 p.net_id
    × IsArray 8 p.dev_eui
    × IsU16 p.rj_count0

-- A rejoin-request of type 0 or 2 with a 3-byte NetID, an 8-byte EUI and a 16-bit counter takes
-- 14 bytes and comes back from them.
pub rejoin_request02_lem :
    (p : RejoinRequestType02Payload)
    → RejoinRequest02InRange p
    → RoundTrips marshal_rejoin_request02 unmarshal_rejoin_request02 14 p
unfolding marshal_rejoin_request02 unmarshal_rejoin_request02
rejoin_request02_lem p h =
    let (b1, e1, l1, y1, u1) = (net_id_lem p.net_id h.1).0 in
    let (b2, e2, l2, y2, u2) = (eui64_lem p.dev_eui h.2).0 in
    let b3 = put_uint16 p.rj_count0 in
    let first : Bytes = p.rejoin_type ∷ [] in
    let bs = p.rejoin_type ∷ (b1 ++ (b2 ++ b3)) in
    let len : length bs ≡ 14 = omega (arith, length-append b1 (b2 ++ b3), length-append b2 b3) in
    let s1 : slice 1 4 bs ≡ b1 =
      slice_skip 1 0 3 first (b1 ++ (b2 ++ b3)) refl ∙ slice_here 3 b1 (b2 ++ b3) l1 in
    let s2 : slice 4 12 bs ≡ b2 =
      slice_skip 4 0 8 (first ++ b1) (b2 ++ b3) (omega arith) ∙ slice_here 8 b2 b3 l2 in
    let s3 : slice 12 14 bs ≡ b3 =
      slice_skip 4 8 10 (first ++ b1) (b2 ++ b3) (omega arith)
      ∙ slice_skip 8 0 2 b2 b3 l2
      ∙ slice_last 2 b3 refl in
    (
      bs,
      ground (arith, e1, e2),
      len,
      (ground arith, All-append IsByte b1 (b2 ++ b3) y1 (All-append IsByte b2 b3 y2 (omega arith))),
      rw (len, s1, s2, s3, u1, u2) (ground arith),
    )

abbrev pub RejoinRequest1InRange : RejoinRequestType1Payload → Type 0
RejoinRequest1InRange p =
    (p.rejoin_type ≡ 1) × IsArray 8 p.join_eui × IsArray 8 p.dev_eui × IsU16 p.rj_count1

-- A rejoin-request of type 1 with two 8-byte EUIs and a 16-bit counter takes 19 bytes and comes
-- back from them.
pub rejoin_request1_lem :
    (p : RejoinRequestType1Payload)
    → RejoinRequest1InRange p
    → RoundTrips marshal_rejoin_request1 unmarshal_rejoin_request1 19 p
unfolding marshal_rejoin_request1 unmarshal_rejoin_request1
rejoin_request1_lem p h =
    let (b1, e1, l1, y1, u1) = (eui64_lem p.join_eui h.1).0 in
    let (b2, e2, l2, y2, u2) = (eui64_lem p.dev_eui h.2).0 in
    let b3 = put_uint16 p.rj_count1 in
    let first : Bytes = p.rejoin_type ∷ [] in
    let bs = p.rejoin_type ∷ (b1 ++ (b2 ++ b3)) in
    let len : length bs ≡ 19 = omega (arith, length-append b1 (b2 ++ b3), length-append b2 b3) in
    let s1 : slice 1 9 bs ≡ b1 =
      slice_skip 1 0 8 first (b1 ++ (b2 ++ b3)) refl ∙ slice_here 8 b1 (b2 ++ b3) l1 in
    let s2 : slice 9 17 bs ≡ b2 =
      slice_skip 9 0 8 (first ++ b1) (b2 ++ b3) (omega arith) ∙ slice_here 8 b2 b3 l2 in
    let s3 : slice 17 19 bs ≡ b3 =
      slice_skip 9 8 10 (first ++ b1) (b2 ++ b3) (omega arith)
      ∙ slice_skip 8 0 2 b2 b3 l2
      ∙ slice_last 2 b3 refl in
    (
      bs,
      ground (arith, e1, e2),
      len,
      (omega arith, All-append IsByte b1 (b2 ++ b3) y1 (All-append IsByte b2 b3 y2 (omega arith))),
      rw (len, s1, s2, s3, u1, u2) (ground arith),
    )

-- The first byte of a rejoin request is its type, by which it is told.
pub rejoin_type02 :
    (p : RejoinRequestType02Payload) (bs more : Bytes)
    → marshal_rejoin_request02 p ≡ ok bs
    → get_or (bs ++ more) 0 0 ≡ p.rejoin_type
unfolding marshal_rejoin_request02
rejoin_type02 p bs more h =
    let (u, e, h1) =
      >>=-eq-ok
        (fail_if (not (p.rejoin_type == 0) && not (p.rejoin_type == 2))
          (message "RejoinType must be 0 or 2"))
        _ h in
    let (b1, e1, h2) = >>=-eq-ok (marshal_net_id p.net_id) _ h1 in
    let (b2, e2, h3) = >>=-eq-ok (marshal_eui64 p.dev_eui) _ h2 in
    ap (λ (t : Bytes). get_or (t ++ more) 0 0) (sym (ok_injective h3))

pub rejoin_type1 :
    (p : RejoinRequestType1Payload) (bs more : Bytes)
    → marshal_rejoin_request1 p ≡ ok bs
    → get_or (bs ++ more) 0 0 ≡ p.rejoin_type
unfolding marshal_rejoin_request1
rejoin_type1 p bs more h =
    let (u, e, h1) =
      >>=-eq-ok (fail_if (not (p.rejoin_type == 1)) (message "RejoinType must be 1")) _ h in
    let (b1, e1, h2) = >>=-eq-ok (marshal_eui64 p.join_eui) _ h1 in
    let (b2, e2, h3) = >>=-eq-ok (marshal_eui64 p.dev_eui) _ h2 in
    ap (λ (t : Bytes). get_or (t ++ more) 0 0) (sym (ok_injective h3))
