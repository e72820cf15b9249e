-- ===== src/Join.antt =====
-- Join and rejoin requests of payload.go.
pub mod CfList
pub mod Accept
pub mod RoundTrip
use lorawan.Prelude.{
  ℕ, Result, if◌then◌else◌, ◌>>=◌, ◌>>◌, fail_if, not, length, ◌==◌, err, message, ok, ◌&&◌,
  bytes_expected, ◌++◌, ◌∷◌, slice, get_or,
}
use lorawan.Prelude.Bytes.{Bytes, put_uint16, uint16}
use lorawan.Ident.{
  Eui64, NetId, marshal_eui64, marshal_dev_nonce, marshal_net_id, unmarshal_eui64, unmarshal_net_id,
  unmarshal_dev_nonce,
}

pub record JoinRequestPayload : Type 0 where
  pub join_eui : Eui64
  pub dev_eui : Eui64
  pub dev_nonce : ℕ

unfoldable pub marshal_join_request : JoinRequestPayload → Result Bytes
marshal_join_request p = do
  b1 ← marshal_eui64 p.join_eui
  b2 ← marshal_eui64 p.dev_eui
  b3 ← marshal_dev_nonce p.dev_nonce
  ok (b1 ++ (b2 ++ b3))

unfoldable pub unmarshal_join_request : Bytes → Result JoinRequestPayload
unmarshal_join_request bs = if not (length bs == 18) then err (bytes_expected 18) else do
  j ← unmarshal_eui64 (slice 0 8 bs)
  d ← unmarshal_eui64 (slice 8 16 bs)
  n ← unmarshal_dev_nonce (slice 16 18 bs)
  ok (record { join_eui = j; dev_eui = d; dev_nonce = n })

pub record RejoinRequestType02Payload : Type 0 where
  pub rejoin_type : ℕ
  pub net_id : NetId
  pub dev_eui : Eui64
  pub rj_count0 : ℕ

unfoldable pub marshal_rejoin_request02 : RejoinRequestType02Payload → Result Bytes
marshal_rejoin_request02 p = do
  fail_if (not (p.rejoin_type == 0) && not (p.rejoin_type == 2))
      (message "RejoinType must be 0 or 2")
  b1 ← marshal_net_id p.net_id
  b2 ← marshal_eui64 p.dev_eui
  ok (p.rejoin_type ∷ (b1 ++ (b2 ++ put_uint16 p.rj_count0)))

unfoldable pub unmarshal_rejoin_request02 : Bytes → Result RejoinRequestType02Payload
unmarshal_rejoin_request02 bs = if not (length bs == 14) then err (bytes_expected 14) else do
  n ← unmarshal_net_id (slice 1 4 bs)
  d ← unmarshal_eui64 (slice 4 12 bs)
  ok (record {
    rejoin_type = get_or bs 0 0;
    net_id = n;
    dev_eui = d;
    rj_count0 = uint16 (slice 12 14 bs);
  })

pub record RejoinRequestType1Payload : Type 0 where
  pub rejoin_type : ℕ
  pub join_eui : Eui64
  pub dev_eui : Eui64
  pub rj_count1 : ℕ

unfoldable pub marshal_rejoin_request1 : RejoinRequestType1Payload → Result Bytes
marshal_rejoin_request1 p = do
  fail_if (not (p.rejoin_type == 1)) (message "RejoinType must be 1")
  b1 ← marshal_eui64 p.join_eui
  b2 ← marshal_eui64 p.dev_eui
  ok (p.rejoin_type ∷ (b1 ++ (b2 ++ put_uint16 p.rj_count1)))

unfoldable pub unmarshal_rejoin_request1 : Bytes → Result RejoinRequestType1Payload
unmarshal_rejoin_request1 bs = if not (length bs == 19) then err (bytes_expected 19) else do
  j ← unmarshal_eui64 (slice 1 9 bs)
  d ← unmarshal_eui64 (slice 9 17 bs)
  ok (record {
    rejoin_type = get_or bs 0 0;
    join_eui = j;
    dev_eui = d;
    rj_count1 = uint16 (slice 17 19 bs);
  })
