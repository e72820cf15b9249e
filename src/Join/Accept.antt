-- ===== src/Join/Accept.antt =====
-- The join-accept of payload.go.
pub mod RoundTrip
use lorawan.Prelude.{
  ℕ, Option, Result, length, ◌>>◌, fail_if, if◌then◌else◌, ok, [], ltb, not, ◌==◌, max_value, some,
  ◌&&◌, ◌>>=◌, err, drop, message, none, slice, ◌++◌, ◌∷◌, get_or,
}
use lorawan.Prelude.Bytes.{Bytes}
use lorawan.Ident.{
  NetId, DevAddr, marshal_join_nonce, marshal_net_id, marshal_dev_addr, unmarshal_join_nonce,
  unmarshal_net_id, unmarshal_dev_addr,
}
use lorawan.Join.CfList.{CfList, marshal_cf_list, unmarshal_cf_list}
use lorawan.Mac.Settings.{DlSettings, marshal_dl_settings, unmarshal_dl_settings}

pub record JoinAcceptPayload : Type 0 where
  pub join_nonce : ℕ
  pub home_net_id : NetId
  pub dev_addr : DevAddr
  pub dl_settings : DlSettings
  pub rx_delay : ℕ
  pub cf_list : Option CfList

-- `if p.CFList != nil { … }`
unfoldable pub marshal_optional_cf_list : Option CfList → Result Bytes
marshal_optional_cf_list none = ok []
marshal_optional_cf_list (some l) = marshal_cf_list l

unfoldable pub marshal_join_accept : JoinAcceptPayload → Result Bytes
marshal_join_accept p = do
  fail_if (ltb 15 p.rx_delay) (max_value "RXDelay" 15)
  b1 ← marshal_join_nonce p.join_nonce
  b2 ← marshal_net_id p.home_net_id
  b3 ← marshal_dev_addr p.dev_addr
  b4 ← marshal_dl_settings p.dl_settings
  b5 ← marshal_optional_cf_list p.cf_list
  ok (b1 ++ (b2 ++ (b3 ++ (b4 ++ (p.rx_delay ∷ b5)))))

-- `if l == 28 { … }`, into the CFList of the receiver otherwise
unfoldable pub unmarshal_optional_cf_list : Option CfList → ℕ → Bytes → Result (Option CfList)
unmarshal_optional_cf_list old l bs =
    if l == 28 then (do c ← unmarshal_cf_list (drop 12 bs); ok (some c)) else ok old

unfoldable pub unmarshal_join_accept : JoinAcceptPayload → Bytes → Result JoinAcceptPayload
unmarshal_join_accept p bs =
    let l = length bs in
    if not (l == 12) && not (l == 28)
    then err (message "12 or 28 bytes of data are expected")
    else do
      n ← unmarshal_join_nonce (slice 0 3 bs)
      i ← unmarshal_net_id (slice 3 6 bs)
      a ← unmarshal_dev_addr (slice 6 10 bs)
      s ← unmarshal_dl_settings (slice 10 11 bs)
      c ← unmarshal_optional_cf_list p.cf_list l bs
      ok (record {
        join_nonce = n;
        home_net_id = i;
        dev_addr = a;
        dl_settings = s;
        rx_delay = get_or bs 11 0;
        cf_list = c;
      })
