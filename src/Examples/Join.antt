-- ===== src/Examples/Join.antt =====
-- The properties of join payloads at concrete ones.
use lorawan.Prelude.{[], ◌∷◌, arith, reverse, refl, true, some}
use lorawan.Join.{JoinRequestPayload, RejoinRequestType02Payload, RejoinRequestType1Payload}
use lorawan.Join.Accept.RoundTrip.{JoinAcceptInRange, join_accept_lem}
use lorawan.Join.Accept.{JoinAcceptPayload, marshal_join_accept, unmarshal_join_accept}
use lorawan.Join.RoundTrip.{JoinRequestInRange}
use lorawan.Join.CfList.{CfList, Channels, channels}
use lorawan.Prelude.Bytes.{Bytes, RoundTrips}
use lorawan.Join.CfList.RoundTrip.{CfListInRange}
use lorawan.Examples.{test_addr, test_addr-IsArray}
use lorawan.Phy.JoinAccept.{zero_join_accept}

abbrev test_eui : Bytes
test_eui = 1 ∷ 2 ∷ 3 ∷ 4 ∷ 5 ∷ 6 ∷ 7 ∷ 8 ∷ []

abbrev pub test_join_request : JoinRequestPayload
test_join_request = record { join_eui = test_eui; dev_eui = reverse test_eui; dev_nonce = 0x1234 }

pub test_join_request-InRange : JoinRequestInRange test_join_request
test_join_request-InRange = ((refl, ground arith), (refl, ground arith), ground arith)

abbrev test_rejoin : RejoinRequestType02Payload
test_rejoin = record { rejoin_type = 2; net_id = 1 ∷ 2 ∷ 3 ∷ []; dev_eui = test_eui; rj_count0 = 7 }

abbrev test_rejoin1 : RejoinRequestType1Payload
test_rejoin1 = record { rejoin_type = 1; join_eui = test_eui; dev_eui = test_eui; rj_count1 = 7 }

abbrev test_channels : Channels
test_channels = 867100000 ∷ 867300000 ∷ 867500000 ∷ 867700000 ∷ 867900000 ∷ []

abbrev pub test_cf_list : CfList
test_cf_list = record { payload = channels test_channels; cf_list_type = 0 }

pub test_channels-InRange : CfListInRange test_channels 0
test_channels-InRange = ((refl, ground arith), ground arith, λ e. cc)

abbrev pub test_join_accept : JoinAcceptPayload
test_join_accept = record {
  join_nonce = 0x10203;
  home_net_id = 1 ∷ 2 ∷ 3 ∷ [];
  dev_addr = test_addr;
  dl_settings = record { opt_neg = true; rx2_data_rate = 3; rx1_dr_offset = 1 };
  rx_delay = 1;
  cf_list = some test_cf_list;
}

pub test_join_accept-InRange : JoinAcceptInRange test_join_accept
test_join_accept-InRange =
    (ground arith, (refl, ground arith), test_addr-IsArray, ground arith, ground arith)

join_accept_lem_example :
    RoundTrips marshal_join_accept (unmarshal_join_accept zero_join_accept) 28 test_join_accept
join_accept_lem_example =
    join_accept_lem test_join_accept test_join_accept-InRange test_channels-InRange zero_join_accept
      refl
