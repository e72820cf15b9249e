-- ===== src/Examples/Applayer.antt =====
-- The properties of the application layer at concrete commands.
use lorawan.Applayer.Fragmentation.Encode.Termination.{encode_ends}
use lorawan.Applayer.Fragmentation.Encode.{encode, rows_from}
use lorawan.Prelude.{
  [], ◌∷◌, false, some, none, refl, arith, ◌≡◌, ok, ◌+◌, ◌*◌, ◌%◌, List, length, ◌/◌, ◌++◌,
}
use lorawan.Applayer.Command.{Command}
use lorawan.Applayer.ClockSync
use lorawan.Applayer.ClockSync.RoundTrip.{clock_sync_commands_lem}
use lorawan.Applayer.Fragmentation
use lorawan.Applayer.Fragmentation.RoundTrip.{fragmentation_commands_lem, data_fragment_last}
use lorawan.Applayer.MulticastSetup
use lorawan.Applayer.MulticastSetup.RoundTrip.{multicast_commands_lem}
use lorawan.Applayer.MulticastSetup.Session.RoundTrip.{class_b_session_req_lem}
use lorawan.Applayer.MulticastSetup.Group.{McGroupSetupReqPayload}
use lorawan.Applayer.MulticastSetup.Session.{
  McClassBSessionReqPayload, marshal_class_b_session_req, unmarshal_class_b_session_req,
}
use lorawan.Applayer.Fragmentation.{DataFragmentPayload}
use lorawan.Applayer.MulticastSetup.Keys.{session_keys_differ, get_mc_app_s_key, get_mc_net_s_key}
use lorawan.Examples.{
  xor_aes, xor_aes-IsAes, test_key, test_addr, test_key-IsArray, test_addr-IsArray,
}
use lorawan.Prelude.Bytes.{Bytes, ReadsBack, IsArray}
use lorawan.Prelude.Int.{negsuc}

abbrev version_req : {P : Type 0} → Command P
version_req = record { cid = 0; payload = none }

abbrev time_ans : Command ClockSync.Payload
time_ans = record {
  cid = 1;
  payload = some (ClockSync.app_time_ans (record { time_correction = negsuc 41; token_ans = 3 }));
}

clock_sync_commands_lem_example :
    (bs : Bytes) × (ClockSync.marshal_commands (version_req ∷ time_ans ∷ []) ≡ ok bs)
    × (ClockSync.unmarshal_commands false bs ≡ ok (version_req ∷ time_ans ∷ []))
unfolding ClockSync.codec ClockSync.get_command_payload
clock_sync_commands_lem_example =
    clock_sync_commands_lem false (version_req ∷ time_ans ∷ []) (refl, (ground arith, tt))

abbrev delete_command : Command Fragmentation.Payload
delete_command = record {
  cid = 3;
  payload = some (Fragmentation.delete_req (record { frag_index = 2 }));
}

fragmentation_commands_lem_example :
    (bs : Bytes) × (Fragmentation.marshal_commands (version_req ∷ delete_command ∷ []) ≡ ok bs)
    × (Fragmentation.unmarshal_commands false bs ≡ ok (version_req ∷ delete_command ∷ []))
unfolding Fragmentation.codec Fragmentation.get_command_payload
fragmentation_commands_lem_example =
    fragmentation_commands_lem false (version_req ∷ delete_command ∷ []) (refl, (ground arith, tt))

abbrev test_fragment : DataFragmentPayload
test_fragment = record { frag_index = 1; n = 300; payload = 7 ∷ 8 ∷ 9 ∷ [] }

abbrev fragment_command : Command Fragmentation.Payload
fragment_command = record { cid = 8; payload = some (Fragmentation.data_fragment test_fragment) }

data_fragment_last_example :
    (bs : Bytes) × (Fragmentation.marshal_commands (delete_command ∷ fragment_command ∷ []) ≡ ok bs)
    × (Fragmentation.unmarshal_commands false bs ≡ ok (delete_command ∷ fragment_command ∷ []))
data_fragment_last_example =
    data_fragment_last (delete_command ∷ []) test_fragment (ground arith) (ground arith)
      (ground arith)

abbrev test_group : McGroupSetupReqPayload
test_group = record {
  mc_group_id = 2;
  mc_addr = test_addr;
  mc_key_encrypted = test_key;
  min_mc_f_cnt = 100;
  max_mc_f_cnt = 70000;
}

abbrev group_command : Command MulticastSetup.Payload
group_command = record { cid = 2; payload = some (MulticastSetup.setup_req test_group) }

abbrev test_session : McClassBSessionReqPayload
test_session = record {
  mc_group_id = 1;
  session_time = 5000;
  periodicity = 3;
  time_out = 7;
  dl_frequency = 868100000;
  dr = 5;
}

multicast_commands_lem_example :
    (bs : Bytes) × (MulticastSetup.marshal_commands (version_req ∷ group_command ∷ []) ≡ ok bs)
    × (MulticastSetup.unmarshal_commands false bs ≡ ok (version_req ∷ group_command ∷ []))
unfolding MulticastSetup.codec MulticastSetup.get_command_payload
multicast_commands_lem_example = multicast_commands_lem false (version_req ∷ group_command ∷ []) (
  refl,
  (((omega arith, test_addr-IsArray, test_key-IsArray, omega arith, omega arith), refl, refl), tt),
)

class_b_session_req_lem_example :
    ReadsBack
      (marshal_class_b_session_req test_session)
      unmarshal_class_b_session_req
      10
      (record test_session {
        time_out = test_session.time_out + 16 * (test_session.periodicity % 2);
      })
class_b_session_req_lem_example = class_b_session_req_lem test_session (ground arith)

session_keys_differ_example :
    (a n : Bytes) × (get_mc_app_s_key xor_aes test_key test_addr ≡ ok a)
    × (get_mc_net_s_key xor_aes test_key test_addr ≡ ok n)
    × IsArray 16 a
    × IsArray 16 n
    × ¬ (a ≡ n)
session_keys_differ_example =
    session_keys_differ xor_aes xor_aes-IsAes test_key test_addr test_key-IsArray test_addr-IsArray

abbrev test_data : Bytes
test_data = 1 ∷ 2 ∷ 3 ∷ 4 ∷ 5 ∷ 6 ∷ 7 ∷ 8 ∷ 9 ∷ 10 ∷ 11 ∷ 12 ∷ []

encode_ends_example :
    (parity : List Bytes) × (encode 65 test_data 3 2
      ≡ some (ok (rows_from 0 (length test_data / 3) 3 test_data ++ parity)))
    × (length parity ≡ 2)
encode_ends_example =
    encode_ends test_data 3 2 (ground arith) (ground arith) (ground arith) (ground arith)
