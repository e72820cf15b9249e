-- ===== src/Applayer/MulticastSetup.antt =====
-- The commands of applayer/multicastsetup/multicastsetup.go.
pub mod Group
pub mod Session
pub mod Keys
pub mod RoundTrip
use lorawan.Prelude.{
  ℕ, [], ◌∷◌, none, some, Bool, List, Option, Result, false, replicate, if◌then◌else◌, ◌>>=◌, ok,
  ◌==◌,
}
use lorawan.Prelude.Bytes.{Bytes}
use lorawan.Applayer.Command.{CommandCodec, Command}
use lorawan.Applayer.Command
use lorawan.Applayer.MulticastSetup.Group.{
  PackageVersionAnsPayload, McGroupStatusReqPayload, McGroupStatusAnsPayload,
  McGroupSetupReqPayload, McGroupSetupAnsPayload, McGroupDeleteReqPayload, McGroupDeleteAnsPayload,
  marshal_package_version_ans, unmarshal_package_version_ans, marshal_status_req,
  unmarshal_status_req, marshal_status_ans, unmarshal_status_ans, status_ans_size,
  marshal_setup_req, unmarshal_setup_req, marshal_setup_ans, unmarshal_setup_ans,
  marshal_delete_req, unmarshal_delete_req, marshal_delete_ans, unmarshal_delete_ans,
}
use lorawan.Applayer.MulticastSetup.Session.{
  McClassCSessionReqPayload, McClassBSessionReqPayload, McSessionAnsPayload,
  marshal_class_c_session_req, unmarshal_class_c_session_req, marshal_class_b_session_req,
  unmarshal_class_b_session_req, marshal_class_c_session_ans, unmarshal_class_c_session_ans,
  marshal_class_b_session_ans, unmarshal_class_b_session_ans, session_ans_size,
}

-- The types that implement CommandPayload.
pub data Payload : Type 0 where
  package_version_ans : PackageVersionAnsPayload → Payload
  status_req : McGroupStatusReqPayload → Payload
  status_ans : McGroupStatusAnsPayload → Payload
  setup_req : McGroupSetupReqPayload → Payload
  setup_ans : McGroupSetupAnsPayload → Payload
  delete_req : McGroupDeleteReqPayload → Payload
  delete_ans : McGroupDeleteAnsPayload → Payload
  class_c_session_req : McClassCSessionReqPayload → Payload
  class_c_session_ans : McSessionAnsPayload → Payload
  class_b_session_req : McClassBSessionReqPayload → Payload
  class_b_session_ans : McSessionAnsPayload → Payload

unfoldable pub marshal_payload : Payload → Result Bytes
marshal_payload (package_version_ans p) = marshal_package_version_ans p
marshal_payload (status_req p) = marshal_status_req p
marshal_payload (status_ans p) = marshal_status_ans p
marshal_payload (setup_req p) = marshal_setup_req p
marshal_payload (setup_ans p) = marshal_setup_ans p
marshal_payload (delete_req p) = marshal_delete_req p
marshal_payload (delete_ans p) = marshal_delete_ans p
marshal_payload (class_c_session_req p) = marshal_class_c_session_req p
marshal_payload (class_c_session_ans p) = marshal_class_c_session_ans p
marshal_payload (class_b_session_req p) = marshal_class_b_session_req p
marshal_payload (class_b_session_ans p) = marshal_class_b_session_ans p

unfoldable pub unmarshal_payload : Payload → Bytes → Result Payload
unmarshal_payload (package_version_ans p) bs =
    unmarshal_package_version_ans bs >>= λ r. ok (package_version_ans r)
unmarshal_payload (status_req p) bs = unmarshal_status_req bs >>= λ r. ok (status_req r)
unmarshal_payload (status_ans p) bs = unmarshal_status_ans p bs >>= λ r. ok (status_ans r)
unmarshal_payload (setup_req p) bs = unmarshal_setup_req bs >>= λ r. ok (setup_req r)
unmarshal_payload (setup_ans p) bs = unmarshal_setup_ans bs >>= λ r. ok (setup_ans r)
unmarshal_payload (delete_req p) bs = unmarshal_delete_req bs >>= λ r. ok (delete_req r)
unmarshal_payload (delete_ans p) bs = unmarshal_delete_ans bs >>= λ r. ok (delete_ans r)
unmarshal_payload (class_c_session_req p) bs =
    unmarshal_class_c_session_req bs >>= λ r. ok (class_c_session_req r)
unmarshal_payload (class_c_session_ans p) bs =
    unmarshal_class_c_session_ans p bs >>= λ r. ok (class_c_session_ans r)
unmarshal_payload (class_b_session_req p) bs =
    unmarshal_class_b_session_req bs >>= λ r. ok (class_b_session_req r)
unmarshal_payload (class_b_session_ans p) bs =
    unmarshal_class_b_session_ans p bs >>= λ r. ok (class_b_session_ans r)

unfoldable pub payload_size : Payload → ℕ
payload_size (package_version_ans p) = 2
payload_size (status_req p) = 1
payload_size (status_ans p) = status_ans_size p.ans_group_mask
payload_size (setup_req p) = 29
payload_size (setup_ans p) = 1
payload_size (delete_req p) = 1
payload_size (delete_ans p) = 1
payload_size (class_c_session_req p) = 10
payload_size (class_c_session_ans p) = session_ans_size p
payload_size (class_b_session_req p) = 10
payload_size (class_b_session_ans p) = session_ans_size p

abbrev pub zero_status_ans : McGroupStatusAnsPayload
zero_status_ans = record {
  nb_total_groups = 0;
  ans_group_mask = false ∷ false ∷ false ∷ false ∷ [];
  items = [];
}

abbrev pub zero_setup_req : McGroupSetupReqPayload
zero_setup_req = record {
  mc_group_id = 0;
  mc_addr = replicate 4 0;
  mc_key_encrypted = replicate 16 0;
  min_mc_f_cnt = 0;
  max_mc_f_cnt = 0;
}

abbrev pub zero_class_c_session_req : McClassCSessionReqPayload
zero_class_c_session_req = record {
  mc_group_id = 0;
  session_time = 0;
  time_out = 0;
  dl_frequency = 0;
  dr = 0;
}

abbrev pub zero_class_b_session_req : McClassBSessionReqPayload
zero_class_b_session_req = record {
  mc_group_id = 0;
  session_time = 0;
  periodicity = 0;
  time_out = 0;
  dl_frequency = 0;
  dr = 0;
}

abbrev pub zero_session_ans : McSessionAnsPayload
zero_session_ans = record {
  status_and_mc_group_id = record {
    mc_group_undefined = false;
    freq_error = false;
    dr_error = false;
    mc_group_id = 0;
  };
  time_to_start = none;
}

-- The registry of the two directions, with new payloads.
abbrev pub uplink_payload : ℕ → Option Payload
uplink_payload cid =
    if cid == 0
    then some (package_version_ans (record { package_identifier = 0; package_version = 0 }))
    else if cid == 1
    then some (status_ans zero_status_ans)
    else if cid == 2
    then some (setup_ans (record { id_error = false; mc_group_id = 0 }))
    else if cid == 3
    then some (delete_ans (record { mc_group_undefined = false; mc_group_id = 0 }))
    else if cid == 4
    then some (class_c_session_ans zero_session_ans)
    else if cid == 5
    then some (class_b_session_ans zero_session_ans)
    else none

abbrev pub downlink_payload : ℕ → Option Payload
downlink_payload cid =
    if cid == 1
    then some (status_req (record { reg_group_mask = false ∷ false ∷ false ∷ false ∷ [] }))
    else if cid == 2
    then some (setup_req zero_setup_req)
    else if cid == 3
    then some (delete_req (record { mc_group_id = 0 }))
    else if cid == 4
    then some (class_c_session_req zero_class_c_session_req)
    else if cid == 5
    then some (class_b_session_req zero_class_b_session_req)
    else none

unfoldable pub get_command_payload : Bool → ℕ → Option Payload
get_command_payload uplink cid = if uplink then uplink_payload cid else downlink_payload cid

unfoldable pub codec : CommandCodec Payload
codec = record {
  get_command_payload = get_command_payload;
  marshal_binary = marshal_payload;
  unmarshal_binary = unmarshal_payload;
  size = payload_size;
}

-- The package's own methods of Command and Commands.
unfoldable pub marshal_command : Command Payload → Result Bytes
marshal_command c = Command.marshal_command codec c

unfoldable pub unmarshal_command : Bool → Bytes → Result (Command Payload)
unmarshal_command uplink bs = Command.unmarshal_command codec uplink bs

unfoldable pub command_size : Command Payload → ℕ
command_size c = Command.command_size codec c

unfoldable pub marshal_commands : List (Command Payload) → Result Bytes
marshal_commands cs = Command.marshal_commands codec cs

unfoldable pub unmarshal_commands : Bool → Bytes → Result (List (Command Payload))
unmarshal_commands uplink bs = Command.unmarshal_commands codec uplink bs
