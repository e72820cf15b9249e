-- ===== src/Applayer/Fragmentation.antt =====
-- The payloads of applayer/fragmentation/fragmentation.go. A struct inside that holds one field is
-- written as the field.
pub mod RoundTrip
pub mod Encode
use lorawan.Prelude.{
  ℕ, [], ◌∷◌, none, some, Bool, List, Option, Result, bit_or, false, ◌+◌, bit_and, if◌then◌else◌,
  length, ok, ◌>>=◌, err, not, ◌++◌, ◌==◌, bytes_expected,
}
use lorawan.Prelude.Bytes.{Bytes, put_uint16, uint16}
use lorawan.Prelude.Bits.{shl, shr}
use lorawan.Applayer.Command.{CommandCodec, Command}
use lorawan.Applayer.Command
use lorawan.Applayer.GroupMask.{GroupMask, group_mask_bits, read_group_mask}

pub record PackageVersionAnsPayload : Type 0 where
  pub package_identifier : ℕ
  pub package_version : ℕ

unfoldable pub marshal_package_version_ans : PackageVersionAnsPayload → Result Bytes
marshal_package_version_ans p = ok (p.package_identifier ∷ p.package_version ∷ [])

-- Further bytes are left alone, here and below.
unfoldable pub unmarshal_package_version_ans : Bytes → Result PackageVersionAnsPayload
unmarshal_package_version_ans (a ∷ b ∷ _) =
    ok (record { package_identifier = a; package_version = b })
unmarshal_package_version_ans _ = err (bytes_expected 2)

pub record FragSession : Type 0 where
  pub frag_index : ℕ
  pub mc_group_bit_mask : GroupMask

pub record SetupControl : Type 0 where
  pub fragmentation_matrix : ℕ
  pub block_ack_delay : ℕ

pub record FragSessionSetupReqPayload : Type 0 where
  pub frag_session : FragSession
  pub nb_frag : ℕ
  pub frag_size : ℕ
  pub control : SetupControl
  pub padding : ℕ
  pub descriptor : Bytes

unfoldable pub marshal_setup_req : FragSessionSetupReqPayload → Result Bytes
marshal_setup_req p =
    let b0 =
      bit_or (group_mask_bits 0 0 p.frag_session.mc_group_bit_mask)
        (shl 8 (bit_and p.frag_session.frag_index 0x03) 4) in
    let b4 =
      bit_or (bit_and p.control.block_ack_delay 0x07)
        (shl 8 (bit_and p.control.fragmentation_matrix 0x07) 3) in
    ok ((b0 ∷ put_uint16 p.nb_frag) ++ (p.frag_size ∷ b4 ∷ p.padding ∷ p.descriptor))

unfoldable pub unmarshal_setup_req : Bytes → Result FragSessionSetupReqPayload
unmarshal_setup_req (b0 ∷ b1 ∷ b2 ∷ b3 ∷ b4 ∷ b5 ∷ b6 ∷ b7 ∷ b8 ∷ b9 ∷ _) = ok (record {
  frag_session = record {
    frag_index = bit_and (shr b0 4) 0x03;
    mc_group_bit_mask = read_group_mask b0;
  };
  nb_frag = uint16 (b1 ∷ b2 ∷ []);
  frag_size = b3;
  control = record {
    fragmentation_matrix = bit_and (shr b4 3) 0x07;
    block_ack_delay = bit_and b4 0x07;
  };
  padding = b5;
  descriptor = b6 ∷ b7 ∷ b8 ∷ b9 ∷ [];
})
unmarshal_setup_req _ = err (bytes_expected 10)

pub record FragSessionSetupAnsPayload : Type 0 where
  pub frag_index : ℕ
  pub wrong_descriptor : Bool
  pub frag_session_index_not_supported : Bool
  pub not_enough_memory : Bool
  pub encoding_unsupported : Bool

unfoldable pub marshal_setup_ans : FragSessionSetupAnsPayload → Result Bytes
marshal_setup_ans p =
    let b0 : ℕ = if p.encoding_unsupported then bit_or 0 0x01 else 0 in
    let b1 = if p.not_enough_memory then bit_or b0 0x02 else b0 in
    let b2 = if p.frag_session_index_not_supported then bit_or b1 0x04 else b1 in
    let b3 = if p.wrong_descriptor then bit_or b2 0x08 else b2 in
    ok (bit_or b3 (shl 8 (bit_and p.frag_index 0x03) 6) ∷ [])

unfoldable pub unmarshal_setup_ans : Bytes → Result FragSessionSetupAnsPayload
unmarshal_setup_ans (b ∷ _) = ok (record {
  frag_index = bit_and (shr b 6) 0x03;
  wrong_descriptor = not (bit_and b 0x08 == 0);
  frag_session_index_not_supported = not (bit_and b 0x04 == 0);
  not_enough_memory = not (bit_and b 0x02 == 0);
  encoding_unsupported = not (bit_and b 0x01 == 0);
})
unmarshal_setup_ans [] = err (bytes_expected 1)

pub record FragSessionDeleteReqPayload : Type 0 where
  pub frag_index : ℕ

unfoldable pub marshal_delete_req : FragSessionDeleteReqPayload → Result Bytes
marshal_delete_req p = ok (bit_and p.frag_index 0x03 ∷ [])

unfoldable pub unmarshal_delete_req : Bytes → Result FragSessionDeleteReqPayload
unmarshal_delete_req (b ∷ _) = ok (record { frag_index = bit_and b 0x03 })
unmarshal_delete_req [] = err (bytes_expected 1)

pub record FragSessionDeleteAnsPayload : Type 0 where
  pub frag_index : ℕ
  pub session_does_not_exist : Bool

unfoldable pub marshal_delete_ans : FragSessionDeleteAnsPayload → Result Bytes
marshal_delete_ans p =
    let b = bit_and p.frag_index 0x03 in
    ok ((if p.session_does_not_exist then bit_or b 0x04 else b) ∷ [])

unfoldable pub unmarshal_delete_ans : Bytes → Result FragSessionDeleteAnsPayload
unmarshal_delete_ans (b ∷ _) =
    ok (record { frag_index = bit_and b 0x03; session_does_not_exist = not (bit_and b 0x04 == 0) })
unmarshal_delete_ans [] = err (bytes_expected 1)

pub record DataFragmentPayload : Type 0 where
  pub frag_index : ℕ
  pub n : ℕ
  pub payload : Bytes

-- `b[1] |= high` on the two bytes of a word
abbrev pub or_second : Bytes → ℕ → Bytes
or_second (a ∷ b ∷ bs) high = a ∷ bit_or b high ∷ bs
or_second bs high = bs

unfoldable pub marshal_data_fragment : DataFragmentPayload → Result Bytes
marshal_data_fragment p =
    ok (
      or_second (put_uint16 (bit_and p.n 0x3fff)) (shl 8 (bit_and p.frag_index 0x03) 6)
      ++ p.payload)

-- The payload takes all the bytes that are left.
unfoldable pub unmarshal_data_fragment : Bytes → Result DataFragmentPayload
unmarshal_data_fragment (a ∷ b ∷ bs) =
    ok (record { frag_index = shr b 6; n = bit_and (uint16 (a ∷ b ∷ [])) 0x3fff; payload = bs })
unmarshal_data_fragment _ = err (bytes_expected 2)

pub record FragSessionStatusReqPayload : Type 0 where
  pub frag_index : ℕ
  pub participants : Bool

unfoldable pub marshal_status_req : FragSessionStatusReqPayload → Result Bytes
marshal_status_req p =
    let b : ℕ = if p.participants then bit_or 0 0x01 else 0 in
    ok (bit_or b (shl 8 (bit_and p.frag_index 0x03) 1) ∷ [])

unfoldable pub unmarshal_status_req : Bytes → Result FragSessionStatusReqPayload
unmarshal_status_req (b ∷ _) =
    ok (record { frag_index = bit_and (shr b 1) 0x03; participants = not (bit_and b 0x01 == 0) })
unmarshal_status_req [] = err (bytes_expected 1)

pub record FragSessionStatusAnsPayload : Type 0 where
  pub frag_index : ℕ
  pub nb_frag_received : ℕ
  pub missing_frag : ℕ
  pub not_enough_matrix_memory : Bool

unfoldable pub marshal_status_ans : FragSessionStatusAnsPayload → Result Bytes
marshal_status_ans p = ok (
    or_second (put_uint16 (bit_and p.nb_frag_received 0x3fff)) (shl 8 (bit_and p.frag_index 0x03) 6)
    ++ (p.missing_frag ∷ (if p.not_enough_matrix_memory then bit_or 0 0x01 else 0) ∷ []))

unfoldable pub unmarshal_status_ans : Bytes → Result FragSessionStatusAnsPayload
unmarshal_status_ans (a ∷ b ∷ c ∷ d ∷ _) = ok (record {
  frag_index = shr b 6;
  nb_frag_received = bit_and (uint16 (a ∷ b ∷ [])) 0x3fff;
  missing_frag = c;
  not_enough_matrix_memory = not (bit_and d 0x01 == 0);
})
unmarshal_status_ans _ = err (bytes_expected 4)

-- The types that implement CommandPayload.
pub data Payload : Type 0 where
  package_version_ans : PackageVersionAnsPayload → Payload
  setup_req : FragSessionSetupReqPayload → Payload
  setup_ans : FragSessionSetupAnsPayload → Payload
  delete_req : FragSessionDeleteReqPayload → Payload
  delete_ans : FragSessionDeleteAnsPayload → Payload
  data_fragment : DataFragmentPayload → Payload
  status_req : FragSessionStatusReqPayload → Payload
  status_ans : FragSessionStatusAnsPayload → Payload

unfoldable pub marshal_payload : Payload → Result Bytes
marshal_payload (package_version_ans p) = marshal_package_version_ans p
marshal_payload (setup_req p) = marshal_setup_req p
marshal_payload (setup_ans p) = marshal_setup_ans p
marshal_payload (delete_req p) = marshal_delete_req p
marshal_payload (delete_ans p) = marshal_delete_ans p
marshal_payload (data_fragment p) = marshal_data_fragment p
marshal_payload (status_req p) = marshal_status_req p
marshal_payload (status_ans p) = marshal_status_ans p

-- Of the receiver only the type matters: every field is assigned.
unfoldable pub unmarshal_payload : Payload → Bytes → Result Payload
unmarshal_payload (package_version_ans p) bs =
    unmarshal_package_version_ans bs >>= λ r. ok (package_version_ans r)
unmarshal_payload (setup_req p) bs = unmarshal_setup_req bs >>= λ r. ok (setup_req r)
unmarshal_payload (setup_ans p) bs = unmarshal_setup_ans bs >>= λ r. ok (setup_ans r)
unmarshal_payload (delete_req p) bs = unmarshal_delete_req bs >>= λ r. ok (delete_req r)
unmarshal_payload (delete_ans p) bs = unmarshal_delete_ans bs >>= λ r. ok (delete_ans r)
unmarshal_payload (data_fragment p) bs = unmarshal_data_fragment bs >>= λ r. ok (data_fragment r)
unmarshal_payload (status_req p) bs = unmarshal_status_req bs >>= λ r. ok (status_req r)
unmarshal_payload (status_ans p) bs = unmarshal_status_ans bs >>= λ r. ok (status_ans r)

unfoldable pub payload_size : Payload → ℕ
payload_size (package_version_ans p) = 2
payload_size (setup_req p) = 10
payload_size (setup_ans p) = 1
payload_size (delete_req p) = 1
payload_size (delete_ans p) = 1
payload_size (data_fragment p) = 2 + length p.payload
payload_size (status_req p) = 1
payload_size (status_ans p) = 4

abbrev pub zero_setup_req : FragSessionSetupReqPayload
zero_setup_req = record {
  frag_session = record { frag_index = 0; mc_group_bit_mask = false ∷ false ∷ false ∷ false ∷ [] };
  nb_frag = 0;
  frag_size = 0;
  control = record { fragmentation_matrix = 0; block_ack_delay = 0 };
  padding = 0;
  descriptor = 0 ∷ 0 ∷ 0 ∷ 0 ∷ [];
}

abbrev pub zero_setup_ans : FragSessionSetupAnsPayload
zero_setup_ans = record {
  frag_index = 0;
  wrong_descriptor = false;
  frag_session_index_not_supported = false;
  not_enough_memory = false;
  encoding_unsupported = false;
}

abbrev pub zero_status_ans : FragSessionStatusAnsPayload
zero_status_ans = record {
  frag_index = 0;
  nb_frag_received = 0;
  missing_frag = 0;
  not_enough_matrix_memory = false;
}

-- The registry of the two directions, with new payloads.
abbrev pub uplink_payload : ℕ → Option Payload
uplink_payload cid =
    if cid == 0
    then some (package_version_ans (record { package_identifier = 0; package_version = 0 }))
    else if cid == 1
    then some (status_ans zero_status_ans)
    else if cid == 2
    then some (setup_ans zero_setup_ans)
    else if cid == 3
    then some (delete_ans (record { frag_index = 0; session_does_not_exist = false }))
    else none

abbrev pub downlink_payload : ℕ → Option Payload
downlink_payload cid =
    if cid == 1
    then some (status_req (record { frag_index = 0; participants = false }))
    else if cid == 2
    then some (setup_req zero_setup_req)
    else if cid == 3
    then some (delete_req (record { frag_index = 0 }))
    else if cid == 8
    then some (data_fragment (record { frag_index = 0; n = 0; payload = [] }))
    else none

unfoldable pub get_command_payload : Bool → ℕ → Option Payload
get_command_payload uplink cid = if uplink then uplink_payload cid else downlink_payload cid

unfoldable pub codec : CommandCodec Payload
codec = record {
  get_command_payload = get_command_payload;
  marshal_binary = marshal_payload;
  unmarshal_binary = unmarshal_payload;
  size = payload_size;
}

-- The package's own methods of Command and Commands.
unfoldable pub marshal_command : Command Payload → Result Bytes
marshal_command c = Command.marshal_command codec c

unfoldable pub unmarshal_command : Bool → Bytes → Result (Command Payload)
unmarshal_command uplink bs = Command.unmarshal_command codec uplink bs

unfoldable pub command_size : Command Payload → ℕ
command_size c = Command.command_size codec c

unfoldable pub marshal_commands : List (Command Payload) → Result Bytes
marshal_commands cs = Command.marshal_commands codec cs

unfoldable pub unmarshal_commands : Bool → Bytes → Result (List (Command Payload))
unmarshal_commands uplink bs = Command.unmarshal_commands codec uplink bs
