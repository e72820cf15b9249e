-- ===== src/Frame/Element.antt =====
-- The values of the Payload interface that frames hold as their elements (payload.go,
-- mac_commands.go): every implementation but MACPayload itself.
pub mod Commands
use lorawan.Prelude.{Bool, List, [], ◌∷◌, ◌++◌, Result, ok, ◌>>=◌, err, message}
use lorawan.Mac.Registry.{MacPayloadRegistry}
use lorawan.Mac.Command.{MacCommand, marshal_mac_command, decode_mac_commands}
use lorawan.Prelude.Bytes.{Bytes}
use lorawan.Join.{
  JoinRequestPayload, marshal_join_request, RejoinRequestType02Payload, RejoinRequestType1Payload,
  marshal_rejoin_request02, marshal_rejoin_request1,
}
use lorawan.Join.Accept.{JoinAcceptPayload, marshal_join_accept}

pub data Payload : Type 0 where
  data_payload : Bytes → Payload
  mac_command : MacCommand → Payload
  join_request : JoinRequestPayload → Payload
  join_accept : JoinAcceptPayload → Payload
  rejoin_request02 : RejoinRequestType02Payload → Payload
  rejoin_request1 : RejoinRequestType1Payload → Payload

unfoldable pub marshal_data_payload : Bytes → Result Bytes
marshal_data_payload bs = ok bs

unfoldable pub unmarshal_data_payload : Bytes → Result Bytes
unmarshal_data_payload bs = ok bs

-- The method that `MarshalBinary` of the interface selects.
unfoldable pub marshal_element : Payload → Result Bytes
marshal_element (data_payload bs) = marshal_data_payload bs
marshal_element (mac_command m) = marshal_mac_command m
marshal_element (join_request p) = marshal_join_request p
marshal_element (join_accept p) = marshal_join_accept p
marshal_element (rejoin_request02 p) = marshal_rejoin_request02 p
marshal_element (rejoin_request1 p) = marshal_rejoin_request1 p

-- The loop that appends the bytes of each element.
unfoldable pub marshal_elements : List Payload → Result Bytes
marshal_elements [] = ok []
marshal_elements (p ∷ ps) = do b ← marshal_element p; rest ← marshal_elements ps; ok (b ++ rest)

unfoldable pub as_commands : List MacCommand → List Payload
as_commands [] = []
as_commands (m ∷ ms) = mac_command m ∷ as_commands ms

-- `decodeDataPayloadToMACCommands`: one DataPayload, and the loop over its bytes
unfoldable pub decode_data_payload_to_mac_commands :
    MacPayloadRegistry → Bool → List Payload → Result (List Payload)
decode_data_payload_to_mac_commands reg uplink (data_payload bs ∷ []) = do
  ms ← decode_mac_commands reg uplink 0 bs
  ok (as_commands ms)
decode_data_payload_to_mac_commands reg uplink (p ∷ []) = err (message "expected DataPayload")
decode_data_payload_to_mac_commands reg uplink _ = err (message "exactly one Payload expected")
