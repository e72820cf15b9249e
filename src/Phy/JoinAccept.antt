-- ===== src/Phy/JoinAccept.antt =====
-- The encryption of a join-accept with its integrity code (phypayload.go).
pub mod RoundTrip
use lorawan.Prelude.{
  ℕ, Bool, List, [], ◌∷◌, ◌++◌, Result, replicate, some, suc, false, length, ok, take, ◌>>=◌, drop,
  err, none, ◌-◌, message, zero, ◌>>◌, fail_if, not, ◌%◌, ◌==◌, ◌/◌,
}
use lorawan.Prelude.Bytes.{Bytes}
use lorawan.Phy.Packet.{Contents, PhyPayload, element, contents_of}
use lorawan.Join.Accept.{JoinAcceptPayload, unmarshal_join_accept, marshal_join_accept}
use lorawan.Phy.Primitives.{Aes}
use lorawan.Phy.Methods.{Outcome, outcome}
use lorawan.Frame.Element.{data_payload, join_accept}
use lorawan.Phy.Mic.{join_accept_of}
use lorawan.Phy.Keystream.{cipher_of}

-- The loop over `n` blocks of 16 bytes.
unfoldable pub each_block : (Bytes → Bytes) → ℕ → Bytes → Bytes
each_block f zero bs = []
each_block f (suc n) bs = f (take 16 bs) ++ each_block f n (drop 16 bs)

-- `p.MACPayload.(*DataPayload)`
abbrev pub data_of : Contents → Result Bytes
data_of (element (data_payload bs)) = ok bs
data_of c = err (message "MACPayload must be of type *DataPayload")

-- `&JoinAcceptPayload{}`
abbrev pub zero_join_accept : JoinAcceptPayload
zero_join_accept = record {
  join_nonce = 0;
  home_net_id = replicate 3 0;
  dev_addr = replicate 4 0;
  dl_settings = record { opt_neg = false; rx2_data_rate = 0; rx1_dr_offset = 0 };
  rx_delay = 0;
  cf_list = none;
}

abbrev pub received_join_accept : PhyPayload → Bytes → JoinAcceptPayload → PhyPayload
received_join_accept p mic a = record p { contents = some (element (join_accept a)); mic = mic }

-- An error leaves the payload at its zero value, since only the length is refused, before any field.
abbrev pub decoded_join_accept : PhyPayload → Bytes → Result JoinAcceptPayload → Outcome
decoded_join_accept p mic (ok a) = (received_join_accept p mic a, ok tt)
decoded_join_accept p mic (err e) = (received_join_accept p mic zero_join_accept, err e)

-- The plaintext, decoded: its last four bytes become the MIC whether it decodes or not.
abbrev pub decode_join_accept : PhyPayload → Result Bytes → Outcome
decode_join_accept p (ok pt) =
    let n = length pt - 4 in
    decoded_join_accept p (drop n pt) (unmarshal_join_accept zero_join_accept (take n pt))
decode_join_accept p (err e) = (p, err e)

module _ (A : Aes) where
  unfoldable pub encrypt_join_accept_payload : PhyPayload → Bytes → Outcome
  encrypt_join_accept_payload p key = outcome p (do
    c ← contents_of p.contents "MACPayload value must be of type *JoinAcceptPayload"
    a ← join_accept_of c
    b ← marshal_join_accept a
    let pt = b ++ p.mic
    fail_if (not (length pt % 16 == 0)) (message "plaintext must be a multiple of 16 bytes")
    block ← cipher_of A key
    let ct = each_block (A.decrypt block) (length pt / 16) pt
    let n = length pt - 4
    ok (record p { contents = some (element (data_payload (take n ct))); mic = drop n ct }))

  unfoldable pub decipher_join_accept : PhyPayload → Bytes → Result Bytes
  decipher_join_accept p key = do
    c ← contents_of p.contents "MACPayload must be of type *DataPayload"
    b ← data_of c
    let ct = b ++ p.mic
    fail_if (not (length ct % 16 == 0)) (message "plaintext must be a multiple of 16 bytes")
    block ← cipher_of A key
    ok (each_block (A.encrypt block) (length ct / 16) ct)

  unfoldable pub decrypt_join_accept_payload : PhyPayload → Bytes → Outcome
  decrypt_join_accept_payload p key = decode_join_accept p (decipher_join_accept p key)
