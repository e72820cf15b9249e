-- ===== src/Phy/Mic.antt =====
-- The message integrity codes of phypayload.go.
pub mod Counter
pub mod Forwarding
pub mod Uplink
use lorawan.Prelude.{
  ℕ, Bool, List, [], ◌∷◌, ◌++◌, if◌then◌else◌, true, Result, false, take, ◌%◌, ok, ◌>>=◌, ◌^◌, ◌>>◌,
  drop, err, fail_if, not, ltb, message, ◌||◌, length,
}
use lorawan.Phy.Packet.{
  Contents, PhyPayload, contents_of, element, mac_payload, marshal_mhdr, marshal_contents,
}
use lorawan.Phy.Primitives.{Cmac}
use lorawan.Prelude.Bytes.{Bytes, put_uint32, bytes_eq, put_uint16}
use lorawan.Ident.{DevAddr, marshal_eui64, marshal_dev_nonce, marshal_dev_addr}
use lorawan.Join.Accept.{JoinAcceptPayload}
use lorawan.Frame.Body.{MacPayload, marshal_mac_payload}
use lorawan.Frame.Element.{join_accept}

-- `MACVersion`
pub data MacVersion : Type 0 where
  lorawan1_0 lorawan1_1 : MacVersion

abbrev pub is_1_0 : MacVersion → Bool
is_1_0 lorawan1_0 = true
is_1_0 lorawan1_1 = false

-- `macPL, ok := p.MACPayload.(*MACPayload)`
abbrev pub mac_payload_of : Contents → Result MacPayload
mac_payload_of (mac_payload m) = ok m
mac_payload_of (element e) = err (message "MACPayload must be of type *MACPayload")

-- `joinAccPL, ok := p.MACPayload.(*JoinAcceptPayload)`
abbrev pub join_accept_of : Contents → Result JoinAcceptPayload
join_accept_of (element (join_accept p)) = ok p
join_accept_of c = err (message "MACPayload must be of type *JoinAcceptPayload")

-- The two starting blocks differ in bytes 1 to 5: the confirmed frame counter, the data rate and
-- channel of an uplink, and the direction.
abbrev pub mic_block : Bytes → DevAddr → ℕ → ℕ → Bytes
mic_block middle addr f_cnt size =
    0x49 ∷ (middle ++ (addr ++ (put_uint32 f_cnt ++ (0 ∷ (size % 2 ^ 8) ∷ []))))

-- `confFCnt % (1 << 16)`, and 0 when there is no ACK
abbrev pub conf_counter : Bool → ℕ → ℕ
conf_counter acks conf = (if acks then conf else 0) % 2 ^ 16

-- What goes before the frame when OptNeg is set.
unfoldable pub join_prefix : Bool → ℕ → Bytes → ℕ → Result Bytes
join_prefix false join_req_type join_eui dev_nonce = ok []
join_prefix true join_req_type join_eui dev_nonce = do
  e ← marshal_eui64 join_eui
  n ← marshal_dev_nonce dev_nonce
  ok (join_req_type ∷ (e ++ n))

-- The version decides between the first four bytes of one sum and two bytes of each.
abbrev pub uplink_mic : MacVersion → Bytes → Bytes → Bytes
uplink_mic lorawan1_0 cmac_s cmac_f = take 4 cmac_f
uplink_mic lorawan1_1 cmac_s cmac_f = take 2 cmac_s ++ take 2 cmac_f

-- The four setters and the five validators are these two, at their calculation.
abbrev pub set_mic : PhyPayload → Result Bytes → Result PhyPayload
set_mic p calculated = do mic ← calculated; ok (record p { mic = mic })

abbrev pub validate_mic : PhyPayload → Result Bytes → Result Bool
validate_mic p calculated = do mic ← calculated; ok (bytes_eq p.mic mic)

module _ (C : Cmac) where
  -- The writes, and the sum.
  unfoldable pub write_all : C.Hash → List Bytes → Result C.Hash
  write_all h [] = ok h
  write_all h (bs ∷ rest) = do h' ← C.write h bs; write_all h' rest

  unfoldable pub cmac_sum : Bytes → List Bytes → ℕ → Result Bytes
  cmac_sum key parts least = do
    h ← C.new key
    h' ← write_all h parts
    fail_if (ltb (length (C.sum h')) least) (message "the hash returned too few bytes")
    ok (C.sum h')

  unfoldable pub calculate_uplink_join_mic : PhyPayload → Bytes → Result Bytes
  calculate_uplink_join_mic p key = do
    c ← contents_of p.contents "MACPayload must not be empty"
    h ← marshal_mhdr p.mhdr
    b ← marshal_contents c
    s ← cmac_sum key ((h ++ b) ∷ []) 4
    ok (take 4 s)

  unfoldable pub calculate_downlink_join_mic : PhyPayload → ℕ → Bytes → ℕ → Bytes → Result Bytes
  calculate_downlink_join_mic p join_req_type join_eui dev_nonce key = do
    c ← contents_of p.contents "MACPayload most not be empty"
    a ← join_accept_of c
    f ← join_prefix a.dl_settings.opt_neg join_req_type join_eui dev_nonce
    h ← marshal_mhdr p.mhdr
    b ← marshal_contents c
    s ← cmac_sum key ((f ++ (h ++ b)) ∷ []) 4
    ok (take 4 s)

  unfoldable pub calculate_uplink_data_mic :
      PhyPayload → MacVersion → ℕ → ℕ → ℕ → Bytes → Bytes → Result Bytes
  calculate_uplink_data_mic p version conf_f_cnt tx_dr tx_ch f_key s_key = do
    c ← contents_of p.contents "MACPayload must not be nil"
    m ← mac_payload_of c
    let conf = conf_counter m.fhdr.f_ctrl.ack conf_f_cnt
    h ← marshal_mhdr p.mhdr
    b ← marshal_mac_payload m
    let mic_bytes = h ++ b
    a ← marshal_dev_addr m.fhdr.dev_addr
    let b0 = mic_block (0 ∷ 0 ∷ 0 ∷ 0 ∷ 0 ∷ []) a m.fhdr.f_cnt (length mic_bytes)
    let b1 =
        mic_block (put_uint16 conf ++ (tx_dr ∷ tx_ch ∷ 0 ∷ [])) a m.fhdr.f_cnt (length mic_bytes)
    cmac_s ← cmac_sum s_key (b1 ∷ mic_bytes ∷ []) 4
    cmac_f ← cmac_sum f_key (b0 ∷ mic_bytes ∷ []) 2
    ok (uplink_mic version cmac_s cmac_f)

  unfoldable pub calculate_downlink_data_mic : PhyPayload → MacVersion → ℕ → Bytes → Result Bytes
  calculate_downlink_data_mic p version conf_f_cnt s_key = do
    c ← contents_of p.contents "MACPayload must not be nil"
    m ← mac_payload_of c
    let conf = conf_counter (not (is_1_0 version || not m.fhdr.f_ctrl.ack)) conf_f_cnt
    h ← marshal_mhdr p.mhdr
    b ← marshal_mac_payload m
    let mic_bytes = h ++ b
    a ← marshal_dev_addr m.fhdr.dev_addr
    let b0 = mic_block (put_uint16 conf ++ (0 ∷ 0 ∷ 1 ∷ [])) a m.fhdr.f_cnt (length mic_bytes)
    s ← cmac_sum s_key (b0 ∷ mic_bytes ∷ []) 4
    ok (take 4 s)

  unfoldable pub set_uplink_data_mic :
      PhyPayload → MacVersion → ℕ → ℕ → ℕ → Bytes → Bytes → Result PhyPayload
  set_uplink_data_mic p v conf dr ch f_key s_key =
      set_mic p (calculate_uplink_data_mic p v conf dr ch f_key s_key)

  unfoldable pub validate_uplink_data_mic :
      PhyPayload → MacVersion → ℕ → ℕ → ℕ → Bytes → Bytes → Result Bool
  validate_uplink_data_mic p v conf dr ch f_key s_key =
      validate_mic p (calculate_uplink_data_mic p v conf dr ch f_key s_key)

  -- The last two bytes alone.
  unfoldable pub validate_uplink_data_micf : PhyPayload → Bytes → Result Bool
  validate_uplink_data_micf p f_key = do
    mic ← calculate_uplink_data_mic p lorawan1_1 0 0 0 f_key f_key
    ok (bytes_eq (drop 2 p.mic) (drop 2 mic))

  unfoldable pub set_downlink_data_mic : PhyPayload → MacVersion → ℕ → Bytes → Result PhyPayload
  set_downlink_data_mic p v conf s_key = set_mic p (calculate_downlink_data_mic p v conf s_key)

  unfoldable pub validate_downlink_data_mic : PhyPayload → MacVersion → ℕ → Bytes → Result Bool
  validate_downlink_data_mic p v conf s_key =
      validate_mic p (calculate_downlink_data_mic p v conf s_key)

  unfoldable pub set_uplink_join_mic : PhyPayload → Bytes → Result PhyPayload
  set_uplink_join_mic p key = set_mic p (calculate_uplink_join_mic p key)

  unfoldable pub validate_uplink_join_mic : PhyPayload → Bytes → Result Bool
  validate_uplink_join_mic p key = validate_mic p (calculate_uplink_join_mic p key)

  unfoldable pub set_downlink_join_mic : PhyPayload → ℕ → Bytes → ℕ → Bytes → Result PhyPayload
  set_downlink_join_mic p t join_eui dev_nonce key =
      set_mic p (calculate_downlink_join_mic p t join_eui dev_nonce key)

  unfoldable pub validate_downlink_join_mic : PhyPayload → ℕ → Bytes → ℕ → Bytes → Result Bool
  validate_downlink_join_mic p t join_eui dev_nonce key =
      validate_mic p (calculate_downlink_join_mic p t join_eui dev_nonce key)
