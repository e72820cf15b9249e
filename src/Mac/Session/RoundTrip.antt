-- ===== src/Mac/Session/RoundTrip.antt =====
-- Version, ADR, rejoin and device mode payloads of mac_commands.go, written and read back.
use lorawan.Prelude.{◌≤◌, ◌≡◌, ◌*◌, ◌∷◌, ◌⊎◌, [], ◌+◌, arith, if◌then◌else◌, refl}
use lorawan.Mac.Session.{
  AdrParam, DeviceModePayload, ForceRejoinReqPayload, RejoinParamSetupReqPayload, Version,
  marshal_adr_param, marshal_device_mode, marshal_force_rejoin_req, marshal_rejoin_param_setup_ans,
  marshal_rejoin_param_setup_req, marshal_version, unmarshal_adr_param, unmarshal_device_mode,
  unmarshal_force_rejoin_req, unmarshal_rejoin_param_setup_ans, unmarshal_rejoin_param_setup_req,
  unmarshal_version, RejoinParamSetupAnsPayload,
}
use lorawan.Prelude.Bytes.{IsByte, RoundTrips}
use lorawan.Prelude.Bits.Fields.{or_pack, low_nibble, high_nibble, high_three}
use lorawan.Prelude.Bits.{bit_and_mask, bit_and_field}

abbrev pub VersionInRange : Version → Type 0
VersionInRange v = v.minor ≤ 7

pub version_lem :
    (v : Version) → VersionInRange v → RoundTrips marshal_version unmarshal_version 1 v
unfolding marshal_version unmarshal_version
version_lem v h = (v.minor ∷ [], ground arith, refl, omega arith, refl)

abbrev pub AdrParamInRange : AdrParam → Type 0
AdrParamInRange p = (p.limit_exp ≤ 15) × (p.delay_exp ≤ 15)

pub adr_param_lem :
    (p : AdrParam) → AdrParamInRange p → RoundTrips marshal_adr_param unmarshal_adr_param 1 p
unfolding marshal_adr_param unmarshal_adr_param
adr_param_lem p h =
    let b = p.limit_exp * 16 + p.delay_exp in
    (
      b ∷ [],
      ground (arith, or_pack 4 p.delay_exp p.limit_exp),
      refl,
      omega arith,
      ground (arith, low_nibble b),
    )

abbrev pub ForceRejoinReqInRange : ForceRejoinReqPayload → Type 0
ForceRejoinReqInRange p =
    (p.period ≤ 7) × (p.max_retries ≤ 7) × ((p.rejoin_type ≡ 0) ⊎ (p.rejoin_type ≡ 2)) × (p.dr ≤ 15)

pub force_rejoin_req_lem :
    (p : ForceRejoinReqPayload)
    → ForceRejoinReqInRange p
    → RoundTrips marshal_force_rejoin_req unmarshal_force_rejoin_req 2 p
unfolding marshal_force_rejoin_req unmarshal_force_rejoin_req
force_rejoin_req_lem p h =
    let b0 = p.rejoin_type * 16 + p.dr in
    let b1 = p.period * 8 + p.max_retries in
    (
      b0 ∷ b1 ∷ [],
      ground (arith, or_pack 4 p.dr p.rejoin_type, or_pack 3 p.max_retries p.period),
      refl,
      ground arith,
      ground (arith, low_nibble b0, high_three b0, bit_and_mask 3 b1, bit_and_field 3 3 b1),
    )

abbrev pub RejoinParamSetupReqInRange : RejoinParamSetupReqPayload → Type 0
RejoinParamSetupReqInRange p = (p.max_time_n ≤ 15) × (p.max_count_n ≤ 15)

pub rejoin_param_setup_req_lem :
    (p : RejoinParamSetupReqPayload)
    → RejoinParamSetupReqInRange p
    → RoundTrips marshal_rejoin_param_setup_req unmarshal_rejoin_param_setup_req 1 p
unfolding marshal_rejoin_param_setup_req unmarshal_rejoin_param_setup_req
rejoin_param_setup_req_lem p h =
    let b = p.max_time_n * 16 + p.max_count_n in
    (
      b ∷ [],
      ground (arith, or_pack 4 p.max_count_n p.max_time_n),
      refl,
      omega arith,
      ground (arith, low_nibble b, high_nibble b),
    )

pub rejoin_param_setup_ans_lem :
    (p : RejoinParamSetupAnsPayload)
    → RoundTrips marshal_rejoin_param_setup_ans unmarshal_rejoin_param_setup_ans 1 p
unfolding marshal_rejoin_param_setup_ans unmarshal_rejoin_param_setup_ans
rejoin_param_setup_ans_lem p =
    ((if p.time_ok then 1 else 0) ∷ [], refl, refl, ground arith, ground arith)

abbrev pub DeviceModeInRange : DeviceModePayload → Type 0
DeviceModeInRange p = IsByte p.class

pub device_mode_lem :
    (p : DeviceModePayload)
    → DeviceModeInRange p
    → RoundTrips marshal_device_mode unmarshal_device_mode 1 p
unfolding marshal_device_mode unmarshal_device_mode
device_mode_lem p h = (p.class ∷ [], refl, refl, omega arith, refl)
