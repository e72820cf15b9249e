-- ===== src/Applayer/MulticastSetup/Session/RoundTrip.antt =====
-- The session payloads of applayer/multicastsetup/multicastsetup.go, written and read back.
use lorawan.Prelude.{
  ℕ, [], ◌∷◌, none, some, true, false, Bool, bit_and, ◌%◌, ◌+◌, ◌<◌, ◌≡◌, Option, arith,
  if◌then◌else◌, ◌*◌, ◌==◌, bit_or, ok, ◌^◌, length, refl, ◌++◌, ap, take,
}
use lorawan.Prelude.Bytes.{ReadsBack, Bytes, put_uint32, IsByte, IsU32, uint32-put_uint32}
use lorawan.Prelude.Bits.{shl, shr, bit_and_mask, bit_or_fields_low}
use lorawan.Prelude.Bits.Fields.{low_two, low_three_of_17, low_nibble, or_pack, bit_flag}
use lorawan.Mac.Settings.RoundTrip.{FrequencyInRange}
use lorawan.Applayer.MulticastSetup.Session.{
  McClassCSessionReqPayload, McClassBSessionReqPayload, McSessionAnsPayload, StatusAndMcGroupId,
  session_bytes, session_ans_bytes, status_byte, read_status, read_session_ans, has_error,
  session_ans_size, marshal_class_c_session_req, unmarshal_class_c_session_req,
  marshal_class_b_session_req, unmarshal_class_b_session_req, marshal_class_c_session_ans,
  unmarshal_class_c_session_ans, marshal_class_b_session_ans, unmarshal_class_b_session_ans,
}

abbrev pub ClassCInRange : McClassCSessionReqPayload → Type 0
ClassCInRange p =
    (p.mc_group_id < 4)
    × IsU32 p.session_time
    × (p.time_out < 16)
    × FrequencyInRange p.dl_frequency
    × IsByte p.dr

pub class_c_session_req_lem :
    (p : McClassCSessionReqPayload)
    → ClassCInRange p
    → ReadsBack (marshal_class_c_session_req p) unmarshal_class_c_session_req 10 p
unfolding marshal_class_c_session_req unmarshal_class_c_session_req
class_c_session_req_lem p h =
    let whole : (p.dl_frequency % 100 == 0) ≡ true = ground (arith, h) in
    (
      session_bytes p.mc_group_id p.session_time (bit_and p.time_out 0x0f) p.dl_frequency p.dr,
      rw whole refl,
      refl,
      λ rest. ground (
        arith,
        low_two p.mc_group_id,
        low_two (p.mc_group_id % 4),
        low_nibble p.time_out,
        low_nibble (p.time_out % 16),
        uint32-put_uint32 p.session_time,
      ),
    )

abbrev pub ClassBInRange : McClassBSessionReqPayload → Type 0
ClassBInRange p =
    (p.mc_group_id < 4)
    × IsU32 p.session_time
    × (p.periodicity < 8)
    × (p.time_out < 16)
    × FrequencyInRange p.dl_frequency
    × IsByte p.dr

low_five : (n : ℕ) → bit_and n 0x1f ≡ n % 32
low_five n = bit_and_mask 5 n

-- A class B session request in range takes 10 bytes and is read from them, whatever follows, with
-- every field but the time-out unchanged, and 16 added to the time-out where the periodicity is
-- odd.
pub class_b_session_req_lem :
    (p : McClassBSessionReqPayload)
    → ClassBInRange p
    → ReadsBack
        (marshal_class_b_session_req p)
        unmarshal_class_b_session_req
        10
        (record p { time_out = p.time_out + 16 * (p.periodicity % 2) })
unfolding marshal_class_b_session_req unmarshal_class_b_session_req
class_b_session_req_lem p h =
    let b5 = p.periodicity * 16 + p.time_out in
    let whole : (p.dl_frequency % 100 == 0) ≡ true = ground (arith, h) in
    let packed : bit_or (bit_and p.time_out 0x1f) (shl 8 (bit_and p.periodicity 0x17) 4) ≡ b5 =
      ground (
        arith,
        low_five p.time_out,
        low_three_of_17 p.periodicity,
        or_pack 4 p.time_out p.periodicity,
      ) in
    (
      session_bytes p.mc_group_id p.session_time b5 p.dl_frequency p.dr,
      rw (whole, packed) refl,
      refl,
      λ rest. ground (
        arith,
        low_two p.mc_group_id,
        low_two (p.mc_group_id % 4),
        low_five b5,
        low_three_of_17 (shr b5 4),
        uint32-put_uint32 p.session_time,
      ),
    )

-- A status is told by its byte.
status_value : StatusAndMcGroupId → ℕ
status_value s =
    s.mc_group_id
    + (if s.dr_error then 4 else 0)
    + (if s.freq_error then 8 else 0)
    + (if s.mc_group_undefined then 16 else 0)

status_byte_lem : (s : StatusAndMcGroupId) → s.mc_group_id < 4 → status_byte s ≡ status_value s
unfolding status_byte status_value
status_byte_lem s h =
    let i = s.mc_group_id in
    ground (
      arith,
      low_two i,
      bit_or_fields_low 2 1 i,
      bit_or_fields_low 3 1 i,
      bit_or_fields_low 3 1 (4 + i),
      bit_or_fields_low 4 1 i,
      bit_or_fields_low 4 1 (4 + i),
      bit_or_fields_low 4 1 (8 + i),
      bit_or_fields_low 4 1 (8 + (4 + i)),
    )

read_status_lem : (s : StatusAndMcGroupId) → s.mc_group_id < 4 → read_status (status_value s) ≡ s
unfolding read_status status_value
read_status_lem s h =
    let v =
      s.mc_group_id
      + (if s.dr_error then 4 else 0)
      + (if s.freq_error then 8 else 0)
      + (if s.mc_group_undefined then 16 else 0) in
    ground (arith, low_two v, bit_flag 2 v, bit_flag 3 v, bit_flag 4 v)

-- The time fits 24 bits, and is there where the status is no error.
abbrev pub TimeInRange : Bool → Option ℕ → Type 0
TimeInRange true none = Unit {0}
TimeInRange true (some t) = ⊥
TimeInRange false none = ⊥
TimeInRange false (some t) = t < 2 ^ 24

abbrev pub AnsInRange : McSessionAnsPayload → Type 0
AnsInRange p =
    (p.status_and_mc_group_id.mc_group_id < 4)
    × TimeInRange (has_error p.status_and_mc_group_id) p.time_to_start

session_ans_back :
    (s : StatusAndMcGroupId) (error : Bool) (t : Option ℕ) (z : McSessionAnsPayload)
    → TimeInRange error t
    → z.time_to_start ≡ none
    → (bs : Bytes) × (session_ans_bytes s error t ≡ ok (status_byte s ∷ bs))
      × (length bs ≡ (if error then 0 else 3))
      × ((rest : Bytes)
          → read_session_ans z s error (bs ++ rest)
            ≡ ok (record { status_and_mc_group_id = s; time_to_start = t }))
session_ans_back s true none z h k = (
  [],
  refl,
  refl,
  λ rest. ap (λ (t : Option ℕ). ok (record { status_and_mc_group_id = s; time_to_start = t })) k,
)
session_ans_back s true (some t) z h k = absurd h
session_ans_back s false none z h k = absurd h
session_ans_back s false (some t) z h k = (take 3 (put_uint32 t), refl, refl, λ rest. ground arith)

pub class_c_session_ans_lem :
    (p z : McSessionAnsPayload)
    → AnsInRange p
    → z.time_to_start ≡ none
    → ReadsBack
        (marshal_class_c_session_ans p)
        (unmarshal_class_c_session_ans z)
        (session_ans_size p)
        p
unfolding marshal_class_c_session_ans unmarshal_class_c_session_ans session_ans_size
class_c_session_ans_lem p z h k =
    let s = p.status_and_mc_group_id in
    let (bs, e, len, back) = session_ans_back s (has_error s) p.time_to_start z h.1 k in
    let same : read_status (status_byte s) ≡ s =
      rw (status_byte_lem s h.0) (read_status_lem s h.0) in
    (status_byte s ∷ bs, e, ground (arith, len), λ rest. rw same (back rest))

pub class_b_session_ans_lem :
    (p z : McSessionAnsPayload)
    → AnsInRange p
    → z.time_to_start ≡ none
    → ReadsBack
        (marshal_class_b_session_ans p)
        (unmarshal_class_b_session_ans z)
        (session_ans_size p)
        p
unfolding marshal_class_b_session_ans unmarshal_class_b_session_ans marshal_class_c_session_ans
    unmarshal_class_c_session_ans class_c_session_ans_lem
class_b_session_ans_lem p z h k = class_c_session_ans_lem p z h k
