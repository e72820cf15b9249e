-- ===== src/Applayer/MulticastSetup/Session.antt =====
-- The payloads of applayer/multicastsetup/multicastsetup.go that start class-B and class-C sessions.
-- A struct inside that holds one field is written as the field.
pub mod RoundTrip
use lorawan.Prelude.{
  ℕ, [], ◌∷◌, none, some, Bool, Option, Result, bit_and, if◌then◌else◌, not, bit_or, err, ok, ◌++◌,
  ◌==◌, ◌>>◌, ◌||◌, bytes_at_least, bytes_expected, fail_if, message, take, ◌*◌, true, ◌%◌, ◌/◌,
  false, multiple_of, ◌^◌,
}
use lorawan.Prelude.Bytes.{Bytes, put_uint32, uint32}
use lorawan.Prelude.Bits.{shl, shr}

pub record McClassCSessionReqPayload : Type 0 where
  pub mc_group_id : ℕ
  pub session_time : ℕ
  pub time_out : ℕ
  pub dl_frequency : ℕ
  pub dr : ℕ

-- The bytes around the one that holds the time-out.
abbrev pub session_bytes : ℕ → ℕ → ℕ → ℕ → ℕ → Bytes
session_bytes id session_time b5 frequency dr =
    bit_and id 0x03
    ∷ (put_uint32 session_time ++ (b5 ∷ (take 3 (put_uint32 (frequency / 100)) ++ (dr ∷ []))))

-- The frequency is cut to 24 bits without an error.
unfoldable pub marshal_class_c_session_req : McClassCSessionReqPayload → Result Bytes
marshal_class_c_session_req p = do
  fail_if (not (p.dl_frequency % 100 == 0)) (multiple_of "DLFrequency" 100)
  ok (session_bytes p.mc_group_id p.session_time (bit_and p.time_out 0x0f) p.dl_frequency p.dr)

unfoldable pub unmarshal_class_c_session_req : Bytes → Result McClassCSessionReqPayload
unmarshal_class_c_session_req (b0 ∷ b1 ∷ b2 ∷ b3 ∷ b4 ∷ b5 ∷ b6 ∷ b7 ∷ b8 ∷ b9 ∷ _) = ok (record {
  mc_group_id = bit_and b0 0x03;
  session_time = uint32 (b1 ∷ b2 ∷ b3 ∷ b4 ∷ []);
  time_out = bit_and b5 0x0f;
  dl_frequency = uint32 (b6 ∷ b7 ∷ b8 ∷ 0 ∷ []) * 100 % 2 ^ 32;
  dr = b9;
})
unmarshal_class_c_session_req _ = err (bytes_expected 10)

pub record McClassBSessionReqPayload : Type 0 where
  pub mc_group_id : ℕ
  pub session_time : ℕ
  pub periodicity : ℕ
  pub time_out : ℕ
  pub dl_frequency : ℕ
  pub dr : ℕ

unfoldable pub marshal_class_b_session_req : McClassBSessionReqPayload → Result Bytes
marshal_class_b_session_req p = do
  let b5 = bit_or (bit_and p.time_out 0x1f) (shl 8 (bit_and p.periodicity 0x17) 4)
  fail_if (not (p.dl_frequency % 100 == 0)) (multiple_of "DLFrequency" 100)
  ok (session_bytes p.mc_group_id p.session_time b5 p.dl_frequency p.dr)

unfoldable pub unmarshal_class_b_session_req : Bytes → Result McClassBSessionReqPayload
unmarshal_class_b_session_req (b0 ∷ b1 ∷ b2 ∷ b3 ∷ b4 ∷ b5 ∷ b6 ∷ b7 ∷ b8 ∷ b9 ∷ _) = ok (record {
  mc_group_id = bit_and b0 0x03;
  session_time = uint32 (b1 ∷ b2 ∷ b3 ∷ b4 ∷ []);
  periodicity = bit_and (shr b5 4) 0x17;
  time_out = bit_and b5 0x1f;
  dl_frequency = uint32 (b6 ∷ b7 ∷ b8 ∷ 0 ∷ []) * 100 % 2 ^ 32;
  dr = b9;
})
unmarshal_class_b_session_req _ = err (bytes_expected 10)

pub record StatusAndMcGroupId : Type 0 where
  pub mc_group_undefined : Bool
  pub freq_error : Bool
  pub dr_error : Bool
  pub mc_group_id : ℕ

unfoldable pub has_error : StatusAndMcGroupId → Bool
has_error s = s.mc_group_undefined || s.freq_error || s.dr_error

-- The answers of the two classes have the same fields and methods.
pub record McSessionAnsPayload : Type 0 where
  pub status_and_mc_group_id : StatusAndMcGroupId
  pub time_to_start : Option ℕ

unfoldable pub session_ans_size : McSessionAnsPayload → ℕ
session_ans_size p = if has_error p.status_and_mc_group_id then 1 else 4

unfoldable pub status_byte : StatusAndMcGroupId → ℕ
status_byte s =
    let b0 = bit_and s.mc_group_id 0x03 in
    let b1 = if s.dr_error then bit_or b0 0x04 else b0 in
    let b2 = if s.freq_error then bit_or b1 0x08 else b1 in
    if s.mc_group_undefined then bit_or b2 0x10 else b2

-- The time is there exactly where there is no error.
abbrev pub session_ans_bytes : StatusAndMcGroupId → Bool → Option ℕ → Result Bytes
session_ans_bytes s true (some t) = err (message "TimeToStart must be nil")
session_ans_bytes s true none = ok (status_byte s ∷ [])
session_ans_bytes s false none = err (message "TimeToStart must not be nil")
session_ans_bytes s false (some t) = ok (status_byte s ∷ take 3 (put_uint32 t))

unfoldable pub marshal_class_c_session_ans : McSessionAnsPayload → Result Bytes
marshal_class_c_session_ans p =
    session_ans_bytes p.status_and_mc_group_id (has_error p.status_and_mc_group_id) p.time_to_start

unfoldable pub read_status : ℕ → StatusAndMcGroupId
read_status b = record {
  mc_group_undefined = not (bit_and b 0x10 == 0);
  freq_error = not (bit_and b 0x08 == 0);
  dr_error = not (bit_and b 0x04 == 0);
  mc_group_id = bit_and b 0x03;
}

-- The bytes behind the status, where it is no error. The time of the receiver stays with an error.
abbrev pub read_session_ans :
    McSessionAnsPayload → StatusAndMcGroupId → Bool → Bytes → Result McSessionAnsPayload
read_session_ans p s true bs = ok (record p { status_and_mc_group_id = s })
read_session_ans p s false (a ∷ b ∷ c ∷ _) =
    ok (record { status_and_mc_group_id = s; time_to_start = some (uint32 (a ∷ b ∷ c ∷ 0 ∷ [])) })
read_session_ans p s false _ = err (bytes_expected 4)

unfoldable pub unmarshal_class_c_session_ans :
    McSessionAnsPayload → Bytes → Result McSessionAnsPayload
unmarshal_class_c_session_ans p [] = err (bytes_at_least 1)
unmarshal_class_c_session_ans p (b ∷ bs) =
    read_session_ans p (read_status b) (has_error (read_status b)) bs

unfoldable pub marshal_class_b_session_ans : McSessionAnsPayload → Result Bytes
marshal_class_b_session_ans p =
    session_ans_bytes p.status_and_mc_group_id (has_error p.status_and_mc_group_id) p.time_to_start

unfoldable pub unmarshal_class_b_session_ans :
    McSessionAnsPayload → Bytes → Result McSessionAnsPayload
unmarshal_class_b_session_ans p [] = err (bytes_at_least 1)
unmarshal_class_b_session_ans p (b ∷ bs) =
    read_session_ans p (read_status b) (has_error (read_status b)) bs
