-- ===== src/Applayer/MulticastSetup/RoundTrip.antt =====
-- The commands of applayer/multicastsetup/multicastsetup.go, written and read back.
use lorawan.Prelude.{
  ℕ, Bool, true, false, length, ◌%◌, List, Result, ◌≡◌, All, ◌+◌, ◌<◌, some, ◌*◌, arith, ok, ◌>>=◌,
  ◌∙◌, sym, ◌++◌, refl,
}
use lorawan.Applayer.MulticastSetup.{
  Payload, package_version_ans, status_req, status_ans, setup_req, setup_ans, delete_req,
  delete_ans, class_c_session_req, class_c_session_ans, class_b_session_req, class_b_session_ans,
  codec, marshal_commands, marshal_payload, unmarshal_commands, unmarshal_payload,
  get_command_payload, payload_size, zero_status_ans, zero_session_ans,
}
use lorawan.Applayer.MulticastSetup.Group.RoundTrip.{
  status_req_lem, status_ans_lem, setup_req_lem, setup_ans_lem, delete_req_lem, delete_ans_lem,
  StatusAnsInRange, SetupReqInRange,
}
use lorawan.Applayer.MulticastSetup.Session.RoundTrip.{
  ClassCInRange, ClassBInRange, AnsInRange, class_c_session_req_lem, class_b_session_req_lem,
  class_c_session_ans_lem, class_b_session_ans_lem,
}
use lorawan.Applayer.MulticastSetup.Group.{
  marshal_package_version_ans, unmarshal_package_version_ans, unmarshal_status_req,
  unmarshal_status_ans, unmarshal_setup_req, unmarshal_setup_ans, unmarshal_delete_req,
  unmarshal_delete_ans,
}
use lorawan.Applayer.Command.{Command}
use lorawan.Prelude.Bytes.{IsByte, Bytes, ReadsBack}
use lorawan.Applayer.MulticastSetup.Session.{
  McClassBSessionReqPayload, unmarshal_class_c_session_req, unmarshal_class_c_session_ans,
  unmarshal_class_b_session_req, unmarshal_class_b_session_ans,
}
use lorawan.Applayer.Command.RoundTrip.{CommandInRange, Delimited, commands_back}

-- The direction and the identifier of a payload.
abbrev pub is_uplink : Payload → Bool
is_uplink (package_version_ans p) = true
is_uplink (status_req p) = false
is_uplink (status_ans p) = true
is_uplink (setup_req p) = false
is_uplink (setup_ans p) = true
is_uplink (delete_req p) = false
is_uplink (delete_ans p) = true
is_uplink (class_c_session_req p) = false
is_uplink (class_c_session_ans p) = true
is_uplink (class_b_session_req p) = false
is_uplink (class_b_session_ans p) = true

abbrev pub cid_of : Payload → ℕ
cid_of (package_version_ans p) = 0
cid_of (status_req p) = 1
cid_of (status_ans p) = 1
cid_of (setup_req p) = 2
cid_of (setup_ans p) = 2
cid_of (delete_req p) = 3
cid_of (delete_ans p) = 3
cid_of (class_c_session_req p) = 4
cid_of (class_c_session_ans p) = 4
cid_of (class_b_session_req p) = 5
cid_of (class_b_session_ans p) = 5

-- The fields fit the bits that they are given, and a periodicity is even.
abbrev pub InRange : Payload → Type 0
InRange (package_version_ans p) = IsByte p.package_identifier × IsByte p.package_version
InRange (status_req p) = length p.reg_group_mask ≡ 4
InRange (status_ans p) = StatusAnsInRange p
InRange (setup_req p) = SetupReqInRange p
InRange (setup_ans p) = p.mc_group_id < 4
InRange (delete_req p) = p.mc_group_id < 4
InRange (delete_ans p) = p.mc_group_id < 4
InRange (class_c_session_req p) = ClassCInRange p
InRange (class_c_session_ans p) = AnsInRange p
InRange (class_b_session_req p) = ClassBInRange p × (p.periodicity % 2 ≡ 0)
InRange (class_b_session_ans p) = AnsInRange p

-- A payload that is read back by its own decoder is delimited.
delimited :
    {A : Type 0} (wrap : A → Payload) (read : Bytes → Result A) (uplink : Bool) (cid n : ℕ)
    (z : Payload) (written : Result Bytes) (a : A)
    → get_command_payload uplink cid ≡ some z
    → marshal_payload (wrap a) ≡ written
    → payload_size (wrap a) ≡ n
    → ((bs : Bytes) → unmarshal_payload z bs ≡ (read bs >>= λ r. ok (wrap r)))
    → ReadsBack written read n a
    → Delimited codec uplink cid (wrap a)
unfolding codec
delimited wrap read uplink cid n z written a g m s u (bs, w, len, back) =
    (z, g, bs, m ∙ w, len ∙ sym s, λ rest. u (bs ++ rest) ∙ rw (back rest) refl)

even_time :
    (p : McClassBSessionReqPayload)
    → p.periodicity % 2 ≡ 0
    → record p { time_out = p.time_out + 16 * (p.periodicity % 2) } ≡ p
even_time p h = ground (arith, h)

pub InRange-Delimited : (p : Payload) → InRange p → Delimited codec (is_uplink p) (cid_of p) p
unfolding codec marshal_payload unmarshal_payload payload_size get_command_payload
    marshal_package_version_ans unmarshal_package_version_ans
InRange-Delimited (package_version_ans p) h = (_, refl, _, refl, refl, λ rest. refl)
InRange-Delimited (status_req p) h =
    delimited status_req unmarshal_status_req false 1 1 _ _ p refl refl refl (λ bs. refl)
      (status_req_lem p h)
InRange-Delimited (status_ans p) h =
    delimited status_ans (unmarshal_status_ans zero_status_ans) true 1 _ _ _ p refl refl refl
      (λ bs. refl) (status_ans_lem p zero_status_ans h refl refl)
InRange-Delimited (setup_req p) h =
    delimited setup_req unmarshal_setup_req false 2 29 _ _ p refl refl refl (λ bs. refl)
      (setup_req_lem p h)
InRange-Delimited (setup_ans p) h =
    delimited setup_ans unmarshal_setup_ans true 2 1 _ _ p refl refl refl (λ bs. refl)
      (setup_ans_lem p h)
InRange-Delimited (delete_req p) h =
    delimited delete_req unmarshal_delete_req false 3 1 _ _ p refl refl refl (λ bs. refl)
      (delete_req_lem p h)
InRange-Delimited (delete_ans p) h =
    delimited delete_ans unmarshal_delete_ans true 3 1 _ _ p refl refl refl (λ bs. refl)
      (delete_ans_lem p h)
InRange-Delimited (class_c_session_req p) h =
    delimited class_c_session_req unmarshal_class_c_session_req false 4 10 _ _ p refl refl refl
      (λ bs. refl) (class_c_session_req_lem p h)
InRange-Delimited (class_c_session_ans p) h =
    delimited class_c_session_ans (unmarshal_class_c_session_ans zero_session_ans) true 4 _ _ _ p
      refl refl refl (λ bs. refl) (class_c_session_ans_lem p zero_session_ans h refl)
InRange-Delimited (class_b_session_req p) h =
    delimited class_b_session_req unmarshal_class_b_session_req false 5 10 _ _ p refl refl refl
      (λ bs. refl) (rw (even_time p h.1) at (class_b_session_req_lem p h.0))
InRange-Delimited (class_b_session_ans p) h =
    delimited class_b_session_ans (unmarshal_class_b_session_ans zero_session_ans) true 5 _ _ _ p
      refl refl refl (λ bs. refl) (class_b_session_ans_lem p zero_session_ans h refl)

-- A sequence of multicast-setup commands of one direction, each with its identifier's payload in
-- range (a class B periodicity being even) or an identifier that has no payload, has bytes, which
-- decode to the same sequence.
pub multicast_commands_lem :
    (uplink : Bool) (cs : List (Command Payload))
    → All
        (λ (c : Command Payload).
          CommandInRange codec InRange is_uplink cid_of uplink c.cid c.payload)
        cs
    → (bs : Bytes) × (marshal_commands cs ≡ ok bs) × (unmarshal_commands uplink bs ≡ ok cs)
unfolding marshal_commands unmarshal_commands
multicast_commands_lem uplink cs h =
    commands_back codec InRange is_uplink cid_of InRange-Delimited uplink cs h
