-- ===== src/Applayer/Fragmentation/RoundTrip.antt =====
-- The commands of applayer/fragmentation/fragmentation.go, written and read back.
use lorawan.Prelude.{
  ℕ, [], ◌∷◌, some, Bool, bit_and, false, if◌then◌else◌, ◌<◌, length, true, ◌+◌, ◌^◌, ◌≡◌, ◌%◌, ◌*◌,
  arith, refl, List, ok, ◌++◌, ◌/◌, All, ap,
}
use lorawan.Prelude.Bytes.{Bytes, put_uint16, uint16, IsByte, IsU16, IsArray, uint16-put_uint16}
use lorawan.Prelude.Bits.{shl, shr, bit_and_mask, bit_or_fields_low}
use lorawan.Prelude.Bits.Fields.{low_two, or_pack, bit_flag}
use lorawan.Applayer.GroupMask.{group_mask_bits_lem, read_group_mask_lem, mask_value}
use lorawan.Applayer.Command.{Command}
use lorawan.Applayer.Command.RoundTrip.{
  Delimited, AtEnd, CommandInRange, commands_back, All-Carried, followed-AllCarried,
  unmarshal-marshal_commands,
}
use lorawan.Applayer.Fragmentation.{
  or_second, Payload, FragSessionSetupReqPayload, DataFragmentPayload, codec, package_version_ans,
  setup_req, setup_ans, delete_req, delete_ans, data_fragment, status_req, status_ans,
  marshal_package_version_ans, unmarshal_package_version_ans, marshal_setup_req,
  unmarshal_setup_req, marshal_setup_ans, unmarshal_setup_ans, marshal_delete_req,
  unmarshal_delete_req, marshal_delete_ans, unmarshal_delete_ans, marshal_data_fragment,
  unmarshal_data_fragment, marshal_status_req, unmarshal_status_req, marshal_status_ans,
  unmarshal_status_ans, marshal_payload, unmarshal_payload, payload_size, get_command_payload,
  marshal_commands, unmarshal_commands,
}

-- The direction and the identifier of a payload.
abbrev pub is_uplink : Payload → Bool
is_uplink (package_version_ans p) = true
is_uplink (setup_req p) = false
is_uplink (setup_ans p) = true
is_uplink (delete_req p) = false
is_uplink (delete_ans p) = true
is_uplink (data_fragment p) = false
is_uplink (status_req p) = false
is_uplink (status_ans p) = true

abbrev pub cid_of : Payload → ℕ
cid_of (package_version_ans p) = 0
cid_of (setup_req p) = 2
cid_of (setup_ans p) = 2
cid_of (delete_req p) = 3
cid_of (delete_ans p) = 3
cid_of (data_fragment p) = 8
cid_of (status_req p) = 1
cid_of (status_ans p) = 1

abbrev pub SetupReqInRange : FragSessionSetupReqPayload → Type 0
SetupReqInRange p =
    (p.frag_session.frag_index < 4)
    × (length p.frag_session.mc_group_bit_mask ≡ 4)
    × IsU16 p.nb_frag
    × IsByte p.frag_size
    × (p.control.fragmentation_matrix < 8)
    × (p.control.block_ack_delay < 8)
    × IsByte p.padding
    × IsArray 4 p.descriptor

-- The fields fit the bits that they are given. A data fragment is not delimited.
abbrev pub InRange : Payload → Type 0
InRange (package_version_ans p) = IsByte p.package_identifier × IsByte p.package_version
InRange (setup_req p) = SetupReqInRange p
InRange (setup_ans p) = p.frag_index < 4
InRange (delete_req p) = p.frag_index < 4
InRange (delete_ans p) = p.frag_index < 4
InRange (data_fragment p) = ⊥
InRange (status_req p) = p.frag_index < 4
InRange (status_ans p) = (p.frag_index < 4) × (p.nb_frag_received < 2 ^ 14) × IsByte p.missing_frag

low_three : (n : ℕ) → bit_and n 0x07 ≡ n % 8
low_three n = bit_and_mask 3 n

low_fourteen : (n : ℕ) → bit_and n 0x3fff ≡ n % 16384
low_fourteen n = bit_and_mask 14 n

-- The two bytes that hold a number of fourteen bits and an index of two.
packed_word : ℕ → ℕ → Bytes
packed_word n index = (n % 256) ∷ (index * 64 + n / 256) ∷ []

pack_word :
    (n index : ℕ)
    → n < 2 ^ 14
    → index < 4
    → or_second (put_uint16 (bit_and n 0x3fff)) (shl 8 (bit_and index 0x03) 6) ≡ packed_word n index
unfolding packed_word
pack_word n index h k =
    ground (arith, low_fourteen n, low_two index, bit_or_fields_low 6 index (n / 256))

unpack_word : (n index : ℕ) → n < 2 ^ 14 → bit_and (uint16 (packed_word n index)) 0x3fff ≡ n
unfolding packed_word
unpack_word n index h =
    ground (arith, low_fourteen (uint16 ((n % 256) ∷ (index * 64 + n / 256) ∷ [])))

-- The bytes of the two fields that share a byte with another.
session_byte : FragSessionSetupReqPayload → ℕ
session_byte p = p.frag_session.frag_index * 16 + mask_value p.frag_session.mc_group_bit_mask

control_byte : FragSessionSetupReqPayload → ℕ
control_byte p = p.control.fragmentation_matrix * 8 + p.control.block_ack_delay

setup_req-read :
    (p : FragSessionSetupReqPayload) (d rest : Bytes)
    → SetupReqInRange p
    → length d ≡ 4
    → unmarshal_setup_req (
        (session_byte p ∷ put_uint16 p.nb_frag)
        ++ (p.frag_size ∷ control_byte p ∷ p.padding ∷ d)
        ++ rest)
      ≡ ok (record p { descriptor = d })
unfolding unmarshal_setup_req session_byte control_byte
setup_req-read p (a ∷ b ∷ c ∷ d ∷ []) rest h l =
    let mask = p.frag_session.mc_group_bit_mask in
    let index = p.frag_session.frag_index in
    let v = index * 16 + mask_value mask in
    let w = p.control.fragmentation_matrix * 8 + p.control.block_ack_delay in
    let small = (group_mask_bits_lem mask h.1).1 in
    let delay : bit_and w 0x07 ≡ p.control.block_ack_delay = omega (arith, low_three w, h.5) in
    let matrix : bit_and (shr w 3) 0x07 ≡ p.control.fragmentation_matrix =
      omega (arith, low_three (shr w 3), h.4, h.5) in
    let session : bit_and (shr v 4) 0x03 ≡ index = omega (arith, low_two (shr v 4), h.0, small) in
    let count : uint16 (put_uint16 p.nb_frag) ≡ p.nb_frag = uint16-put_uint16 p.nb_frag h.2 in
    rw (read_group_mask_lem mask index h.1, session, delay, matrix)
      (ap (λ (k : ℕ). ok (record p { nb_frag = k; descriptor = a ∷ b ∷ c ∷ d ∷ [] })) count)
setup_req-read p [] rest h l = absurd (omega arith)
setup_req-read p (a ∷ []) rest h l = absurd (omega arith)
setup_req-read p (a ∷ b ∷ []) rest h l = absurd (omega arith)
setup_req-read p (a ∷ b ∷ c ∷ []) rest h l = absurd (omega arith)
setup_req-read p (a ∷ b ∷ c ∷ d ∷ e ∷ ds) rest h l = absurd (omega arith)

setup_req-write :
    (p : FragSessionSetupReqPayload)
    → SetupReqInRange p
    → marshal_setup_req p
      ≡ ok (
          (session_byte p ∷ put_uint16 p.nb_frag)
          ++ (p.frag_size ∷ control_byte p ∷ p.padding ∷ p.descriptor))
unfolding marshal_setup_req session_byte control_byte
setup_req-write p h =
    let (bits, small) = group_mask_bits_lem p.frag_session.mc_group_bit_mask h.1 in
    ground (
      arith,
      bits,
      small,
      low_two p.frag_session.frag_index,
      low_three p.control.block_ack_delay,
      low_three p.control.fragmentation_matrix,
      or_pack 4 (mask_value p.frag_session.mc_group_bit_mask) p.frag_session.frag_index,
      or_pack 3 p.control.block_ack_delay p.control.fragmentation_matrix,
    )

setup_req-Delimited :
    (p : FragSessionSetupReqPayload) → SetupReqInRange p → Delimited codec false 2 (setup_req p)
unfolding codec marshal_payload unmarshal_payload payload_size get_command_payload
setup_req-Delimited p h = (
  _,
  refl,
  _,
  setup_req-write p h,
  omega (arith, h.7.0),
  λ rest. rw (setup_req-read p p.descriptor rest h h.7.0) refl,
)

pub InRange-Delimited : (p : Payload) → InRange p → Delimited codec (is_uplink p) (cid_of p) p
unfolding codec marshal_payload unmarshal_payload payload_size get_command_payload
    marshal_package_version_ans unmarshal_package_version_ans marshal_setup_ans unmarshal_setup_ans
    marshal_delete_req unmarshal_delete_req marshal_delete_ans unmarshal_delete_ans
    marshal_status_req unmarshal_status_req marshal_status_ans unmarshal_status_ans packed_word
InRange-Delimited (package_version_ans p) h = (_, refl, _, refl, refl, λ rest. refl)
InRange-Delimited (setup_req p) h = setup_req-Delimited p h
InRange-Delimited (setup_ans p) h =
    let low =
      (if p.encoding_unsupported then 1 else 0)
      + (if p.not_enough_memory then 2 else 0)
      + (if p.frag_session_index_not_supported then 4 else 0)
      + (if p.wrong_descriptor then 8 else 0) in
    let b = p.frag_index * 64 + low in
    (
      _,
      refl,
      b ∷ [],
      ground (arith, low_two p.frag_index, bit_or_fields_low 6 p.frag_index low),
      refl,
      λ rest.
          ground (arith, low_two (shr b 6), bit_flag 0 b, bit_flag 1 b, bit_flag 2 b, bit_flag 3 b),
    )
InRange-Delimited (delete_req p) h = (
  _,
  refl,
  p.frag_index ∷ [],
  ground (arith, low_two p.frag_index),
  refl,
  λ rest. ground (arith, low_two p.frag_index),
)
InRange-Delimited (delete_ans p) h =
    let b = (if p.session_does_not_exist then 4 else 0) + p.frag_index in
    (
      _,
      refl,
      b ∷ [],
      ground (arith, low_two p.frag_index, bit_or_fields_low 2 1 p.frag_index),
      refl,
      λ rest. ground (arith, low_two b, bit_flag 2 b),
    )
InRange-Delimited (data_fragment p) h = absurd h
InRange-Delimited (status_req p) h =
    let low = if p.participants then 1 else 0 in
    let b = p.frag_index * 2 + low in
    (
      _,
      refl,
      b ∷ [],
      ground (arith, low_two p.frag_index, bit_or_fields_low 1 p.frag_index low),
      refl,
      λ rest. ground (arith, low_two (shr b 1), bit_flag 0 b),
    )
InRange-Delimited (status_ans p) h =
    let d = if p.not_enough_matrix_memory then 1 else 0 in
    (
      _,
      refl,
      packed_word p.nb_frag_received p.frag_index ++ (p.missing_frag ∷ d ∷ []),
      ap (λ (w : Bytes). ok (w ++ (p.missing_frag ∷ d ∷ [])))
          (pack_word p.nb_frag_received p.frag_index h.1 h.0),
      refl,
      λ rest. ground (arith, unpack_word p.nb_frag_received p.frag_index),
    )

data_fragment-AtEnd :
    (p : DataFragmentPayload)
    → p.frag_index < 4
    → p.n < 2 ^ 14
    → AtEnd codec false 8 (data_fragment p)
unfolding codec marshal_payload unmarshal_payload payload_size get_command_payload
    marshal_data_fragment unmarshal_data_fragment packed_word
data_fragment-AtEnd p h k = (
  _,
  refl,
  packed_word p.n p.frag_index ++ p.payload,
  ap (λ (w : Bytes). ok (w ++ p.payload)) (pack_word p.n p.frag_index k h),
  ground arith,
  ground (arith, unpack_word p.n p.frag_index),
)

-- A sequence of fragmentation commands of one direction without data fragments, each with its
-- identifier's payload in range or an identifier that has no payload, has bytes, which decode to
-- the same sequence.
pub fragmentation_commands_lem :
    (uplink : Bool) (cs : List (Command Payload))
    → All
        (λ (c : Command Payload).
          CommandInRange codec InRange is_uplink cid_of uplink c.cid c.payload)
        cs
    → (bs : Bytes) × (marshal_commands cs ≡ ok bs) × (unmarshal_commands uplink bs ≡ ok cs)
unfolding marshal_commands unmarshal_commands
fragmentation_commands_lem uplink cs h =
    commands_back codec InRange is_uplink cid_of InRange-Delimited uplink cs h

-- A sequence of downlink fragmentation commands in range without data fragments, followed by one
-- data fragment with an index below 4, a number below 2 ^ 14 and any payload bytes, has bytes,
-- which decode to the same sequence: the payload takes all that remains.
pub data_fragment_last :
    (cs : List (Command Payload)) (p : DataFragmentPayload)
    → All
        (λ (c : Command Payload).
          CommandInRange codec InRange is_uplink cid_of false c.cid c.payload)
        cs
    → p.frag_index < 4
    → p.n < 2 ^ 14
    → (bs : Bytes) × (marshal_commands
          (cs ++ (record { cid = 8; payload = some (data_fragment p) } ∷ []))
        ≡ ok bs)
      × (unmarshal_commands false bs
          ≡ ok (cs ++ (record { cid = 8; payload = some (data_fragment p) } ∷ [])))
unfolding marshal_commands unmarshal_commands
data_fragment_last cs p h index n =
    unmarshal-marshal_commands codec false
      (cs ++ (record { cid = 8; payload = some (data_fragment p) } ∷ []))
      (followed-AllCarried codec false cs (record { cid = 8; payload = some (data_fragment p) })
        (All-Carried codec InRange is_uplink cid_of InRange-Delimited false cs h)
        (data_fragment-AtEnd p index n))
