-- ===== src/Applayer/MulticastSetup/Group.antt =====
-- The payloads of applayer/multicastsetup/multicastsetup.go that set up groups. A struct inside that
-- holds one field is written as the field.
pub mod RoundTrip
use lorawan.Prelude.{
  ℕ, zero, suc, [], ◌∷◌, Bool, List, Result, if◌then◌else◌, ◌+◌, bit_and, err, ok, true, ◌*◌, ◌>>=◌,
  ◌>>◌, bit_or, bytes_at_least, bytes_expected, fail_if, not, ◌++◌, ltb, ◌==◌, length, message,
  slice, get_or,
}
use lorawan.Prelude.Bytes.{Bytes, put_uint32, uint32}
use lorawan.Prelude.Bits.{shl, shr}
use lorawan.Ident.{DevAddr, marshal_dev_addr, unmarshal_dev_addr}
use lorawan.Applayer.GroupMask.{GroupMask, group_mask_bits, read_group_mask}

pub record PackageVersionAnsPayload : Type 0 where
  pub package_identifier : ℕ
  pub package_version : ℕ

unfoldable pub marshal_package_version_ans : PackageVersionAnsPayload → Result Bytes
marshal_package_version_ans p = ok (p.package_identifier ∷ p.package_version ∷ [])

-- Further bytes are left alone, here and below.
unfoldable pub unmarshal_package_version_ans : Bytes → Result PackageVersionAnsPayload
unmarshal_package_version_ans (a ∷ b ∷ _) =
    ok (record { package_identifier = a; package_version = b })
unmarshal_package_version_ans _ = err (bytes_expected 2)

pub record McGroupStatusReqPayload : Type 0 where
  pub reg_group_mask : GroupMask

unfoldable pub marshal_status_req : McGroupStatusReqPayload → Result Bytes
marshal_status_req p = ok (group_mask_bits 0 0 p.reg_group_mask ∷ [])

unfoldable pub unmarshal_status_req : Bytes → Result McGroupStatusReqPayload
unmarshal_status_req (b ∷ _) = ok (record { reg_group_mask = read_group_mask b })
unmarshal_status_req [] = err (bytes_expected 1)

pub record StatusItem : Type 0 where
  pub mc_group_id : ℕ
  pub mc_addr : DevAddr

pub record McGroupStatusAnsPayload : Type 0 where
  pub nb_total_groups : ℕ
  pub ans_group_mask : GroupMask
  pub items : List StatusItem

-- The loop that counts the masks.
unfoldable pub count_masks : GroupMask → ℕ
count_masks [] = 0
count_masks (m ∷ ms) = (if m then 1 else 0) + count_masks ms

unfoldable pub status_ans_size : GroupMask → ℕ
status_ans_size mask = 1 + 5 * count_masks mask

-- The items that are still to be written.
unfoldable pub marshal_items : List StatusItem → Result Bytes
marshal_items [] = ok []
marshal_items (i ∷ is) = do
  bb ← marshal_dev_addr i.mc_addr
  rest ← marshal_items is
  ok (bit_and i.mc_group_id 0x03 ∷ (bb ++ rest))

unfoldable pub marshal_status_ans : McGroupStatusAnsPayload → Result Bytes
marshal_status_ans p = do
  fail_if (ltb 4 (length p.items)) (message "max number of items is 4")
  fail_if (not (count_masks p.ans_group_mask == length p.items))
      (message "number of items does not match AnsGroupMatch")
  rest ← marshal_items p.items
  ok (
      bit_or (group_mask_bits 0 0 p.ans_group_mask) (shl 8 (bit_and p.nb_total_groups 0x07) 4)
      ∷ rest)

-- The loop over the items. There are enough bytes, since the size has been tested.
unfoldable pub read_items : ℕ → Bytes → Result (List StatusItem)
read_items zero bs = ok []
read_items (suc n) (a ∷ b ∷ c ∷ d ∷ e ∷ bs) = do
  addr ← unmarshal_dev_addr (b ∷ c ∷ d ∷ e ∷ [])
  rest ← read_items n bs
  ok (record { mc_group_id = bit_and a 0x03; mc_addr = addr } ∷ rest)
read_items (suc n) _ = err (bytes_at_least 1)

-- Masks of the receiver are set and never cleared.
abbrev pub set_masks : GroupMask → GroupMask → GroupMask
set_masks (m ∷ ms) (n ∷ ns) = (if n then true else m) ∷ set_masks ms ns
set_masks ms ns = ms

unfoldable pub unmarshal_status_ans :
    McGroupStatusAnsPayload → Bytes → Result McGroupStatusAnsPayload
unmarshal_status_ans p [] = err (bytes_at_least 1)
unmarshal_status_ans p (b ∷ bs) =
    let mask = set_masks p.ans_group_mask (read_group_mask b) in
    do
      fail_if (ltb (length (b ∷ bs)) (status_ans_size mask)) (bytes_expected (status_ans_size mask))
      items ← read_items (count_masks (read_group_mask b)) bs
      ok (record {
        nb_total_groups = shr (bit_and b 0x70) 4;
        ans_group_mask = mask;
        items = p.items ++ items;
      })

pub record McGroupSetupReqPayload : Type 0 where
  pub mc_group_id : ℕ
  pub mc_addr : DevAddr
  pub mc_key_encrypted : Bytes
  pub min_mc_f_cnt : ℕ
  pub max_mc_f_cnt : ℕ

unfoldable pub marshal_setup_req : McGroupSetupReqPayload → Result Bytes
marshal_setup_req p = do
  bb ← marshal_dev_addr p.mc_addr
  ok (
      bit_and p.mc_group_id 0x03
      ∷ (bb ++ (p.mc_key_encrypted ++ (put_uint32 p.min_mc_f_cnt ++ put_uint32 p.max_mc_f_cnt))))

unfoldable pub unmarshal_setup_req : Bytes → Result McGroupSetupReqPayload
unmarshal_setup_req bs = do
  fail_if (ltb (length bs) 29) (bytes_expected 29)
  addr ← unmarshal_dev_addr (slice 1 5 bs)
  ok (record {
    mc_group_id = bit_and (get_or bs 0 0) 0x03;
    mc_addr = addr;
    mc_key_encrypted = slice 5 21 bs;
    min_mc_f_cnt = uint32 (slice 21 25 bs);
    max_mc_f_cnt = uint32 (slice 25 29 bs);
  })

pub record McGroupSetupAnsPayload : Type 0 where
  pub id_error : Bool
  pub mc_group_id : ℕ

unfoldable pub marshal_setup_ans : McGroupSetupAnsPayload → Result Bytes
marshal_setup_ans p =
    let b = bit_and p.mc_group_id 0x03 in ok ((if p.id_error then bit_or b 0x04 else b) ∷ [])

unfoldable pub unmarshal_setup_ans : Bytes → Result McGroupSetupAnsPayload
unmarshal_setup_ans (b ∷ _) =
    ok (record { id_error = not (bit_and b 0x04 == 0); mc_group_id = bit_and b 0x03 })
unmarshal_setup_ans [] = err (bytes_expected 1)

pub record McGroupDeleteReqPayload : Type 0 where
  pub mc_group_id : ℕ

unfoldable pub marshal_delete_req : McGroupDeleteReqPayload → Result Bytes
marshal_delete_req p = ok (bit_and p.mc_group_id 0x03 ∷ [])

unfoldable pub unmarshal_delete_req : Bytes → Result McGroupDeleteReqPayload
unmarshal_delete_req (b ∷ _) = ok (record { mc_group_id = bit_and b 0x03 })
unmarshal_delete_req [] = err (bytes_expected 1)

pub record McGroupDeleteAnsPayload : Type 0 where
  pub mc_group_undefined : Bool
  pub mc_group_id : ℕ

unfoldable pub marshal_delete_ans : McGroupDeleteAnsPayload → Result Bytes
marshal_delete_ans p =
    let b = bit_and p.mc_group_id 0x03 in
    ok ((if p.mc_group_undefined then bit_or b 0x04 else b) ∷ [])

unfoldable pub unmarshal_delete_ans : Bytes → Result McGroupDeleteAnsPayload
unmarshal_delete_ans (b ∷ _) =
    ok (record { mc_group_undefined = not (bit_and b 0x04 == 0); mc_group_id = bit_and b 0x03 })
unmarshal_delete_ans [] = err (bytes_expected 1)
