-- ===== src/Applayer/MulticastSetup/Group/RoundTrip.antt =====
-- The group payloads of applayer/multicastsetup/multicastsetup.go, written and read back.
use mathlib.Core.List.{append_assoc}
use lorawan.Prelude.{
  ℕ, suc, [], ◌∷◌, length, ◌<◌, List, arith, if◌then◌else◌, ◌≡◌, ◌≤◌, All, bit_and, refl, ◌++◌, ◌+◌,
  false, length-append, slice, ◌*◌, ◌>>=◌, ltb, ok, ◌∙◌, take-append, ◌==◌, drop-append, true,
  drop-append_add, bit_or,
}
use lorawan.Ident.RoundTrip.{dev_addr_lem}
use lorawan.Ident.{unmarshal_dev_addr}
use lorawan.Prelude.Bytes.{
  Bytes, ReadsBack, put_uint32, IsU32, IsArray, uint32-put_uint32, bytewise,
}
use lorawan.Prelude.Bits.{bit_or_fields_low, shl, bit_and_mask, shr}
use lorawan.Prelude.Bits.Fields.{low_two, bit_flag, or_pack, high_three}
use lorawan.Applayer.GroupMask.{
  group_mask_bits_lem, read_group_mask_lem, GroupMask, mask_value, group_mask_bits, read_group_mask,
}
use lorawan.Applayer.MulticastSetup.Group.{
  McGroupStatusReqPayload, McGroupSetupReqPayload, McGroupSetupAnsPayload, McGroupDeleteReqPayload,
  McGroupDeleteAnsPayload, marshal_status_req, unmarshal_status_req, marshal_setup_ans,
  unmarshal_setup_ans, marshal_delete_req, unmarshal_delete_req, marshal_delete_ans,
  unmarshal_delete_ans, McGroupStatusAnsPayload, StatusItem, count_masks, marshal_items,
  marshal_setup_req, marshal_status_ans, read_items, unmarshal_setup_req, unmarshal_status_ans,
  set_masks, status_ans_size,
}

pub status_req_lem :
    (p : McGroupStatusReqPayload)
    → length p.reg_group_mask ≡ 4
    → ReadsBack (marshal_status_req p) unmarshal_status_req 1 p
unfolding marshal_status_req unmarshal_status_req
status_req_lem p h =
    let (bits, small) = group_mask_bits_lem p.reg_group_mask h in
    (_, refl, refl, λ rest. ground (arith, bits, read_group_mask_lem p.reg_group_mask 0 h))

pub setup_ans_lem :
    (p : McGroupSetupAnsPayload)
    → p.mc_group_id < 4
    → ReadsBack (marshal_setup_ans p) unmarshal_setup_ans 1 p
unfolding marshal_setup_ans unmarshal_setup_ans
setup_ans_lem p h =
    let b = (if p.id_error then 4 else 0) + p.mc_group_id in
    (
      b ∷ [],
      ground (arith, low_two p.mc_group_id, bit_or_fields_low 2 1 p.mc_group_id),
      refl,
      λ rest. ground (arith, low_two b, bit_flag 2 b),
    )

pub delete_req_lem :
    (p : McGroupDeleteReqPayload)
    → p.mc_group_id < 4
    → ReadsBack (marshal_delete_req p) unmarshal_delete_req 1 p
unfolding marshal_delete_req unmarshal_delete_req
delete_req_lem p h = (
  p.mc_group_id ∷ [],
  ground (arith, low_two p.mc_group_id),
  refl,
  λ rest. ground (arith, low_two p.mc_group_id),
)

pub delete_ans_lem :
    (p : McGroupDeleteAnsPayload)
    → p.mc_group_id < 4
    → ReadsBack (marshal_delete_ans p) unmarshal_delete_ans 1 p
unfolding marshal_delete_ans unmarshal_delete_ans
delete_ans_lem p h =
    let b = (if p.mc_group_undefined then 4 else 0) + p.mc_group_id in
    (
      b ∷ [],
      ground (arith, low_two p.mc_group_id, bit_or_fields_low 2 1 p.mc_group_id),
      refl,
      λ rest. ground (arith, low_two b, bit_flag 2 b),
    )

abbrev pub SetupReqInRange : McGroupSetupReqPayload → Type 0
SetupReqInRange p =
    (p.mc_group_id < 4)
    × IsArray 4 p.mc_addr
    × IsArray 16 p.mc_key_encrypted
    × IsU32 p.min_mc_f_cnt
    × IsU32 p.max_mc_f_cnt

-- The slices of the message.
setup_slices :
    (id : ℕ) (addr key rest : Bytes) (lo hi : ℕ)
    → length addr ≡ 4
    → length key ≡ 16
    → (let bs = id ∷ (addr ++ (key ++ (put_uint32 lo ++ (put_uint32 hi ++ rest)))) in
        (slice 1 5 bs ≡ addr)
        × (slice 5 21 bs ≡ key)
        × (slice 21 25 bs ≡ put_uint32 lo)
        × (slice 25 29 bs ≡ put_uint32 hi)
        × (ltb (length bs) 29 ≡ false))
setup_slices id addr key rest lo hi h k =
    let tail = put_uint32 lo ++ (put_uint32 hi ++ rest) in
    (
      take-append 4 addr (key ++ tail) h,
      rw (drop-append 4 addr (key ++ tail) h) (take-append 16 key tail k),
      rw (drop-append_add 4 16 addr (key ++ tail) h) (rw (drop-append 16 key tail k) refl),
      rw (drop-append_add 4 20 addr (key ++ tail) h) (rw (drop-append_add 16 4 key tail k) refl),
      ground (arith, length-append addr (key ++ tail), length-append key tail),
    )

pub setup_req_lem :
    (p : McGroupSetupReqPayload)
    → SetupReqInRange p
    → ReadsBack (marshal_setup_req p) unmarshal_setup_req 29 p
unfolding marshal_setup_req unmarshal_setup_req
setup_req_lem p (h, a, k, lo, hi) =
    let ((addr, written, len, _, read), _, _) = dev_addr_lem p.mc_addr a in
    let key = p.mc_key_encrypted in
    let lows = put_uint32 p.min_mc_f_cnt in
    let highs = put_uint32 p.max_mc_f_cnt in
    let id : bit_and p.mc_group_id 3 ≡ p.mc_group_id = ground (arith, low_two p.mc_group_id) in
    (
      p.mc_group_id ∷ (addr ++ (key ++ (lows ++ highs))),
      rw (written, id) refl,
      ground (
        arith,
        length-append addr (key ++ (lows ++ highs)),
        length-append key (lows ++ highs),
        k.0,
        len,
      ),
      λ rest.
          let (s1, s2, s3, s4, size) =
            setup_slices p.mc_group_id addr key rest p.min_mc_f_cnt p.max_mc_f_cnt len k.0 in
          rw append_assoc (
            rw append_assoc (
              rw
                (
                  size,
                  s1,
                  s2,
                  s3,
                  s4,
                  read,
                  id,
                  uint32-put_uint32 p.min_mc_f_cnt lo,
                  uint32-put_uint32 p.max_mc_f_cnt hi,
                )
                refl)),
    )

abbrev pub ItemInRange : StatusItem → Type 0
ItemInRange i = (i.mc_group_id < 4) × IsArray 4 i.mc_addr

-- As many items as the mask has bits.
abbrev pub StatusAnsInRange : McGroupStatusAnsPayload → Type 0
StatusAnsInRange p =
    (p.nb_total_groups < 8)
    × (length p.ans_group_mask ≡ 4)
    × All ItemInRange p.items
    × (count_masks p.ans_group_mask ≡ length p.items)

read_item :
    (n x : ℕ) (addr rest : Bytes)
    → length addr ≡ 4
    → read_items (suc n) (x ∷ (addr ++ rest)) ≡ (
        unmarshal_dev_addr addr >>= λ a.
        read_items n rest >>= λ is. ok (record { mc_group_id = bit_and x 0x03; mc_addr = a } ∷ is))
unfolding read_items
read_item n x addr rest h =
    bytewise 4
      (λ addr. read_items (suc n) (x ∷ (addr ++ rest)) ≡ (
        unmarshal_dev_addr addr >>= λ a.
        read_items n rest >>= λ is. ok (record { mc_group_id = bit_and x 0x03; mc_addr = a } ∷ is)))
      (λ a b c d. refl) addr h

items_lem :
    (is : List StatusItem)
    → All ItemInRange is
    → ReadsBack (marshal_items is) (read_items (length is)) (5 * length is) is
unfolding marshal_items read_items
items_lem [] h = ([], refl, refl, λ rest. refl)
items_lem (i ∷ is) h =
    let ((addr, written, len, _, read), _, _) = dev_addr_lem i.mc_addr h.0.1 in
    let (bs, eq, size, back) = items_lem is h.1 in
    let id : bit_and i.mc_group_id 3 ≡ i.mc_group_id =
      ground (arith, low_two i.mc_group_id, h.0.0) in
    (
      i.mc_group_id ∷ (addr ++ bs),
      rw (written, eq, id) refl,
      ground (arith, length-append addr bs),
      λ rest. rw append_assoc (
          read_item (length is) i.mc_group_id addr (bs ++ rest) len
          ∙ rw (read, back rest, id) refl),
    )

set_masks_zero :
    (m : GroupMask) → length m ≡ 4 → set_masks (false ∷ false ∷ false ∷ false ∷ []) m ≡ m
set_masks_zero (a ∷ b ∷ c ∷ d ∷ []) h = ground arith
set_masks_zero [] h = absurd (omega arith)
set_masks_zero (a ∷ []) h = absurd (omega arith)
set_masks_zero (a ∷ b ∷ []) h = absurd (omega arith)
set_masks_zero (a ∷ b ∷ c ∷ []) h = absurd (omega arith)
set_masks_zero (a ∷ b ∷ c ∷ d ∷ e ∷ m) h = absurd (omega arith)

count_bound : (m : GroupMask) → count_masks m ≤ length m
unfolding count_masks
count_bound [] = omega arith
count_bound (m ∷ ms) = ground (arith, count_bound ms)

pub status_ans_lem :
    (p z : McGroupStatusAnsPayload)
    → StatusAnsInRange p
    → z.items ≡ []
    → z.ans_group_mask ≡ false ∷ false ∷ false ∷ false ∷ []
    → ReadsBack (marshal_status_ans p) (unmarshal_status_ans z) (status_ans_size p.ans_group_mask) p
unfolding marshal_status_ans unmarshal_status_ans status_ans_size
status_ans_lem p z (h, four, all, count) none clear =
    let mask = p.ans_group_mask in
    let (bs, written, len, back) = items_lem p.items all in
    let (bits, small) = group_mask_bits_lem mask four in
    let few : ltb 4 (length p.items) ≡ false = ground (arith, count_bound mask) in
    let same : (count_masks mask == length p.items) ≡ true = ground (arith, count) in
    let v = p.nb_total_groups * 16 + mask_value mask in
    let first : bit_or (group_mask_bits 0 0 mask) (shl 8 (bit_and p.nb_total_groups 0x07) 4) ≡ v =
      ground (
        arith,
        bits,
        bit_and_mask 3 p.nb_total_groups,
        or_pack 4 (mask_value mask) p.nb_total_groups,
      ) in
    let total : shr (bit_and v 0x70) 4 ≡ p.nb_total_groups = ground (arith, high_three v) in
    let bits_back : read_group_mask v ≡ mask = read_group_mask_lem mask p.nb_total_groups four in
    (
      v ∷ bs,
      rw (few, same, written, first) refl,
      ground (arith, len),
      λ rest.
          let enough : ltb (length (v ∷ (bs ++ rest))) (1 + 5 * count_masks mask) ≡ false =
            ground (arith, length-append bs rest) in
          rw (clear, none, bits_back, set_masks_zero mask four, enough, total, count, back rest)
            refl,
    )
