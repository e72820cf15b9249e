-- ===== src/Join/Accept/RoundTrip.antt =====
-- The join-accept of payload.go, written and read back.
use lorawan.Prelude.{
  ℕ, [], ◌∷◌, Option, ◌<◌, none, ◌^◌, ◌≡◌, inl, ok, ◌+◌, length, some, ◌≤◌, ◌⊎◌, All, inr, ◌++◌,
  refl, arith, drop, length-append, slice, slice_here, slice_skip, ◌∙◌, get_or, get_or-append_add,
  drop-append_add, All-append, not, ◌==◌, ◌&&◌, false,
}
use lorawan.Join.Accept.{
  JoinAcceptPayload, marshal_join_accept, marshal_optional_cf_list, unmarshal_join_accept,
  unmarshal_optional_cf_list,
}
use lorawan.Join.CfList.{CfList, marshal_cf_list, unmarshal_cf_list}
use lorawan.Join.CfList.Masks.{PayloadCarried, carried_cf_list}
use lorawan.Prelude.Bytes.{Bytes, RoundTrips, IsArray, IsByte}
use lorawan.Mac.Settings.RoundTrip.{DlSettingsInRange, dl_settings_lem}
use lorawan.Ident.RoundTrip.{join_nonce_lem, net_id_lem, dev_addr_lem}

-- The fields of a join-accept but its CFList.
abbrev pub JoinAcceptInRange : JoinAcceptPayload → Type 0
JoinAcceptInRange p =
    (p.join_nonce < 2 ^ 24)
    × IsArray 3 p.home_net_id
    × IsArray 4 p.dev_addr
    × DlSettingsInRange p.dl_settings
    × (p.rx_delay ≤ 15)

-- What a CFList adds to the twelve bytes.
abbrev pub cf_list_size : Option CfList → ℕ
cf_list_size none = 0
cf_list_size (some l) = 16

pub cf_list_size_cases : (c : Option CfList) → (cf_list_size c ≡ 0) ⊎ (cf_list_size c ≡ 16)
cf_list_size_cases none = inl refl
cf_list_size_cases (some l) = inr refl

-- The optional CFList as a tail of the bytes: none of it, or all of it after twelve bytes.
abbrev pub TailRoundTrips : Option CfList → Type 0
TailRoundTrips c =
    (bs : Bytes) × (marshal_optional_cf_list c ≡ ok bs)
    × (length bs ≡ cf_list_size c)
    × All IsByte bs
    × ((whole : Bytes)
        → drop 12 whole ≡ bs
        → unmarshal_optional_cf_list none (12 + length bs) whole ≡ ok c)

no_tail : TailRoundTrips none
unfolding marshal_optional_cf_list unmarshal_optional_cf_list
no_tail = ([], refl, refl, tt, λ whole h. refl)

cf_list_tail :
    (l : CfList) → RoundTrips marshal_cf_list unmarshal_cf_list 16 l → TailRoundTrips (some l)
unfolding marshal_optional_cf_list unmarshal_optional_cf_list
cf_list_tail l (bs, e, len, bytes, back) = (bs, e, len, bytes, λ whole h. rw (len, h, back) refl)

join_accept_tail :
    (p : JoinAcceptPayload)
    → JoinAcceptInRange p
    → (tail : TailRoundTrips p.cf_list) → (old : JoinAcceptPayload) → old.cf_list ≡ none
    → RoundTrips marshal_join_accept (unmarshal_join_accept old) (12 + cf_list_size p.cf_list) p
unfolding marshal_join_accept unmarshal_join_accept
join_accept_tail p h tail old empty =
    let (b1, e1, l1, y1, u1) = join_nonce_lem p.join_nonce h.0 in
    let (b2, e2, l2, y2, u2) = (net_id_lem p.home_net_id h.1).0 in
    let (b3, e3, l3, y3, u3) = (dev_addr_lem p.dev_addr h.2).0 in
    let (b4, e4, l4, y4, u4) = dl_settings_lem p.dl_settings h.3 in
    let (b5, e5, l5, y5, u5) = tail in
    let r4 = p.rx_delay ∷ b5 in
    let r3 = b4 ++ r4 in
    let r2 = b3 ++ r3 in
    let r1 = b2 ++ r2 in
    let bs = b1 ++ r1 in
    let whole : length bs ≡ 12 + length b5 =
      omega (
        arith,
        length-append b1 r1,
        length-append b2 r2,
        length-append b3 r3,
        length-append b4 r4,
      ) in
    let s1 : slice 0 3 bs ≡ b1 = slice_here 3 b1 r1 l1 in
    let s2 : slice 3 6 bs ≡ b2 = slice_skip 3 0 3 b1 r1 l1 ∙ slice_here 3 b2 r2 l2 in
    let s3 : slice 6 10 bs ≡ b3 =
      slice_skip 3 3 7 b1 r1 l1 ∙ slice_skip 3 0 4 b2 r2 l2 ∙ slice_here 4 b3 r3 l3 in
    let s4 : slice 10 11 bs ≡ b4 =
      slice_skip 3 7 8 b1 r1 l1
      ∙ slice_skip 3 4 5 b2 r2 l2
      ∙ slice_skip 4 0 1 b3 r3 l3
      ∙ slice_here 1 b4 r4 l4 in
    let delay : get_or bs 11 0 ≡ p.rx_delay =
      get_or-append_add 3 8 b1 r1 0 l1
      ∙ get_or-append_add 3 5 b2 r2 0 l2
      ∙ get_or-append_add 4 1 b3 r3 0 l3
      ∙ get_or-append_add 1 0 b4 r4 0 l4 in
    let rest : drop 12 bs ≡ b5 =
      drop-append_add 3 9 b1 r1 l1
      ∙ drop-append_add 3 6 b2 r2 l2
      ∙ drop-append_add 4 2 b3 r3 l3
      ∙ drop-append_add 1 1 b4 r4 l4 in
    let size : not (12 + length b5 == 12) && not (12 + length b5 == 28) ≡ false =
      ground (arith, l5, cf_list_size_cases p.cf_list) in
    (
      bs,
      ground (arith, e1, e2, e3, e4, e5),
      omega (arith, whole, l5),
      All-append IsByte b1 r1 y1 (
          All-append IsByte b2 r2 y2
            (All-append IsByte b3 r3 y3 (All-append IsByte b4 r4 y4 (omega arith, y5)))),
      rw (whole, size, s1, s2, s3, s4, u1, u2, u3, u4, delay, empty, u5 bs rest),
    )

-- No CFList, or one that can be carried.
abbrev pub CfListCarried : Option CfList → Type 0
CfListCarried none = Unit {0}
CfListCarried (some l) = PayloadCarried l.payload l.cf_list_type

optional_tail : (c : Option CfList) → CfListCarried c → TailRoundTrips c
optional_tail none k = no_tail
optional_tail (some l) k = cf_list_tail l (carried_cf_list l.payload l.cf_list_type k)

-- A join-accept in range with no CFList, one of five frequencies that are multiples of 100 Hz and
-- fit 24 bits, under a type byte other than 1, or one of at most six masks of sixteen channels
-- under the type 1, of which the last has a channel, takes 12 or 28 bytes, which a receiver with
-- no CFList decodes to the same join-accept.
pub join_accept_lem :
    (p : JoinAcceptPayload)
    → JoinAcceptInRange p
    → CfListCarried p.cf_list
    → (old : JoinAcceptPayload) → old.cf_list ≡ none
    → RoundTrips marshal_join_accept (unmarshal_join_accept old) (12 + cf_list_size p.cf_list) p
join_accept_lem p h k old empty = join_accept_tail p h (optional_tail p.cf_list k) old empty
