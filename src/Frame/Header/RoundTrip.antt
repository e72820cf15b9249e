-- ===== src/Frame/Header/RoundTrip.antt =====
-- FHDR of fhdr.go, written and read back.
use lorawan.Prelude.{
  [], ◌∷◌, List, if◌then◌else◌, length, ltb, ◌≡◌, ok, ◌%◌, ◌+◌, All, arith, ◌^◌, ◌≤◌, refl, slice,
  take, ◌++◌, length-append, slice_here, slice_skip, drop, drop-append_add, All-append,
}
use lorawan.Prelude.Bytes.{Bytes, IsArray, IsByte, put_uint32}
use lorawan.Frame.Header.{Fhdr, marshal_fhdr, unmarshal_fhdr}
use lorawan.Frame.Control.{received_ctrl, unmarshal_f_ctrl, f_ctrl_lem}
use lorawan.Frame.Element.{Payload, marshal_elements, data_payload}
use lorawan.Ident.RoundTrip.{dev_addr_lem}

-- The options as the receiver sees them: their bytes, undecoded.
abbrev pub received_elements : Bytes → List Payload
received_elements [] = []
received_elements (b ∷ bs) = data_payload (b ∷ bs) ∷ []

abbrev pub received_fhdr : Fhdr → Bytes → Fhdr
received_fhdr h opts = record {
  dev_addr = h.dev_addr;
  f_ctrl = received_ctrl (record h.f_ctrl { f_opts_len = length opts });
  f_cnt = h.f_cnt % 2 ^ 16;
  f_opts = received_elements opts;
}

-- A header whose options take the bytes `opts`.
abbrev pub FhdrInRange : Fhdr → Bytes → Type 0
FhdrInRange h opts =
    IsArray 4 h.dev_addr
    × (marshal_elements h.f_opts ≡ ok opts)
    × (length opts ≤ 15)
    × All IsByte opts

read_f_opts :
    (opts : Bytes)
    → (if ltb 7 (7 + length opts) then data_payload opts ∷ [] else []) ≡ received_elements opts
read_f_opts [] = refl
read_f_opts (b ∷ bs) = ground arith

-- A frame header with a 4-byte address and at most 15 bytes of FOpts has bytes, seven and those
-- of its FOpts; unmarshalling them gives the address, the counter modulo 2 ^ 16, the control
-- flags with FPending and ClassB both set when one is, the length of the FOpts, and the FOpts as
-- one DataPayload; its fifth byte alone gives the same control field.
pub fhdr_lem :
    (h : Fhdr) (opts : Bytes)
    → FhdrInRange h opts
    → (old : Fhdr) → old.f_opts ≡ []
    → (bs : Bytes) × (marshal_fhdr h ≡ ok bs)
      × (length bs ≡ 7 + length opts)
      × All IsByte bs
      × (unmarshal_fhdr old bs ≡ ok (received_fhdr h opts))
      × (unmarshal_f_ctrl (slice 4 5 bs) ≡ ok (received_fhdr h opts).f_ctrl)
unfolding marshal_fhdr unmarshal_fhdr
fhdr_lem h opts range old empty =
    let (b1, e1, l1, y1, u1) = (dev_addr_lem h.dev_addr range.0).0 in
    let (b2, e2, y2, u2) =
      f_ctrl_lem (record h.f_ctrl { f_opts_len = length opts }) (omega (arith, range.2)) in
    let b3 = take 2 (put_uint32 h.f_cnt) in
    let r2 = b3 ++ opts in
    let r1 = b2 ∷ r2 in
    let bs = b1 ++ r1 in
    let whole : length bs ≡ 7 + length opts = omega (arith, length-append b1 r1) in
    let small : length opts % 2 ^ 8 ≡ length opts = omega (arith, range.2) in
    let s1 : slice 0 4 bs ≡ b1 = slice_here 4 b1 r1 l1 in
    let s2 : slice 4 5 bs ≡ b2 ∷ [] = slice_skip 4 0 1 b1 r1 l1 in
    let s3 : slice 5 7 bs ≡ b3 = slice_skip 4 1 3 b1 r1 l1 in
    let s4 : drop 7 bs ≡ opts = drop-append_add 4 3 b1 r1 l1 in
    (
      bs,
      rw (range.1, small) (ground (arith, range.2, e1, e2)),
      whole,
      All-append IsByte b1 r1 y1 (y2, (omega arith, (omega arith, range.3))),
      rw (whole, s1, s2, s3, s4, u1, u2, empty, read_f_opts opts) (ground arith),
      rw (s2, u2) refl,
    )
