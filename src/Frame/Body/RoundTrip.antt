-- ===== src/Frame/Body/RoundTrip.antt =====
-- MACPayload of macpayload.go, written and read back.
use lorawan.Prelude.{
  ℕ, [], ◌∷◌, Option, List, some, false, none, ◌≡◌, ok, All, length, ◌&&◌, ltb, true, ◌+◌, arith,
  inl, sym, ◌⊎◌, inr, ok_injective, refl, ◌++◌, ◌≢◌, length-append, slice, take, take-append, drop,
  drop-append, All-append, slice_front,
}
use lorawan.Frame.Body.{
  MacPayload, marshal_mac_payload, marshal_port_and_payload, read_port, unmarshal_mac_payload,
  read_frm_payload, is_port_zero, marshal_frm_payload, is_empty, zero_mac_payload,
}
use lorawan.Frame.Element.{marshal_elements, Payload}
use lorawan.Prelude.Bytes.{Bytes, IsByte}
use lorawan.Frame.Header.RoundTrip.{FhdrInRange, received_fhdr, received_elements, fhdr_lem}

-- FOpts and FRMPayload take the bytes `opts` and `frm`, and the FPort agrees with both: none goes
-- without a FRMPayload, and 0 without FOpts.
abbrev pub PortInRange : MacPayload → Bytes → Option ℕ → Type 0
PortInRange p frm none = (p.frm_payload ≡ []) × (frm ≡ [])
PortInRange p frm (some port) =
    IsByte port
    × (marshal_frm_payload (some port) p.frm_payload ≡ ok frm)
    × All IsByte frm
    × ((is_empty p.fhdr.f_opts ≡ true) ⊎ (port ≢ 0))

abbrev pub received_mac_payload : MacPayload → Bytes → Bytes → MacPayload
received_mac_payload p opts frm = record {
  fhdr = received_fhdr p.fhdr opts;
  f_port = p.f_port;
  frm_payload = received_elements frm;
}

abbrev pub port_size : Option ℕ → ℕ
port_size none = 0
port_size (some port) = 1

-- The bytes after the header, and what is read from them.
tail_lem :
    (p : MacPayload) (frm : Bytes) (port : Option ℕ)
    → PortInRange p frm port
    → (bs : Bytes) × (marshal_port_and_payload p port ≡ ok bs)
      × (length bs ≡ port_size port + length frm)
      × All IsByte bs
      × (read_port none bs ≡ port)
      × (read_frm_payload [] bs ≡ received_elements frm)
unfolding marshal_port_and_payload read_port read_frm_payload
tail_lem p frm none h = ([], rw h.0 refl, rw h.1 refl, tt, refl, rw h.1 refl)
tail_lem p [] (some port) h = (port ∷ [], ground (arith, h.1, h.3), refl, (h.0, tt), refl, refl)
tail_lem p (b ∷ bs) (some port) h =
    (port ∷ b ∷ bs, ground (arith, h.1, h.3), omega arith, (h.0, h.2), refl, refl)

is_empty-elements :
    (ps : List Payload) (opts : Bytes)
    → marshal_elements ps ≡ ok opts
    → is_empty ps ≡ true
    → opts ≡ []
unfolding marshal_elements
is_empty-elements [] opts h e = sym (ok_injective h)
is_empty-elements (p ∷ ps) opts h e = cc

-- The receiver's test of the port passes.
port_test :
    (p : MacPayload) (opts frm : Bytes) (port : Option ℕ)
    → FhdrInRange p.fhdr opts
    → PortInRange p frm port
    → is_port_zero port && ltb 0 (length opts) ≡ false
port_test p opts frm none h k = refl
port_test p opts frm (some port) h k = elim k.3 [
  | inl e ↦ rw (is_empty-elements p.fhdr.f_opts opts h.1 e) (ground arith)
  | inr other ↦ ground arith
]

-- A frame payload with a header in range and an FPort that agrees with FOpts and FRMPayload has
-- bytes, seven and those of its FOpts, FPort and FRMPayload; unmarshalling them gives the header
-- as the receiver sees it, the same FPort, and the FRMPayload as one DataPayload of its bytes.
pub mac_payload_lem :
    (p : MacPayload) (opts frm : Bytes)
    → FhdrInRange p.fhdr opts
    → PortInRange p frm p.f_port
    → (bs : Bytes) × (marshal_mac_payload p ≡ ok bs)
      × (length bs ≡ 7 + length opts + port_size p.f_port + length frm)
      × All IsByte bs
      × (unmarshal_mac_payload zero_mac_payload bs ≡ ok (received_mac_payload p opts frm))
unfolding marshal_mac_payload unmarshal_mac_payload
mac_payload_lem p opts frm h k =
    let n = length opts in
    let (b1, e1, l1, y1, u1, c1) =
      fhdr_lem p.fhdr opts h
        (record zero_mac_payload.fhdr { f_ctrl = (received_fhdr p.fhdr opts).f_ctrl }) refl in
    let (b2, e2, l2, y2, port, read) = tail_lem p frm p.f_port k in
    let bs = b1 ++ b2 in
    let whole : length bs ≡ 7 + n + length b2 = omega (arith, length-append b1 b2) in
    let s1 : slice 4 5 bs ≡ slice 4 5 b1 =
      slice_front 4 5 b1 b2 (omega arith) (omega (arith, l1)) in
    let s2 : take (7 + n) bs ≡ b1 = take-append (7 + n) b1 b2 l1 in
    let test = port_test p opts frm p.f_port h k in
    let s3 : drop (7 + n) bs ≡ b2 = drop-append (7 + n) b1 b2 l1 in
    (
      bs,
      rw (e1, e2) refl,
      omega (arith, whole, l2),
      All-append IsByte b1 b2 y1 y2,
      rw (s1, c1, s2, u1, s3, port, read, whole) (ground (arith, test)),
    )
