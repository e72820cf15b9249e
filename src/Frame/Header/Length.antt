-- ===== src/Frame/Header/Length.antt =====
-- The length of the options in FHDR (fhdr.go).
use lorawan.Prelude.{
  ◌∷◌, ◌≡◌, ok, length, ◌+◌, ◌↔◌, ◌%◌, ◌^◌, ◌≤◌, Bool-cases, ltb, inl, inr, arith, false, take,
  ◌++◌, length-append, refl,
}
use lorawan.Frame.Header.{marshal_fhdr, Fhdr}
use lorawan.Prelude.Bytes.{Bytes, IsArray, put_uint32}
use lorawan.Frame.Element.{marshal_elements}
use lorawan.Ident.RoundTrip.{dev_addr_lem}
use lorawan.Frame.Control.{f_ctrl_lem}

-- A frame header with a 4-byte address whose FOpts have bytes is written, as seven and those
-- bytes, exactly when the number of the FOpts bytes modulo 256 is at most 15.
pub marshal_fhdr_iff :
    (h : Fhdr) (opts : Bytes)
    → IsArray 4 h.dev_addr
    → marshal_elements h.f_opts ≡ ok opts
    → ((bs : Bytes) × (marshal_fhdr h ≡ ok bs) × (length bs ≡ 7 + length opts))
      ↔ (length opts % 2 ^ 8 ≤ 15)
unfolding marshal_fhdr
marshal_fhdr_iff h opts a e = (
  λ (bs, written, len). elim (Bool-cases (ltb 15 (length opts % 2 ^ 8))) [
    | inl long ↦ cc (rw (e, long) at written)
    | inr fits ↦ ground (arith, fits)
  ],
  λ fits.
      let (b1, e1, l1, y1, u1) = (dev_addr_lem h.dev_addr a).0 in
      let (b2, e2, y2, u2) =
        f_ctrl_lem (record h.f_ctrl { f_opts_len = length opts % 2 ^ 8 }) fits in
      let short : ltb 15 (length opts % 2 ^ 8) ≡ false = ground arith in
      let r1 = b2 ∷ (take 2 (put_uint32 h.f_cnt) ++ opts) in
      (b1 ++ r1, rw (e, short, e1, e2) refl, omega (arith, length-append b1 r1, l1)),
)
