-- ===== src/Frame/Header.antt =====
-- FHDR, the frame header of fhdr.go.
pub mod RoundTrip
pub mod Length
use lorawan.Prelude.{
  ℕ, List, [], ◌∷◌, ◌++◌, Result, ◌>>=◌, ◌>>◌, fail_if, length, ltb, bytes_at_least, ◌%◌, ◌^◌,
  message, slice, ok, take, if◌then◌else◌, drop,
}
use lorawan.Ident.{DevAddr, unmarshal_dev_addr, marshal_dev_addr}
use lorawan.Prelude.Bytes.{Bytes, uint32, put_uint32}
use lorawan.Frame.Control.{FCtrl, unmarshal_f_ctrl, marshal_f_ctrl}
use lorawan.Frame.Element.{Payload, marshal_elements, data_payload}

pub record Fhdr : Type 0 where
  pub dev_addr : DevAddr
  pub f_ctrl : FCtrl
  pub f_cnt : ℕ
  pub f_opts : List Payload

-- `uint8(len(opts))`: the length is cut to a byte before it is compared.
unfoldable pub marshal_fhdr : Fhdr → Result Bytes
marshal_fhdr h = do
  opts ← marshal_elements h.f_opts
  let n = length opts % 2 ^ 8
  fail_if (ltb 15 n) (message "max number of FOpts bytes is 15")
  a ← marshal_dev_addr h.dev_addr
  c ← marshal_f_ctrl (record h.f_ctrl { f_opts_len = n })
  ok (a ++ (c ++ (take 2 (put_uint32 h.f_cnt) ++ opts)))

-- The FOpts of the receiver stay when there are no bytes for them.
unfoldable pub unmarshal_fhdr : Fhdr → Bytes → Result Fhdr
unmarshal_fhdr h bs = do
  fail_if (ltb (length bs) 7) (bytes_at_least 7)
  a ← unmarshal_dev_addr (slice 0 4 bs)
  c ← unmarshal_f_ctrl (slice 4 5 bs)
  ok (record {
    dev_addr = a;
    f_ctrl = c;
    f_cnt = uint32 (slice 5 7 bs ++ (0 ∷ 0 ∷ []));
    f_opts = if ltb 7 (length bs) then data_payload (drop 7 bs) ∷ [] else h.f_opts;
  })
