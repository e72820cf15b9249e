-- ===== src/Frame/Body.antt =====
-- MACPayload, the payload of a data frame (macpayload.go).
pub mod RoundTrip
use lorawan.Prelude.{
  ℕ, Bool, List, [], ◌∷◌, ◌++◌, Option, Result, true, false, ok, some, ◌>>=◌, ◌>>◌, fail_if, not,
  ◌==◌, ltb, message, none, length, ◌&&◌, bytes_at_least, slice, ◌+◌, take, drop, replicate,
}
use lorawan.Frame.Element.{Payload, data_payload, mac_command, marshal_element}
use lorawan.Prelude.Bytes.{Bytes}
use lorawan.Frame.Header.{Fhdr, marshal_fhdr, unmarshal_fhdr}
use lorawan.Frame.Control.{unmarshal_f_ctrl}

pub record MacPayload : Type 0 where
  pub fhdr : Fhdr
  pub f_port : Option ℕ
  pub frm_payload : List Payload

-- The zero value that `UnmarshalBinary` is called on.
abbrev pub zero_mac_payload : MacPayload
zero_mac_payload = record {
  fhdr = record {
    dev_addr = replicate 4 0;
    f_ctrl = record {
      adr = false;
      adr_ack_req = false;
      ack = false;
      f_pending = false;
      class_b = false;
      f_opts_len = 0;
    };
    f_cnt = 0;
    f_opts = [];
  };
  f_port = none;
  frm_payload = [];
}

-- `p.FPort == nil || *p.FPort != 0`, for a MAC command
unfoldable pub is_refused : Option ℕ → Payload → Bool
is_refused none (mac_command m) = true
is_refused (some port) (mac_command m) = not (port == 0)
is_refused port _ = false

unfoldable pub marshal_frm_payload : Option ℕ → List Payload → Result Bytes
marshal_frm_payload port [] = ok []
marshal_frm_payload port (p ∷ ps) = do
  fail_if (is_refused port p) (message "a MAC command is only allowed when FPort=0")
  b ← marshal_element p
  rest ← marshal_frm_payload port ps
  ok (b ++ rest)

abbrev pub is_empty {ℓ} : {A : Type ℓ} → List A → Bool
is_empty [] = true
is_empty (x ∷ xs) = false

unfoldable pub marshal_port_and_payload : MacPayload → Option ℕ → Result Bytes
marshal_port_and_payload p none = do
  fail_if (not (is_empty p.frm_payload)) (message "FPort must be set when FRMPayload is not empty")
  ok []
marshal_port_and_payload p (some port) = do
  fail_if (not (is_empty p.fhdr.f_opts) && port == 0)
      (message "FPort must not be 0 when FOpts are set")
  b ← marshal_frm_payload (some port) p.frm_payload
  ok (port ∷ b)

unfoldable pub marshal_mac_payload : MacPayload → Result Bytes
marshal_mac_payload p = do
  h ← marshal_fhdr p.fhdr
  b ← marshal_port_and_payload p p.f_port
  ok (h ++ b)

abbrev pub is_port_zero : Option ℕ → Bool
is_port_zero none = false
is_port_zero (some port) = port == 0

-- What is left of the bytes after the header: nothing, an FPort, or an FPort and a FRMPayload.
unfoldable pub read_port : Option ℕ → Bytes → Option ℕ
read_port old [] = old
read_port old (port ∷ bs) = some port

unfoldable pub read_frm_payload : List Payload → Bytes → List Payload
read_frm_payload old (port ∷ b ∷ bs) = data_payload (b ∷ bs) ∷ []
read_frm_payload old _ = old

-- FPort and FRMPayload of the receiver stay where there are no bytes for them.
unfoldable pub unmarshal_mac_payload : MacPayload → Bytes → Result MacPayload
unmarshal_mac_payload p bs = do
  fail_if (ltb (length bs) 7) (bytes_at_least 7)
  c ← unmarshal_f_ctrl (slice 4 5 bs)
  fail_if (ltb (length bs) (7 + c.f_opts_len)) (message "not enough bytes to decode FHDR")
  h ← unmarshal_fhdr (record p.fhdr { f_ctrl = c }) (take (7 + c.f_opts_len) bs)
  let n = h.f_ctrl.f_opts_len
  let port = read_port p.f_port (drop (7 + n) bs)
  fail_if (ltb (7 + n + 1) (length bs) && is_port_zero port && ltb 0 n)
      (message "FPort must not be 0 when FOpts are set")
  ok (record {
    fhdr = h;
    f_port = port;
    frm_payload = read_frm_payload p.frm_payload (drop (7 + n) bs);
  })
