-- ===== src/Band/As923.antt =====
-- The method of as923Band (band/band_as923.go) that takes the place of a table.
use lorawan.Prelude.{
  ℕ, List, Result, if◌then◌else◌, ◌>>◌, ◌∷◌, [], fail_if, ltb, message, get_or, ok,
}
use lorawan.Prelude.Int.{ℤ, pos, negsuc, ◌-ℤ◌, ltb_ℤ, pos_part}
use lorawan.Mac.Settings.{DwellTime, is_400ms}

abbrev pub effective_offsets : List ℤ
effective_offsets = pos 0 ∷ pos 1 ∷ pos 2 ∷ pos 3 ∷ pos 4 ∷ pos 5 ∷ negsuc 0 ∷ negsuc 1 ∷ []

abbrev pub at_least : ℤ → ℤ → ℤ
at_least low dr = if ltb_ℤ dr low then low else dr

abbrev pub at_most : ℤ → ℤ → ℤ
at_most high dr = if ltb_ℤ high dr then high else dr

-- The result is never negative.
unfoldable pub as923_get_rx1_data_rate_index : DwellTime → ℕ → ℕ → Result ℕ
as923_get_rx1_data_rate_index dt uplink_dr offset = do
  fail_if (ltb 7 offset) (message "invalid RX1 data-rate offset")
  fail_if (ltb 7 uplink_dr) (message "invalid uplink data-rate")
  let min_dr : ℤ = if is_400ms dt then pos 2 else pos 0
  let dr = pos uplink_dr -ℤ get_or effective_offsets offset (pos 0)
  ok (pos_part (at_most (pos 5) (at_least min_dr dr)))
