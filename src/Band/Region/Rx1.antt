-- ===== src/Band/Region/Rx1.antt =====
-- The data rate of the first receive window in every region (band/band_*.go).
use lorawan.Prelude.{
  none, ℕ, Bool, List, true, ◌≡◌, ok, some, ◌<◌, ◌∷◌, Bool-cases, length, ◌&&◌, [], ◌+◌, ◌==◌,
  get_or, inl, arith, some_injective, inr, suc, zero, false, if◌then◌else◌, ◌||◌, ◌≢◌, ◌≤◌,
  >>=-eq-ok, leb, refl, err, fail_if, ltb, message, ok_injective, subst, Option-cases, ◌⊎◌,
  fail_if-eq-ok, Option, found, found-eq-ok,
}
use lorawan.Mac.Settings.{DwellTime, is_400ms}
use lorawan.Band.Channel.{Band, DataRate}
use lorawan.Band.Lookup.{lookup_dr, get_data_rate, get_rx1_data_rate_index}
use lorawan.Band.As923.{as923_get_rx1_data_rate_index, at_most, at_least, effective_offsets}
use lorawan.Band.Region.{
  Region, as923, au915, cn470, cn779, eu433, eu863, in865, kr920, us902, ru864, new_band_of,
  rx1_data_rate_index_of,
}
use lorawan.Band.Regions.As923
use lorawan.Band.Regions.Au915
use lorawan.Band.Regions.Cn470
use lorawan.Band.Regions.Cn779
use lorawan.Band.Regions.Eu433
use lorawan.Band.Regions.Eu863
use lorawan.Band.Regions.In865
use lorawan.Band.Regions.Kr920
use lorawan.Band.Regions.Us902
use lorawan.Band.Regions.Ru864
use lorawan.Prelude.Int.{ℤ, pos_part, pos, negsuc, ◌-ℤ◌}

-- Row by row, the entries from offset `i` on, and all rows.
row_passes : (ℕ → ℕ → Bool) → ℕ → List ℕ → Bool
row_passes test i [] = true
row_passes test i (out ∷ row) = test i out && row_passes test (i + 1) row

table_passes : (ℕ → ℕ → ℕ → Bool) → List (ℕ × List ℕ) → Bool
table_passes test [] = true
table_passes test ((dr, row) ∷ rows) = row_passes (test dr) 0 row && table_passes test rows

row_passes_sound :
    (test : ℕ → ℕ → Bool) (i k : ℕ) (row : List ℕ)
    → row_passes test i row ≡ true
    → k < length row
    → test (i + k) (get_or row k 0) ≡ true
unfolding row_passes
row_passes_sound test i k [] h l = absurd (omega arith)
row_passes_sound test i zero (out ∷ row) h l =
    let here : i + 0 ≡ i = omega arith in rw here (ground arith)
row_passes_sound test i (suc k) (out ∷ row) h l =
    let next : i + suc k ≡ i + 1 + k = omega arith in
    rw next (row_passes_sound test (i + 1) k row (ground arith) (omega arith))

table_passes_sound :
    (test : ℕ → ℕ → ℕ → Bool) (dr : ℕ) (rows : List (ℕ × List ℕ)) (row : List ℕ)
    → table_passes test rows ≡ true
    → lookup_dr dr rows ≡ some row
    → row_passes (test dr) 0 row ≡ true
unfolding table_passes lookup_dr
table_passes_sound test dr [] row h l = cc
table_passes_sound test dr ((i, r) ∷ rows) row h l = elim (Bool-cases (i == dr)) [
  | inl e ↦
      let here : r ≡ row = some_injective (rw e at l) in
      let same : i ≡ dr = ground arith in rw⁻¹ (here, same) (ground arith)
  | inr e ↦ table_passes_sound test dr rows row (ground arith) (rw e at l)
]

-- A data rate of the table that can be used for a downlink.
abbrev downlink_of : Option DataRate → Bool
downlink_of none = false
downlink_of (some d) = d.downlink

is_downlink : List (ℕ × DataRate) → ℕ → Bool
is_downlink rates out = downlink_of (lookup_dr out rates)

is_downlink_sound :
    (b : Band) (out : ℕ)
    → is_downlink b.data_rates out ≡ true
    → (d : DataRate) × (get_data_rate b out ≡ ok d) × (d.downlink ≡ true)
unfolding is_downlink get_data_rate
is_downlink_sound b out h = elim (Option-cases (lookup_dr out b.data_rates)) [
  | inl absent ↦ cc (rw absent at h)
  | inr (d, present) ↦ (d, rw present refl, rw present at h)
]

get_rx1_sound :
    (b : Band) (test : ℕ → ℕ → ℕ → Bool) (dr offset out : ℕ)
    → table_passes test b.rx1_data_rate_table ≡ true
    → get_rx1_data_rate_index b dr offset ≡ ok out
    → test dr offset out ≡ true
unfolding get_rx1_data_rate_index
get_rx1_sound b test dr offset out h e =
    let (row, found_row, e') = >>=-eq-ok (found _ (lookup_dr dr b.rx1_data_rate_table)) _ e in
    let (u, inside, e'') = >>=-eq-ok (fail_if (leb (length row) offset) _) _ e' in
    let first : 0 + offset ≡ offset = omega arith in
    rw (first, ok_injective e'') at
      (row_passes_sound (test dr) 0 offset row
        (table_passes_sound test dr b.rx1_data_rate_table row h
          (found-eq-ok _ (lookup_dr dr b.rx1_data_rate_table) found_row))
        (ground (arith, fail_if-eq-ok (leb (length row) offset) _ inside)))

-- The one entry that is not a data rate: DR7 with offset 1 in the IN865 region is given DR6.
is_in865_gap : Region → ℕ → ℕ → Bool
is_in865_gap in865 dr offset = dr == 7 && offset == 1
is_in865_gap _ dr offset = false

passes : Region → Bool → DwellTime → ℕ → ℕ → ℕ → Bool
passes r repeater dt dr offset out =
    is_downlink (new_band_of r repeater dt).data_rates out || is_in865_gap r dr offset

clamped : (x : ℤ) → pos_part (at_most (pos 5) x) ≤ 5
clamped (pos n) = ground arith
clamped (negsuc n) = ground arith

as923_rates : (out : ℕ) → out ≤ 5 → is_downlink As923.data_rates out ≡ true
unfolding is_downlink As923.data_rates lookup_dr
as923_rates zero h = refl
as923_rates (suc zero) h = refl
as923_rates (suc (suc zero)) h = refl
as923_rates (suc (suc (suc zero))) h = refl
as923_rates (suc (suc (suc (suc zero)))) h = refl
as923_rates (suc (suc (suc (suc (suc zero))))) h = refl
as923_rates (suc (suc (suc (suc (suc (suc out)))))) h = absurd (omega arith)

as923_bound :
    (dt : DwellTime) (dr offset out : ℕ)
    → as923_get_rx1_data_rate_index dt dr offset ≡ ok out
    → out ≤ 5
unfolding as923_get_rx1_data_rate_index
as923_bound dt dr offset out e =
    let (u, first, e') = >>=-eq-ok (fail_if (ltb 7 offset) _) _ e in
    let (v, second, e'') = >>=-eq-ok (fail_if (ltb 7 dr) _) _ e' in
    subst (λ k. k ≤ 5) (ok_injective e'')
      (clamped (
        at_least (if is_400ms dt then pos 2 else pos 0)
          (pos dr -ℤ get_or effective_offsets offset (pos 0))))

table_region :
    (r : Region) (repeater : Bool) (dt : DwellTime)
    → r ≢ as923
    → table_passes (passes r repeater dt) (new_band_of r repeater dt).rx1_data_rate_table ≡ true
unfolding table_passes row_passes passes is_downlink lookup_dr is_in865_gap new_band_of
    Au915.new_band Au915.data_rates Au915.rx1_data_rate_table Cn470.new_band Cn470.data_rates
    Cn470.rx1_data_rate_table Cn779.new_band Cn779.data_rates Cn779.rx1_data_rate_table
    Eu433.new_band Eu433.data_rates Eu433.rx1_data_rate_table Eu863.new_band Eu863.data_rates
    Eu863.rx1_data_rate_table In865.new_band In865.data_rates In865.rx1_data_rate_table
    Kr920.new_band Kr920.data_rates Kr920.rx1_data_rate_table Us902.new_band Us902.data_rates
    Us902.rx1_data_rate_table Ru864.new_band Ru864.data_rates Ru864.rx1_data_rate_table
table_region as923 repeater dt h = absurd (h refl)
table_region au915 repeater dt h = refl
table_region cn470 repeater dt h = refl
table_region cn779 repeater dt h = refl
table_region eu433 repeater dt h = refl
table_region eu863 repeater dt h = refl
table_region in865 repeater dt h = refl
table_region kr920 repeater dt h = refl
table_region us902 repeater dt h = refl
table_region ru864 repeater dt h = refl

in865_gap_sound :
    (r : Region) (dr offset : ℕ)
    → is_in865_gap r dr offset ≡ true
    → (r ≡ in865) × (dr ≡ 7) × (offset ≡ 1)
unfolding is_in865_gap
in865_gap_sound in865 dr offset h = (refl, ground arith, ground arith)
in865_gap_sound as923 dr offset h = cc
in865_gap_sound au915 dr offset h = cc
in865_gap_sound cn470 dr offset h = cc
in865_gap_sound cn779 dr offset h = cc
in865_gap_sound eu433 dr offset h = cc
in865_gap_sound eu863 dr offset h = cc
in865_gap_sound kr920 dr offset h = cc
in865_gap_sound us902 dr offset h = cc
in865_gap_sound ru864 dr offset h = cc

-- A defined downlink data rate, or the exception.
abbrev pub IsRx1DataRate : Region → Bool → DwellTime → ℕ → ℕ → ℕ → Type 0
IsRx1DataRate r repeater dt dr offset out =
    ((d : DataRate) × (get_data_rate (new_band_of r repeater dt) out ≡ ok d) × (d.downlink ≡ true))
    ⊎ ((r ≡ in865) × (dr ≡ 7) × (offset ≡ 1))

passes_sound :
    (r : Region) (repeater : Bool) (dt : DwellTime) (dr offset out : ℕ)
    → passes r repeater dt dr offset out ≡ true
    → IsRx1DataRate r repeater dt dr offset out
unfolding passes
passes_sound r repeater dt dr offset out h =
    elim (Bool-cases (is_downlink (new_band_of r repeater dt).data_rates out)) [
      | inl defined ↦ inl (is_downlink_sound (new_band_of r repeater dt) out defined)
      | inr undefined ↦ inr (in865_gap_sound r dr offset (rw undefined at h))
    ]

as923_passes :
    (repeater : Bool) (dt : DwellTime) (dr offset out : ℕ)
    → out ≤ 5
    → passes as923 repeater dt dr offset out ≡ true
unfolding passes new_band_of As923.new_band
as923_passes repeater dt dr offset out h = ground (arith, as923_rates out)

table_passes-IsRx1DataRate :
    (r : Region) (repeater : Bool) (dt : DwellTime) (dr offset out : ℕ)
    → r ≢ as923
    → get_rx1_data_rate_index (new_band_of r repeater dt) dr offset ≡ ok out
    → IsRx1DataRate r repeater dt dr offset out
table_passes-IsRx1DataRate r repeater dt dr offset out h e =
    passes_sound r repeater dt dr offset out (
      get_rx1_sound (new_band_of r repeater dt) (passes r repeater dt) dr offset out
        (table_region r repeater dt h) e)

-- In every region, with either repeater setting and dwell time, where the RX1 data rate of an
-- uplink data rate and an offset is returned, it is a data rate that the band defines for
-- downlinks, the one exception being the data rate 7 with the offset 1 in India.
pub rx1_data_rate_index_of-IsRx1DataRate :
    (r : Region) (repeater : Bool) (dt : DwellTime) (dr offset out : ℕ)
    → rx1_data_rate_index_of r dt (new_band_of r repeater dt) dr offset ≡ ok out
    → IsRx1DataRate r repeater dt dr offset out
unfolding rx1_data_rate_index_of
rx1_data_rate_index_of-IsRx1DataRate as923 repeater dt dr offset out e =
    passes_sound as923 repeater dt dr offset out
      (as923_passes repeater dt dr offset out (as923_bound dt dr offset out e))
rx1_data_rate_index_of-IsRx1DataRate au915 repeater dt dr offset out e =
    table_passes-IsRx1DataRate au915 repeater dt dr offset out (λ k. cc) e
rx1_data_rate_index_of-IsRx1DataRate cn470 repeater dt dr offset out e =
    table_passes-IsRx1DataRate cn470 repeater dt dr offset out (λ k. cc) e
rx1_data_rate_index_of-IsRx1DataRate cn779 repeater dt dr offset out e =
    table_passes-IsRx1DataRate cn779 repeater dt dr offset out (λ k. cc) e
rx1_data_rate_index_of-IsRx1DataRate eu433 repeater dt dr offset out e =
    table_passes-IsRx1DataRate eu433 repeater dt dr offset out (λ k. cc) e
rx1_data_rate_index_of-IsRx1DataRate eu863 repeater dt dr offset out e =
    table_passes-IsRx1DataRate eu863 repeater dt dr offset out (λ k. cc) e
rx1_data_rate_index_of-IsRx1DataRate in865 repeater dt dr offset out e =
    table_passes-IsRx1DataRate in865 repeater dt dr offset out (λ k. cc) e
rx1_data_rate_index_of-IsRx1DataRate kr920 repeater dt dr offset out e =
    table_passes-IsRx1DataRate kr920 repeater dt dr offset out (λ k. cc) e
rx1_data_rate_index_of-IsRx1DataRate us902 repeater dt dr offset out e =
    table_passes-IsRx1DataRate us902 repeater dt dr offset out (λ k. cc) e
rx1_data_rate_index_of-IsRx1DataRate ru864 repeater dt dr offset out e =
    table_passes-IsRx1DataRate ru864 repeater dt dr offset out (λ k. cc) e

-- The RX1 data rate of the data rate 7 with the offset 1 in India is 6, which the band does not define.
pub in865_rx1_undefined :
    (repeater : Bool) (dt : DwellTime)
    → (rx1_data_rate_index_of in865 dt (new_band_of in865 repeater dt) 7 1 ≡ ok 6)
      × (get_data_rate (new_band_of in865 repeater dt) 6 ≡ err (message "invalid data-rate"))
unfolding rx1_data_rate_index_of get_rx1_data_rate_index get_data_rate new_band_of In865.new_band
    In865.data_rates In865.rx1_data_rate_table lookup_dr
in865_rx1_undefined repeater dt = (refl, refl)
