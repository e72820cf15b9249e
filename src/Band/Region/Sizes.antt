-- ===== src/Band/Region/Sizes.antt =====
-- The payload sizes of every region (band/band_*.go).
use lorawan.Prelude.{
  ℕ, true, false, Bool, List, leb, ◌≡◌, ok, refl, some, ◌&&◌, ◌∷◌, Bool-cases, Option-cases, [],
  ◌==◌, ◌≤◌, inl, ◌+◌, inr, some_injective, ◌||◌, ◌⊎◌, >>=-eq-ok, arith, ◌∙◌, found, found-eq-ok,
}
use Prim.Native.String.{String}
use text.Mathlib.Text.{◌==◌ as str_eq}
use lorawan.Mac.Settings.{DwellTime, no_limit, limit_400ms}
use lorawan.Band.Channel.{MaxPayloadSize, PayloadSizes}
use lorawan.Band.Lookup.{
  lookup_dr, lookup_name, named_or_latest, latest, get_max_payload_size_for_data_rate_index,
}
use lorawan.Band.Region.{
  Region, as923, au915, cn470, cn779, eu433, eu863, in865, kr920, us902, ru864, new_band_of,
}
use lorawan.Band.Regions.As923
use lorawan.Band.Regions.Au915
use lorawan.Band.Regions.Cn470
use lorawan.Band.Regions.Cn779
use lorawan.Band.Regions.Eu433
use lorawan.Band.Regions.Eu863
use lorawan.Band.Regions.In865
use lorawan.Band.Regions.Kr920
use lorawan.Band.Regions.Us902
use lorawan.Band.Regions.Ru864

every : {K A : Type 0} → (A → Bool) → List (K × A) → Bool
every test [] = true
every test ((k, a) ∷ m) = test a && every test m

every-lookup_dr :
    {A : Type 0} (test : A → Bool) (k : ℕ) (m : List (ℕ × A)) (a : A)
    → every test m ≡ true
    → lookup_dr k m ≡ some a
    → test a ≡ true
unfolding every lookup_dr
every-lookup_dr test k [] a h l = cc
every-lookup_dr test k ((i, x) ∷ m) a h l = elim (Bool-cases (i == k)) [
  | inl e ↦ let here : x ≡ a = some_injective (rw e at l) in rw⁻¹ here (ground arith)
  | inr e ↦ every-lookup_dr test k m a (ground arith) (rw e at l)
]

every-lookup_name :
    {A : Type 0} (test : A → Bool) (k : String) (m : List (String × A)) (a : A)
    → every test m ≡ true
    → lookup_name k m ≡ some a
    → test a ≡ true
unfolding every lookup_name
every-lookup_name test k [] a h l = cc
every-lookup_name test k ((i, x) ∷ m) a h l = elim (Bool-cases (str_eq i k)) [
  | inl e ↦ let here : x ≡ a = some_injective (rw e at l) in rw⁻¹ here (ground arith)
  | inr e ↦ every-lookup_name test k m a (ground arith) (rw e at l)
]

every-named_or_latest :
    {A : Type 0} (test : A → Bool) (k : String) (m : List (String × A)) (a : A)
    → every test m ≡ true
    → named_or_latest k m ≡ some a
    → test a ≡ true
unfolding named_or_latest
every-named_or_latest test k m a h l = elim (Option-cases (lookup_name k m)) [
  | inl absent ↦ every-lookup_name test latest m a h (rw absent at l)
  | inr (x, present) ↦ every-lookup_name test k m a h (present ∙ rw present at l)
]

size_passes : MaxPayloadSize → Bool
size_passes s = leb s.m 250 && (s.m == s.n + 8 || (s.m == 0 && s.n == 0))

sizes_pass : PayloadSizes → Bool
sizes_pass sizes = every (every (every size_passes)) sizes

sizes_pass-region :
    (r : Region) (repeater : Bool) (dt : DwellTime)
    → sizes_pass (new_band_of r repeater dt).max_payload_size_per_dr ≡ true
unfolding sizes_pass every size_passes new_band_of As923.new_band As923.repeater_payload_sizes
    As923.payload_sizes As923.dwell_repeater_payload_sizes As923.dwell_payload_sizes Au915.new_band
    Au915.repeater_payload_sizes Au915.payload_sizes Au915.dwell_repeater_payload_sizes
    Au915.dwell_payload_sizes Cn470.new_band Cn470.repeater_payload_sizes Cn470.payload_sizes
    Cn779.new_band Cn779.repeater_payload_sizes Cn779.payload_sizes Eu433.new_band
    Eu433.repeater_payload_sizes Eu433.payload_sizes Eu863.new_band Eu863.repeater_payload_sizes
    Eu863.payload_sizes In865.new_band In865.repeater_payload_sizes In865.payload_sizes
    Kr920.new_band Kr920.repeater_payload_sizes Kr920.payload_sizes Us902.new_band
    Us902.repeater_payload_sizes Us902.payload_sizes Ru864.new_band Ru864.repeater_payload_sizes
    Ru864.payload_sizes
sizes_pass-region as923 true no_limit = refl
sizes_pass-region as923 true limit_400ms = refl
sizes_pass-region as923 false no_limit = refl
sizes_pass-region as923 false limit_400ms = refl
sizes_pass-region au915 true no_limit = refl
sizes_pass-region au915 true limit_400ms = refl
sizes_pass-region au915 false no_limit = refl
sizes_pass-region au915 false limit_400ms = refl
sizes_pass-region cn470 true dt = refl
sizes_pass-region cn470 false dt = refl
sizes_pass-region cn779 true dt = refl
sizes_pass-region cn779 false dt = refl
sizes_pass-region eu433 true dt = refl
sizes_pass-region eu433 false dt = refl
sizes_pass-region eu863 true dt = refl
sizes_pass-region eu863 false dt = refl
sizes_pass-region in865 true dt = refl
sizes_pass-region in865 false dt = refl
sizes_pass-region kr920 true dt = refl
sizes_pass-region kr920 false dt = refl
sizes_pass-region us902 true dt = refl
sizes_pass-region us902 false dt = refl
sizes_pass-region ru864 true dt = refl
sizes_pass-region ru864 false dt = refl

-- In every region, with either repeater setting and dwell time, where a maximum payload size is
-- returned for a version, a revision and a data rate, M is at most 250, and it is N and 8, or
-- both are 0.
pub max_payload_size_lem :
    (r : Region) (repeater : Bool) (dt : DwellTime) (version revision : String) (dr : ℕ)
    (s : MaxPayloadSize)
    → get_max_payload_size_for_data_rate_index (new_band_of r repeater dt) version revision dr
      ≡ ok s
    → (s.m ≤ 250) × ((s.m ≡ s.n + 8) ⊎ ((s.m ≡ 0) × (s.n ≡ 0)))
unfolding get_max_payload_size_for_data_rate_index sizes_pass size_passes
max_payload_size_lem r repeater dt version revision dr s e =
    let sizes = (new_band_of r repeater dt).max_payload_size_per_dr in
    let (revs, first, e') = >>=-eq-ok (found _ (named_or_latest version sizes)) _ e in
    let (drs, second, e'') = >>=-eq-ok (found _ (named_or_latest revision revs)) _ e' in
    let all =
      every-named_or_latest (every (every size_passes)) version sizes revs
        (sizes_pass-region r repeater dt) (found-eq-ok _ (named_or_latest version sizes) first) in
    let some_revision =
      every-named_or_latest (every size_passes) revision revs drs all
        (found-eq-ok _ (named_or_latest revision revs) second) in
    let fits : size_passes s ≡ true =
      every-lookup_dr size_passes dr drs s some_revision (found-eq-ok _ (lookup_dr dr drs) e'') in
    ground arith
