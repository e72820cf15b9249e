-- ===== src/Band/LinkAdr/Apply.antt =====
-- The loop of band.go over the channel mask of a LinkADRReq payload.
use lorawan.Prelude.{
  ℕ, suc, Bool, true, false, List, [], ◌∷◌, ◌≡◌, ◌<◌, ◌≤◌, ◌+◌, ◌-◌, ◌&&◌, ◌==◌, ltb, leb,
  if◌then◌else◌, length, get_or, arith, refl, ok, Bool-cases, inl, inr, ◌∙◌,
}
use lorawan.Band.LinkAdr.{set_at, apply_mask}
use lorawan.Band.LinkAdr.Masks.{length-set_at, get_or-set_at, get_or_outside}
use lorawan.Mac.Link.{ChMask}

get_or-later :
    (v : Bool) (mask : List Bool) (i j : ℕ)
    → i < j
    → get_or (v ∷ mask) (j - i) false ≡ get_or mask (j - (i + 1)) false
get_or-later v mask i j h = let next : j - i ≡ suc (j - (i + 1)) = omega arith in rw next refl

get_or-here : (v : Bool) (mask : List Bool) (i : ℕ) → get_or (v ∷ mask) (i - i) false ≡ v
get_or-here v mask i = let none : i - i ≡ 0 = omega arith in rw none refl

-- What a channel is after a mask that starts at channel `i`.
abbrev pub masked : ℕ → ChMask → List Bool → ℕ → Bool
masked i mask m j =
    if leb i j && ltb j (i + length mask) then get_or mask (j - i) false else get_or m j false

masked_set :
    (i : ℕ) (v : Bool) (mask : ChMask) (m : List Bool) (j : ℕ)
    → i < length m
    → masked (i + 1) mask (set_at m i v) j ≡ masked i (v ∷ mask) m j
masked_set i v mask m j h = elim (Bool-cases (j == i)) [
  | inl e ↦
      let same : j ≡ i = ground arith in
      rw same (ground (arith, get_or-here v mask i, get_or-set_at m i i v))
  | inr e ↦ ground (arith, get_or-later v mask i j, get_or-set_at m i j v)
]

masked_skip :
    (i : ℕ) (mask : ChMask) (m : List Bool) (j : ℕ)
    → length m ≤ i
    → masked (i + 1) mask m j ≡ masked i (false ∷ mask) m j
masked_skip i mask m j h = elim (Bool-cases (j == i)) [
  | inl e ↦
      let same : j ≡ i = ground arith in
      rw same (ground (arith, get_or-here false mask i, get_or_outside m i))
  | inr e ↦ ground (arith, get_or-later false mask i j)
]

-- A mask that enables no channel beyond the list is applied: its own channels get its values.
pub apply_mask_exact :
    (i : ℕ) (mask : ChMask) (m : List Bool)
    → ((k : ℕ) → get_or mask k false ≡ true → i + k < length m)
    → (out : List Bool) × (apply_mask i mask m ≡ ok out)
      × (length out ≡ length m)
      × ((j : ℕ) → get_or out j false ≡ masked i mask m j)
unfolding apply_mask
apply_mask_exact i [] m h = (m, refl, refl, λ j. ground arith)
apply_mask_exact i (v ∷ mask) m h = elim (Bool-cases (leb (length m) i)) [
  | inl beyond ↦
      let off : v ≡ false = ground (arith, h 0) in
      let (out, eq, len, here) =
        apply_mask_exact (i + 1) mask m (λ k e. omega (arith, h (suc k) e)) in
      (out, rw (beyond, off) eq, len, λ j. here j ∙ rw off (masked_skip i mask m j (ground arith)))
  | inr inside ↦
      let (out, eq, len, here) =
        apply_mask_exact (i + 1) mask (set_at m i v)
          (λ k e. omega (arith, length-set_at m i v, h (suc k) e)) in
      (
        out,
        rw inside eq,
        omega (arith, len, length-set_at m i v),
        λ j. here j ∙ masked_set i v mask m j (ground arith),
      )
]
