-- ===== src/Band/Channel/Paired.antt =====
-- The frequencies of uplink and downlink channels while a band changes (band.go).
use lorawan.Prelude.{
  ℕ, zero, suc, Bool, List, arith, length, subst, length-append, true, ◌<◌, ◌≡◌, false, get_or, ◌∙◌,
  ◌∷◌, [], ◌++◌, refl,
}
use lorawan.Band.Channel.{
  Band, Channel, zero_channel, set_enabled, enable_uplink_channel_index,
  disable_uplink_channel_index,
}
use lorawan.Band.Channel.State.{
  Calls, no_call, add, enable, disable, change_inversion, add_channel_inversion, append_channel,
  get_or-set_enabled, length-set_enabled,
}

-- The uplink and the downlink channels of a band have the same frequencies.
abbrev pub IsPaired : Band → Type 0
IsPaired b =
    (length b.uplink_channels ≡ length b.downlink_channels)
    × ((j : ℕ)
        → (get_or b.uplink_channels j zero_channel).frequency
          ≡ (get_or b.downlink_channels j zero_channel).frequency)

paired_append :
    (xs ys : List Channel) (x : Channel) (j : ℕ)
    → length xs ≡ length ys
    → ((k : ℕ) → (get_or xs k zero_channel).frequency ≡ (get_or ys k zero_channel).frequency)
    → (get_or (xs ++ (x ∷ [])) j zero_channel).frequency
      ≡ (get_or (ys ++ (x ∷ [])) j zero_channel).frequency
paired_append [] [] x j h k = refl
paired_append [] (c ∷ ys) x j h k = absurd (omega arith)
paired_append (c ∷ xs) [] x j h k = absurd (omega arith)
paired_append (c ∷ xs) (d ∷ ys) x zero h k = k 0
paired_append (c ∷ xs) (d ∷ ys) x (suc j) h k =
    paired_append xs ys x j (omega arith) (λ i. k (suc i))

set_enabled-IsPaired :
    (v : Bool) (b : Band) (i : ℕ)
    → i < length b.uplink_channels
    → IsPaired b
    → IsPaired (record b { uplink_channels = set_enabled v i b.uplink_channels })
set_enabled-IsPaired v b i h (size, same) = (
  length-set_enabled v i b.uplink_channels ∙ size,
  λ j. rw get_or-set_enabled (ground (arith, same j)),
)

append-IsPaired : (b : Band) (x : Channel) → IsPaired b → IsPaired (append_channel b x)
append-IsPaired b x (size, same) = (
  omega (
    arith,
    size,
    length-append b.uplink_channels (x ∷ []),
    length-append b.downlink_channels (x ∷ []),
  ),
  λ j. paired_append b.uplink_channels b.downlink_channels x j size same,
)

-- A band whose uplink and downlink channels have the same number and frequencies still has after
-- any calls of AddChannel, EnableUplinkChannelIndex and DisableUplinkChannelIndex that succeed.
pub Calls-IsPaired : (b c : Band) → Calls b c → IsPaired b → IsPaired c
Calls-IsPaired b d no_call h = h
Calls-IsPaired b d (add c f lo hi e rest) h =
    let (extra, x, eq) = add_channel_inversion b c f lo hi e in
    Calls-IsPaired c d rest (subst IsPaired eq (append-IsPaired b x h))
Calls-IsPaired b d (enable c i e rest) h =
    let (inside, eq) = change_inversion true b c i (unfold enable_uplink_channel_index in e) in
    Calls-IsPaired c d rest (subst IsPaired eq (set_enabled-IsPaired true b i inside h))
Calls-IsPaired b d (disable c i e rest) h =
    let (inside, eq) = change_inversion false b c i (unfold disable_uplink_channel_index in e) in
    Calls-IsPaired c d rest (subst IsPaired eq (set_enabled-IsPaired false b i inside h))
