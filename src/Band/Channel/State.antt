-- ===== src/Band/Channel/State.antt =====
-- The channels of a band while its methods change them (band.go).
use lorawan.Prelude.{
  ℕ, zero, suc, Bool, List, length, ◌≡◌, ok, ◌<◌, ◌∷◌, ◌≤◌, ap, get_or, true, [], if◌then◌else◌,
  ◌++◌, arith, refl, ◌==◌, Bool-cases, false, inl, leb, inr, subst, ok_injective, length-append,
  ◌∙◌, All, fail_if, ltb, not, sym, ltb→lt, >>=-eq-ok, fail_if-eq-ok,
}
use lorawan.Band.Channel.{
  Band, Channel, zero_channel, add_channel, set_enabled, change_uplink_channel,
  enable_uplink_channel_index, disable_uplink_channel_index,
}

-- The calls that change a band, one after the other.
pub data Calls : Band → Band → Type 0 where
  no_call : {b : Band} → Calls b b
  add :
      {b d : Band}
      → (c : Band) (frequency min_dr max_dr : ℕ) → add_channel b frequency min_dr max_dr ≡ ok c
      → Calls c d
      → Calls b d
  enable :
      {b d : Band}
      → (c : Band) (i : ℕ) → enable_uplink_channel_index b i ≡ ok c
      → Calls c d
      → Calls b d
  disable :
      {b d : Band}
      → (c : Band) (i : ℕ) → disable_uplink_channel_index b i ≡ ok c
      → Calls c d
      → Calls b d

-- Everything but the enabled flag.
abbrev pub SameChannel : Channel → Channel → Type 0
SameChannel c d =
    (c.frequency ≡ d.frequency)
    × (c.min_dr ≡ d.min_dr)
    × (c.max_dr ≡ d.max_dr)
    × (c.custom ≡ d.custom)

-- The channels of a band keep their numbers and parameters.
abbrev pub KeepsChannels : Band → Band → Type 0
KeepsChannels b c =
    (length b.uplink_channels ≤ length c.uplink_channels)
    × ((j : ℕ)
        → j < length b.uplink_channels
        → SameChannel (get_or b.uplink_channels j zero_channel)
            (get_or c.uplink_channels j zero_channel))

pub length-set_enabled :
    (v : Bool) (i : ℕ) (cs : List Channel) → length (set_enabled v i cs) ≡ length cs
unfolding set_enabled
length-set_enabled v i [] = refl
length-set_enabled v zero (c ∷ cs) = refl
length-set_enabled v (suc i) (c ∷ cs) = ap suc (length-set_enabled v i cs)

-- Only the flag of one channel changes.
pub get_or-set_enabled :
    (v : Bool) (i j : ℕ) (cs : List Channel)
    → i < length cs
    → get_or (set_enabled v i cs) j zero_channel ≡ (
        if j == i
        then record (get_or cs j zero_channel) { enabled = v }
        else get_or cs j zero_channel)
unfolding set_enabled
get_or-set_enabled v i j [] h = absurd (omega arith)
get_or-set_enabled v zero zero (c ∷ cs) h = ground arith
get_or-set_enabled v zero (suc j) (c ∷ cs) h = ground arith
get_or-set_enabled v (suc i) zero (c ∷ cs) h = ground arith
get_or-set_enabled v (suc i) (suc j) (c ∷ cs) h = ground (arith, get_or-set_enabled v i j cs)

get_or-append_front :
    (cs ds : List Channel) (j : ℕ)
    → j < length cs
    → get_or (cs ++ ds) j zero_channel ≡ get_or cs j zero_channel
get_or-append_front [] ds j h = absurd (omega arith)
get_or-append_front (c ∷ cs) ds zero h = refl
get_or-append_front (c ∷ cs) ds (suc j) h = get_or-append_front cs ds j (omega arith)

-- What each call keeps, and what it needs.
abbrev Step : Band → Band → Type 0
Step b c =
    KeepsChannels b c
    × (c.supports_extra_channels ≡ b.supports_extra_channels)
    × ((b.supports_extra_channels ≡ false) → length c.uplink_channels ≡ length b.uplink_channels)

set_enabled-Step :
    (v : Bool) (b : Band) (i : ℕ)
    → i < length b.uplink_channels
    → Step b (record b { uplink_channels = set_enabled v i b.uplink_channels })
set_enabled-Step v b i h =
    let size = length-set_enabled v i b.uplink_channels in
    ((omega (arith, size), λ j k. rw get_or-set_enabled (ground arith)), refl, λ k. size)

-- A call that succeeds, with what it needs and what it gives.
pub change_inversion :
    (v : Bool) (b c : Band) (i : ℕ)
    → change_uplink_channel v b i ≡ ok c
    → (i < length b.uplink_channels)
      × (record b { uplink_channels = set_enabled v i b.uplink_channels } ≡ c)
unfolding change_uplink_channel
change_inversion v b c i e = elim (Bool-cases (leb (length b.uplink_channels) i)) [
  | inl outside ↦ cc (rw outside at e)
  | inr inside ↦ (ground arith, ok_injective (rw inside at e))
]

change-Step : (v : Bool) (b c : Band) (i : ℕ) → change_uplink_channel v b i ≡ ok c → Step b c
change-Step v b c i e =
    let (inside, eq) = change_inversion v b c i e in
    subst (Step b) eq (set_enabled-Step v b i inside)

append-Step :
    (b : Band) (x : Channel)
    → b.supports_extra_channels ≡ true
    → Step b (record b {
      uplink_channels = b.uplink_channels ++ (x ∷ []);
      downlink_channels = b.downlink_channels ++ (x ∷ []);
    })
append-Step b x extra = (
  (
    omega (arith, length-append b.uplink_channels (x ∷ [])),
    λ j k. rw (get_or-append_front b.uplink_channels (x ∷ []) j k) (refl, refl, refl, refl),
  ),
  refl,
  λ plain. cc,
)

-- The band with one more channel in both directions.
abbrev pub append_channel : Band → Channel → Band
append_channel b x = record b {
  uplink_channels = b.uplink_channels ++ (x ∷ []);
  downlink_channels = b.downlink_channels ++ (x ∷ []);
}

pub add_channel_inversion :
    (b c : Band) (frequency min_dr max_dr : ℕ)
    → add_channel b frequency min_dr max_dr ≡ ok c
    → (b.supports_extra_channels ≡ true) × (x : Channel) × (append_channel b x ≡ c)
unfolding add_channel
add_channel_inversion b c f lo hi e =
    let (checked, extra, whole) = >>=-eq-ok (fail_if (not b.supports_extra_channels) _) _ e in
    (
      supported b.supports_extra_channels (fail_if-eq-ok (not b.supports_extra_channels) _ extra),
      _,
      ok_injective whole,
    )
  where
    supported : (s : Bool) → not s ≡ false → s ≡ true
    supported true h = refl
    supported false h = cc

add_channel-Step :
    (b c : Band) (frequency min_dr max_dr : ℕ)
    → add_channel b frequency min_dr max_dr ≡ ok c
    → Step b c
add_channel-Step b c f lo hi e =
    let (extra, x, eq) = add_channel_inversion b c f lo hi e in
    subst (Step b) eq (append-Step b x extra)

Step-trans : (b c d : Band) → Step b c → Step c d → Step b d
Step-trans b c d ((more, same), extra, size) ((more', same'), extra', size') = (
  (
    omega (arith, more, more'),
    λ j h.
        let s = same j h in
        let t = same' j (omega (arith, more, h)) in (s.0 ∙ t.0, s.1 ∙ t.1, s.2 ∙ t.2, s.3 ∙ t.3),
  ),
  extra' ∙ extra,
  λ plain. size' (extra ∙ plain) ∙ size plain,
)

Calls-Step : (b c : Band) → Calls b c → Step b c
Calls-Step b c no_call = ((omega arith, λ j h. (refl, refl, refl, refl)), refl, λ plain. refl)
Calls-Step b d (add c f lo hi e rest) =
    Step-trans b c d (add_channel-Step b c f lo hi e) (Calls-Step c d rest)
Calls-Step b d (enable c i e rest) =
    Step-trans b c d (change-Step true b c i (unfold enable_uplink_channel_index in e))
      (Calls-Step c d rest)
Calls-Step b d (disable c i e rest) =
    Step-trans b c d (change-Step false b c i (unfold disable_uplink_channel_index in e))
      (Calls-Step c d rest)

-- After any calls of AddChannel, EnableUplinkChannelIndex and DisableUplinkChannelIndex that
-- succeed, a band has at least as many uplink channels as before, and each channel that it had
-- keeps its number, its frequency, its data rates and its custom flag.
pub Calls-KeepsChannels : (b c : Band) → Calls b c → KeepsChannels b c
Calls-KeepsChannels b c calls = (Calls-Step b c calls).0

plain_channels :
    (cs : List Channel)
    → ((j : ℕ) → (get_or cs j zero_channel).custom ≡ false)
    → All (λ (c : Channel). c.custom ≡ false) cs
plain_channels [] h = tt
plain_channels (c ∷ cs) h = (h 0, plain_channels cs (λ j. h (suc j)))

pub no_custom :
    (cs : List Channel) (j : ℕ)
    → All (λ (c : Channel). c.custom ≡ false) cs
    → (get_or cs j zero_channel).custom ≡ false
no_custom [] j h = refl
no_custom (c ∷ cs) zero h = h.0
no_custom (c ∷ cs) (suc j) h = no_custom cs j h.1

no_channel : (cs : List Channel) (j : ℕ) → length cs ≤ j → (get_or cs j zero_channel).custom ≡ false
no_channel [] j h = refl
no_channel (c ∷ cs) zero h = absurd (omega arith)
no_channel (c ∷ cs) (suc j) h = no_channel cs j (omega arith)

-- A band of fixed channels stays one.
pub Calls-fixed :
    (b c : Band)
    → Calls b c
    → b.supports_extra_channels ≡ false
    → All (λ (x : Channel). x.custom ≡ false) b.uplink_channels
    → (length c.uplink_channels ≡ length b.uplink_channels)
      × All (λ (x : Channel). x.custom ≡ false) c.uplink_channels
Calls-fixed b c calls plain fixed =
    let ((more, same), extra, size) = Calls-Step b c calls in
    (size plain, plain_channels c.uplink_channels (λ j. unchanged size same j))
  where
    unchanged :
        (b.supports_extra_channels ≡ false → length c.uplink_channels ≡ length b.uplink_channels)
        → ((j : ℕ)
            → j < length b.uplink_channels
            → SameChannel
                (get_or b.uplink_channels j zero_channel)
                (get_or c.uplink_channels j zero_channel))
        → (j : ℕ) → (get_or c.uplink_channels j zero_channel).custom ≡ false
    unchanged size same j = elim (Bool-cases (ltb j (length b.uplink_channels))) [
      | inl inside ↦
          sym (same j (ltb→lt j (length b.uplink_channels) inside)).3
          ∙ no_custom b.uplink_channels j fixed
      | inr outside ↦ no_channel c.uplink_channels j (ground (arith, size plain))
    ]
