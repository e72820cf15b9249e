-- ===== src/Mac/Registry/Reachable.antt =====
-- The registry of mac_commands.go after any calls of RegisterProprietaryMACCommand.
use lorawan.Prelude.{
  ℕ, Bool, true, false, [], Result, ok, err, Error, ◌≡◌, ◌≤◌, ◌<◌, arith, refl, subst, sym, ◌∙◌,
  Bool-cases, inl, inr, ltb, message,
}
use lorawan.Mac.Registry.{
  MacPayloadInfo, MacPayloadRegistry, default_registry, get_mac_payload_and_size, lookup_cid,
  register_proprietary_mac_command,
}
use lorawan.Mac.Registry.Register.{get-register, is_set}
use lorawan.Mac.Registry.Sizes.{AcceptsSize, default_registry-FitsSizes, lookup_cid-All}
use lorawan.Mac.Payload.{proprietary, unmarshal_payload}

-- The registries that the calls make of the default one, refused calls included.
pub data Registered : MacPayloadRegistry → Type 0 where
  initial : Registered default_registry
  register :
      {reg next : MacPayloadRegistry}
      → (uplink : Bool) (cid size : ℕ)
      → (register_proprietary_mac_command reg uplink cid size).0 ≡ next
      → Registered reg
      → Registered next

-- An entry that a call can have made.
abbrev pub IsProprietary : ℕ → Result MacPayloadInfo → Type 0
IsProprietary c (err e) = Unit {0}
IsProprietary c (ok info) = (c ≤ 255) × (0 < info.size) × (info.payload ≡ proprietary [])

-- Below the identifier 128 the registry is the default one, and from there on it holds proprietary
-- entries alone.
abbrev pub IsExtension : MacPayloadRegistry → Type 0
IsExtension reg =
    (uplink : Bool) (c : ℕ)
    → (c < 128
        → get_mac_payload_and_size reg uplink c
          ≡ get_mac_payload_and_size default_registry uplink c)
      × (128 ≤ c → IsProprietary c (get_mac_payload_and_size reg uplink c))

pub default_unknown :
    (uplink : Bool) (c : ℕ)
    → 128 ≤ c
    → (e : Error) × (get_mac_payload_and_size default_registry uplink c ≡ err e)
unfolding get_mac_payload_and_size lookup_cid
default_unknown true c h = (message "payload unknown", ground arith)
default_unknown false c h = (message "payload unknown", ground arith)

default-IsExtension : IsExtension default_registry
default-IsExtension uplink c = (λ h. refl, λ h. let (e, g) = default_unknown uplink c h in rw g tt)

register-IsExtension :
    (reg : MacPayloadRegistry) (uplink : Bool) (cid size : ℕ)
    → IsExtension reg
    → IsExtension (register_proprietary_mac_command reg uplink cid size).0
register-IsExtension reg uplink cid size h direction c =
    let found = get-register reg uplink direction cid size c in
    elim (Bool-cases (is_set uplink cid size direction c)) [
      | inl set ↦
          let entry : get_mac_payload_and_size
                (register_proprietary_mac_command reg uplink cid size).0 direction c
              ≡ ok (record { size = size; payload = proprietary [] }) =
            found ∙ rw set refl in
          (λ low. absurd (ground (arith, set)), λ high. rw entry (ground (arith, set)))
      | inr old ↦
          let same : get_mac_payload_and_size
                (register_proprietary_mac_command reg uplink cid size).0 direction c
              ≡ get_mac_payload_and_size reg direction c =
            found ∙ rw old refl in
          rw same (h direction c)
    ]

pub Registered-IsExtension : (reg : MacPayloadRegistry) → Registered reg → IsExtension reg
Registered-IsExtension reg initial = default-IsExtension
Registered-IsExtension next (register {reg} uplink cid size eq calls) =
    subst IsExtension eq
      (register-IsExtension reg uplink cid size (Registered-IsExtension reg calls))

-- Each entry has a positive size, of which its decoder takes any bytes.
abbrev pub EntryAccepts : MacPayloadInfo → Type 0
EntryAccepts info = (0 < info.size) × AcceptsSize info

positive_sizes :
    (uplink : Bool) (c : ℕ) (info : MacPayloadInfo)
    → get_mac_payload_and_size default_registry uplink c ≡ ok info
    → 0 < info.size
unfolding get_mac_payload_and_size
positive_sizes true c info e =
    lookup_cid-All (λ (info : MacPayloadInfo). 0 < info.size) default_registry.uplink c info
      (ground arith) (ground arith)
positive_sizes false c info e =
    lookup_cid-All (λ (info : MacPayloadInfo). 0 < info.size) default_registry.downlink c info
      (ground arith) (ground arith)

proprietary-accepts : (info : MacPayloadInfo) → info.payload ≡ proprietary [] → AcceptsSize info
unfolding unmarshal_payload
proprietary-accepts info e bs h = rw e tt

pub Registered-accepts :
    (reg : MacPayloadRegistry) (uplink : Bool) (c : ℕ) (info : MacPayloadInfo)
    → Registered reg
    → get_mac_payload_and_size reg uplink c ≡ ok info
    → EntryAccepts info
Registered-accepts reg uplink c info calls found =
    let extends = Registered-IsExtension reg calls uplink c in
    elim (Bool-cases (ltb c 128)) [
      | inl low ↦
          let standard = sym (extends.0 (ground (arith, low))) ∙ found in
          (positive_sizes uplink c info standard, default_registry-FitsSizes uplink c info standard)
      | inr high ↦
          let (small, size, payload) =
            subst (IsProprietary c) found (extends.1 (ground (arith, high))) in
          (size, proprietary-accepts info payload)
    ]

-- What every registry keeps.
abbrev pub IsSound : MacPayloadRegistry → Type 0
IsSound reg =
    IsExtension reg
    × ((uplink : Bool) (c : ℕ) (info : MacPayloadInfo)
        → get_mac_payload_and_size reg uplink c ≡ ok info
        → EntryAccepts info)

-- After any calls of RegisterProprietaryMACCommand on the default registry, refused ones
-- included, the lookups of the identifiers below 128 are those of the default registry; from 128
-- on an entry is of an identifier of at most 255 and decodes to proprietary bytes; and each entry
-- has a positive size and decodes every byte string of that size without an error.
pub Registered-IsSound : (reg : MacPayloadRegistry) → Registered reg → IsSound reg
Registered-IsSound reg calls = (
  Registered-IsExtension reg calls,
  λ uplink c info found. Registered-accepts reg uplink c info calls found,
)
