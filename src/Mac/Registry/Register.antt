-- ===== src/Mac/Registry/Register.antt =====
-- `RegisterProprietaryMACCommand` against the lookups that follow it.
use lorawan.Prelude.{
  ℕ, Bool, Result, not, ◌≡◌, ok, true, arith, false, if◌then◌else◌, ◌↔◌, leb, ◌≤◌, ◌&&◌, ◌==◌, [],
}
use lorawan.Mac.Registry.{
  MacPayloadRegistry, register_proprietary_mac_command, get_mac_payload_and_size, MacPayloadInfo,
  lookup_cid,
}
use lorawan.Mac.Payload.{proprietary}

abbrev pub same_direction : Bool → Bool → Bool
same_direction true b = b
same_direction false b = not b

-- The registration sets the entry that is looked up.
abbrev pub is_set : Bool → ℕ → ℕ → Bool → ℕ → Bool
is_set uplink cid size direction c =
    leb 128 cid && leb cid 255 && not (size == 0) && same_direction uplink direction && cid == c

-- What a lookup finds after a registration. Identifiers below 128 and above 255 are refused with an
-- error, a size of 0 is accepted and changes nothing, and any other call sets the one entry.
abbrev pub registered : MacPayloadRegistry → Bool → ℕ → ℕ → Bool → ℕ → Result MacPayloadInfo
registered reg uplink cid size direction c =
    if is_set uplink cid size direction c
    then ok (record { size = size; payload = proprietary [] })
    else get_mac_payload_and_size reg direction c

-- After RegisterProprietaryMACCommand a lookup finds the new size for the same direction and
-- identifier when the identifier is from 128 to 255 and the size is positive, and in every other
-- case what it found before.
pub get-register :
    (reg : MacPayloadRegistry) (uplink direction : Bool) (cid size c : ℕ)
    → get_mac_payload_and_size (register_proprietary_mac_command reg uplink cid size).0 direction c
      ≡ registered reg uplink cid size direction c
unfolding register_proprietary_mac_command get_mac_payload_and_size lookup_cid
get-register reg true true cid size c = ground arith
get-register reg true false cid size c = ground arith
get-register reg false true cid size c = ground arith
get-register reg false false cid size c = ground arith

-- RegisterProprietaryMACCommand returns no error exactly for the identifiers from 128 to 255.
pub register_fails_iff :
    (reg : MacPayloadRegistry) (uplink : Bool) (cid size : ℕ)
    → ((register_proprietary_mac_command reg uplink cid size).1 ≡ ok tt)
      ↔ ((128 ≤ cid) × (cid ≤ 255))
unfolding register_proprietary_mac_command
register_fails_iff reg uplink cid size = (λ h. (ground arith, ground arith), λ h. ground arith)
