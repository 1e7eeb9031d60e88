-- ===== src/Fs/Ahci/Drives.antt =====
-- The drives of a controller by the bits of its registers, and what the driver's tests make of them.
use ryanos.Prelude.{
  ℕ, zero, suc, ◌+◌, ◌^◌, ◌≤◌, ◌≡◌, ◌⊎◌, false, refl, ap, ◌∙◌, Option, none, some, List, [], ◌∷◌,
  arith, if◌then◌else◌, Bool-cases, inl, inr, ◌&&◌, ◌==◌, ◌/◌, ◌%◌, ◌*◌, ◌>>>◌, bit_and,
}
use native.Mathlib.Nat.{one-le-pow}
use ryanos.Prelude.Bits.{bit, bit-le-one, and_two_pow}
use ryanos.Prelude.Bits.Fields.{and_low, below_pow}
use ryanos.Fs.Ahci.{has}
use ryanos.Fs.Ahci.Probe.{
  PortType, none_found, sata, semb, pm, satapi, HbaPort, check_port_type, is_drive,
}

-- The drive of a port whose status says that a device is present and its interface active: bits 0 to 2
-- are 3, and bits 8 to 10 are 1.
unfoldable pub drive_of : HbaPort → Option PortType
drive_of port =
    if (port.sata_status % 8 == 3) && (port.sata_status / 256 % 8 == 1)
    then (if port.signature == 0x101
        then some sata
        else if port.signature == 0xEB140101
        then some satapi
        else none)
    else none

-- The ports whose bits of the mask are set and that have a drive, of `left` ports from port `i` on: type
-- and number.
unfoldable pub drives : ℕ → (ℕ → HbaPort) → ℕ → ℕ → List (PortType × ℕ)
unfolding drive_of
drives ports_implemented port zero i = []
drives ports_implemented port (suc left) i =
    let rest = drives ports_implemented port left (i + 1) in
    if bit ports_implemented i == 1
    then elim (drive_of (port i)) [ none ↦ rest | some t ↦ (t, i) ∷ rest ]
    else rest

bit_cases : (b : ℕ) → b ≤ 1 → (b ≡ 0) ⊎ (b ≡ 1)
bit_cases zero h = inl refl
bit_cases (suc zero) h = inr refl
bit_cases (suc (suc b)) h = absurd (omega arith)

pub has-bit : (x i : ℕ) → has x (2 ^ i) ≡ (bit x i == 1)
has-bit x i = elim (bit_cases (bit x i) (bit-le-one x i)) [
  | inl clear ↦
      let masked : bit_and x (2 ^ i) ≡ 0 =
        and_two_pow x i ∙ ap (λ b. b * 2 ^ i) clear ∙ omega arith in
      rw (masked, clear) refl
  | inr set ↦
      let masked : bit_and x (2 ^ i) ≡ 1 * 2 ^ i = and_two_pow x i ∙ ap (λ b. b * 2 ^ i) set in
      let some_bit : (bit_and x (2 ^ i) == 0) ≡ false =
        ground (arith, masked, one-le-pow i 2 (omega arith)) in
      rw (some_bit, set) refl
]

unfoldable named : ℕ → PortType
named signature =
    if signature == 0xEB140101
    then satapi
    else if signature == 0x101
    then sata
    else if signature == 0xC33C0101
    then semb
    else if signature == 0x96690101
    then pm
    else none_found

by_signature :
    (signature : ℕ)
    → (if signature == 0x101
        then some sata
        else if signature == 0xEB140101
        then some satapi
        else none)
      ≡ (if is_drive (named signature) then some (named signature) else none)
unfolding named is_drive
by_signature signature = elim (Bool-cases (signature == 0x101)) [
  | inl disk ↦
      let other : (signature == 0xEB140101) ≡ false = ground (arith, disk) in rw (disk, other) refl
  | inr no_disk ↦ elim (Bool-cases (signature == 0xEB140101)) [
    | inl packets ↦ rw (no_disk, packets) refl
    | inr no_packets ↦ elim (Bool-cases (signature == 0xC33C0101)) [
      | inl bridge ↦ rw (no_disk, no_packets, bridge) refl
      | inr no_bridge ↦ elim (Bool-cases (signature == 0x96690101)) [
        | inl multiplier ↦ rw (no_disk, no_packets, no_bridge, multiplier) refl
        | inr unknown ↦ rw (no_disk, no_packets, no_bridge, unknown) refl
      ]
    ]
  ]
]

pub drive_of-check :
    (port : HbaPort)
    → drive_of port
      ≡ (if is_drive (check_port_type port) then some (check_port_type port) else none)
unfolding drive_of check_port_type is_drive named
drive_of-check port =
    let device : bit_and port.sata_status 7 ≡ port.sata_status % 8 =
      and_low 3 port.sata_status port.sata_status (below_pow port.sata_status) in
    let interface : bit_and (port.sata_status >>> 8) 7 ≡ port.sata_status / 256 % 8 =
      and_low 3 (port.sata_status / 256) (port.sata_status / 256)
        (below_pow (port.sata_status / 256)) in
    rw (device, interface)
      (elim (Bool-cases (port.sata_status % 8 == 3)) [
        | inr away ↦ rw away refl
        | inl present ↦ elim (Bool-cases (port.sata_status / 256 % 8 == 1)) [
          | inr asleep ↦ rw (present, asleep) refl
          | inl awake ↦ rw (present, awake) (by_signature port.signature)
        ]
      ])
