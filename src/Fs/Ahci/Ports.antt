-- ===== src/Fs/Ahci/Ports.antt =====
-- The ports that the probe finds, in the order of the controller.
use ryanos.Prelude.{
  ℕ, zero, suc, ◌+◌, ◌<◌, ◌≤◌, ◌≡◌, refl, ap, ◌∙◌, Option, none, some, List, [], ◌∷◌, length, arith,
  if◌then◌else◌, Bool-cases, inl, inr, ◌==◌,
}
use mathlib.Core.Path.{subst}
use ryanos.Prelude.Bits.{bit}
use ryanos.Fs.Ahci.Probe.{
  PortType, HbaPort, Port, AhciDriver, check_port_type, is_sata, is_drive, add_port, probe_from,
  probe_ports,
}
use ryanos.Fs.Ahci.Drives.{drive_of, drives, has-bit, drive_of-check}

-- The drive in slot `k` of the list, its slots counted from `slot`.
unfoldable pub slot_of : List (PortType × ℕ) → ℕ → ℕ → Option Port
slot_of [] slot k = none
slot_of ((t, i) ∷ l) slot zero = some (record { port_type = t; hba_port = i; port_number = slot })
slot_of (p ∷ l) slot (suc k) = slot_of l (suc slot) k

-- The last slot that has a SATA drive.
unfoldable pub last_sata : List (PortType × ℕ) → ℕ → Option ℕ → Option ℕ
last_sata [] slot best = best
last_sata ((t, i) ∷ l) slot best = last_sata l (suc slot) (if is_sata t then some slot else best)

-- The driver after the drives of the list were added.
pub record Probed (l : List (PortType × ℕ)) (driver driver' : AhciDriver) : Type 0 where
  pub count : driver'.port_count ≡ driver.port_count + length l
  pub listed :
      (k : ℕ) → k < length l → driver'.ports (driver.port_count + k) ≡ slot_of l driver.port_count k
  pub kept : (j : ℕ) → j < driver.port_count → driver'.ports j ≡ driver.ports j
  pub disk : driver'.disk_drive ≡ last_sata l driver.port_count driver.disk_drive
  pub within : driver'.overrun ≡ driver.overrun

Probed-add :
    (t : PortType) (i : ℕ) (l : List (PortType × ℕ)) (driver driver' : AhciDriver)
    → driver.port_count < 32
    → Probed l (add_port t i driver) driver'
    → Probed ((t, i) ∷ l) driver driver'
unfolding add_port slot_of last_sata
Probed-add t i l driver driver' room p =
    let next : (add_port t i driver).port_count ≡ suc driver.port_count = omega arith in
    record {
      count = omega (arith, p.count);
      listed = listed;
      kept = λ j h. p.kept j (omega arith) ∙ ground arith;
      within = p.within ∙ ground arith;
      disk =
          p.disk
          ∙ ap
              (λ (s : ℕ).
                last_sata l s (if is_sata t then some driver.port_count else driver.disk_drive))
              next;
    }
  where
    listed :
        (k : ℕ)
        → k < suc (length l)
        → driver'.ports (driver.port_count + k) ≡ slot_of ((t, i) ∷ l) driver.port_count k
    listed zero h =
        let here : driver.port_count + 0 ≡ driver.port_count = omega arith in
        ap driver'.ports here ∙ p.kept driver.port_count (omega arith) ∙ ground arith
    listed (suc k) h =
        let next : (add_port t i driver).port_count ≡ suc driver.port_count = omega arith in
        let there : driver.port_count + suc k ≡ (add_port t i driver).port_count + k =
          omega arith in
        ap driver'.ports there ∙ p.listed k (omega arith) ∙ ap (λ (s : ℕ). slot_of l s k) next

add_port-room :
    (t : PortType) (i : ℕ) (driver : AhciDriver) (left : ℕ)
    → driver.port_count + suc left ≤ 32
    → (add_port t i driver).port_count + left ≤ 32
unfolding add_port
add_port-room t i driver left room = omega arith

probe_from-Probed :
    (ports_implemented : ℕ) (port : ℕ → HbaPort) (left i : ℕ) (driver : AhciDriver)
    → driver.port_count + length (drives ports_implemented port left i) ≤ 32
    → Probed
        (drives ports_implemented port left i)
        driver
        (probe_from ports_implemented port left i driver)
unfolding probe_from drives slot_of last_sata
probe_from-Probed ports_implemented port zero i driver room = record {
  count = omega arith;
  listed = λ k h. absurd (omega arith);
  kept = λ j h. refl;
  disk = refl;
  within = refl;
}
probe_from-Probed ports_implemented port (suc left) i driver room =
    let t = check_port_type (port i) in
    let rest = drives ports_implemented port left (i + 1) in
    elim (Bool-cases (bit ports_implemented i == 1)) [
      | inr off ↦
          let unmasked = has-bit ports_implemented i ∙ off in
          let none_here : drives ports_implemented port (suc left) i ≡ rest =
            rw (drives, off) refl in
          rw (probe_from, none_here, unmasked)
            (probe_from-Probed ports_implemented port left (i + 1) driver
              (subst (λ l. driver.port_count + length l ≤ 32) none_here room))
      | inl on ↦
          let masked = has-bit ports_implemented i ∙ on in
          elim (Bool-cases (is_drive t)) [
            | inr other ↦
                let shown : drive_of (port i) ≡ none = drive_of-check (port i) ∙ rw other refl in
                let none_here : drives ports_implemented port (suc left) i ≡ rest =
                  rw (drives, on, shown) refl in
                rw (probe_from, none_here, masked, other)
                  (probe_from-Probed ports_implemented port left (i + 1) driver
                    (subst (λ l. driver.port_count + length l ≤ 32) none_here room))
            | inl drive ↦
                let shown : drive_of (port i) ≡ some t = drive_of-check (port i) ∙ rw drive refl in
                let one_here : drives ports_implemented port (suc left) i ≡ (t, i) ∷ rest =
                  rw (drives, on, shown) refl in
                let fits : driver.port_count + suc (length rest) ≤ 32 =
                  subst (λ l. driver.port_count + length l ≤ 32) one_here room in
                rw (probe_from, one_here, masked, drive)
                  (Probed-add t i rest driver
                    (probe_from ports_implemented port left (i + 1) (add_port t i driver))
                    (omega arith)
                    (probe_from-Probed ports_implemented port left (i + 1) (add_port t i driver)
                      (add_port-room t i driver (length rest) fits)))
          ]
    ]

-- From a driver on whose 32 slots hold the drives that are there and those of the controller: the probe adds
-- the ports whose bit is set in the mask of the implemented ones and that have an active SATA or SATAPI drive,
-- in their order, each with its slot as its number, writes nothing behind the slots and keeps those before, and
-- makes the last SATA drive the disk.
pub probe_ports-Probed :
    (ports_implemented : ℕ) (port : ℕ → HbaPort) (driver : AhciDriver)
    → driver.port_count + length (drives ports_implemented port 32 0) ≤ 32
    → Probed (drives ports_implemented port 32 0) driver (probe_ports ports_implemented port driver)
unfolding probe_ports
probe_ports-Probed ports_implemented port driver room =
    probe_from-Probed ports_implemented port 32 0 driver room
