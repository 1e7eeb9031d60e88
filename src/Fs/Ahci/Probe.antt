-- ===== src/Fs/Ahci/Probe.antt =====
-- `check_port_type` and `AHCIDriver::probe_ports` of fs/ahci.cpp.
use ryanos.Prelude.{
  ℕ, zero, suc, ◌+◌, ◌^◌, Bool, true, false, Option, some, u8, leb, ◌==◌, ◌||◌, not, if◌then◌else◌,
  update, bit_and, ◌>>>◌,
}
use ryanos.Fs.Ahci.{has}

pub data PortType : Type 0 where
  none_found : PortType
  sata : PortType
  semb : PortType
  pm : PortType
  satapi : PortType

-- What a port of the controller shows.
pub record HbaPort : Type 0 where
  pub sata_status : ℕ
  pub signature : ℕ

unfoldable pub check_port_type : HbaPort → PortType
check_port_type port =
    let interface_power_management = bit_and (port.sata_status >>> 8) 0b111 in
    let device_detection = bit_and port.sata_status 0b111 in
    if not (device_detection == 0x3)
    then none_found
    else if not (interface_power_management == 0x1)
    then none_found
    else if port.signature == 0xEB140101
    then satapi
    else if port.signature == 0x00000101
    then sata
    else if port.signature == 0xC33C0101
    then semb
    else if port.signature == 0x96690101
    then pm
    else none_found

-- `port_type == SATA`, and `SATA || SATAPI`
unfoldable pub is_sata : PortType → Bool
is_sata sata = true
is_sata t = false

unfoldable pub is_drive : PortType → Bool
is_drive sata = true
is_drive satapi = true
is_drive t = false

-- `Port`, with `hba_port` as the number of the port of the controller.
pub record Port : Type 0 where
  pub port_type : PortType
  pub hba_port : ℕ
  pub port_number : ℕ

-- The part of `AHCIDriver` that the probe writes; a drive is the number of its slot. The array has 32
-- slots, and `overrun` says that a port was written behind them, over the other fields.
pub record AhciDriver : Type 0 where
  pub ports : ℕ → Option Port
  pub port_count : ℕ
  pub disk_drive : Option ℕ
  pub overrun : Bool

unfoldable pub add_port : PortType → ℕ → AhciDriver → AhciDriver
unfolding is_sata
add_port port_type i driver =
    let slot = driver.port_count in
    record {
      ports =
          update driver.ports slot
            (some (record { port_type = port_type; hba_port = i; port_number = slot }));
      port_count = u8 (slot + 1);
      disk_drive = if is_sata port_type then some slot else driver.disk_drive;
      overrun = driver.overrun || leb 32 slot;
    }

-- The loop from port `i` on.
unfoldable pub probe_from : ℕ → (ℕ → HbaPort) → ℕ → ℕ → AhciDriver → AhciDriver
unfolding check_port_type is_drive add_port
probe_from ports_implemented port zero i driver = driver
probe_from ports_implemented port (suc left) i driver =
    let port_type = check_port_type (port i) in
    probe_from ports_implemented port left (i + 1) (
      if has ports_implemented (2 ^ i)
      then (if is_drive port_type then add_port port_type i driver else driver)
      else driver)

unfoldable pub probe_ports : ℕ → (ℕ → HbaPort) → AhciDriver → AhciDriver
unfolding probe_from
probe_ports ports_implemented port driver = probe_from ports_implemented port 32 0 driver

-- The constructor's loop makes the first slot the disk drive, whatever the probe chose.
unfoldable pub choose_drive : AhciDriver → AhciDriver
choose_drive driver =
    if driver.port_count == 0 then driver else record driver { disk_drive = some 0 }
