-- ===== src/Fs/Ahci.antt =====
-- fs/ahci.cpp and fs/ahci.hpp: the AHCI driver. The registers of a port belong to a device, which is
-- the parameter `hba`: what a register reads may change with each read, and a write may depend on
-- the memory, where the device finds its commands. The memory is the store of the structures that
-- both share; the sectors that a transfer moves are not part of it.
pub mod Transfer
pub mod Configure
pub mod Probe
pub mod Poll
pub mod Outcome
pub mod Headers
pub mod Configured
pub mod Drives
pub mod Ports
mod Tests
use ryanos.Prelude.{ℕ, ◌+◌, ◌*◌, ◌/◌, ◌%◌, ◌^◌, Bool, bit_and, ◌==◌, not, if◌then◌else◌, update}

-- `HBAPort`, the registers that the driver uses.
pub data Register : Type 0 where
  command_list_base : Register
  command_list_base_upper : Register
  fis_base_address : Register
  fis_base_address_upper : Register
  interrupt_status : Register
  command_status : Register
  task_file_data : Register
  command_issue : Register

-- `HBACommandHeader`
pub record HbaCommandHeader : Type 0 where
  pub command_fis_length : ℕ
  pub write : ℕ
  pub prdt_length : ℕ
  pub command_table_base_address : ℕ
  pub command_table_base_address_upper : ℕ

-- `FIS_REG_H2D`
pub record FisRegH2d : Type 0 where
  pub fis_type : ℕ
  pub command_control : ℕ
  pub command : ℕ
  pub lba0 : ℕ
  pub lba1 : ℕ
  pub lba2 : ℕ
  pub device_register : ℕ
  pub lba3 : ℕ
  pub lba4 : ℕ
  pub lba5 : ℕ
  pub count_low : ℕ
  pub count_high : ℕ

-- `HBAPRDTEntry`
pub record HbaPrdtEntry : Type 0 where
  pub data_base_address : ℕ
  pub data_base_address_upper : ℕ
  pub byte_count : ℕ
  pub interrupt_on_completion : ℕ

-- `HBACommandTable`
pub record HbaCommandTable : Type 0 where
  pub command_fis : FisRegH2d
  pub prdt_entry : ℕ → HbaPrdtEntry

-- The command headers by the address of the list and their number, the command tables by their
-- address, and the bytes of the received FIS by its address.
pub record Memory : Type 0 where
  pub headers : ℕ → ℕ → HbaCommandHeader
  pub tables : ℕ → HbaCommandTable
  pub received : ℕ → ℕ → ℕ

pub record Hba (D : Type 0) : Type 0 where
  pub read_register : Register → D → D × ℕ
  pub write_register : Register → ℕ → Memory → D → D

abbrev pub zero_header : HbaCommandHeader
zero_header = record {
  command_fis_length = 0;
  write = 0;
  prdt_length = 0;
  command_table_base_address = 0;
  command_table_base_address_upper = 0;
}

abbrev pub zero_fis : FisRegH2d
zero_fis = record {
  fis_type = 0;
  command_control = 0;
  command = 0;
  lba0 = 0;
  lba1 = 0;
  lba2 = 0;
  device_register = 0;
  lba3 = 0;
  lba4 = 0;
  lba5 = 0;
  count_low = 0;
  count_high = 0;
}

abbrev pub zero_prdt_entry : HbaPrdtEntry
zero_prdt_entry = record {
  data_base_address = 0;
  data_base_address_upper = 0;
  byte_count = 0;
  interrupt_on_completion = 0;
}

abbrev pub set_header : ℕ → ℕ → (HbaCommandHeader → HbaCommandHeader) → Memory → Memory
set_header list slot change m = record m {
  headers = update m.headers list (update (m.headers list) slot (change (m.headers list slot)));
}

abbrev pub set_table : ℕ → (HbaCommandTable → HbaCommandTable) → Memory → Memory
set_table address change m = record m {
  tables = update m.tables address (change (m.tables address));
}

-- `value & mask`, as a condition.
abbrev pub has : ℕ → ℕ → Bool
has value mask = not (bit_and value mask == 0)
