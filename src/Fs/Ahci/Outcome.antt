-- ===== src/Fs/Ahci/Outcome.antt =====
-- What a transfer leaves in the memory for the device, and how it ends.
use ryanos.Prelude.{
  ℕ, suc, ◌+◌, ◌-◌, ◌*◌, ◌/◌, ◌%◌, ◌^◌, ◌<◌, ◌≤◌, ◌≡◌, ◌≢◌, refl, Bool, true, false, Option, some,
  arith,
}
use ryanos.Fs.Ahci.{Hba, FisRegH2d, Memory, interrupt_status, command_list_base, command_issue}
use ryanos.Fs.Ahci.Transfer.{
  buffer_entry, fill_fis, build_command, run_command, transfer, read, write,
}
use ryanos.Fs.Ahci.Poll.{
  after, busy_at, Ready, ready, hung, wait_ready-Ready, Settles, done_at, wait_done_lem,
}

-- The sector that a device takes from the six bytes, the first one the lowest.
abbrev pub fis_sector : FisRegH2d → ℕ
fis_sector fis =
    fis.lba0
    + fis.lba1 * 2 ^ 8
    + fis.lba2 * 2 ^ 16
    + fis.lba3 * 2 ^ 24
    + fis.lba4 * 2 ^ 32
    + fis.lba5 * 2 ^ 40

-- The sector that the driver asks for: bits 24 to 31 are lost, and what is above them moves down.
abbrev pub sent_sector : ℕ → ℕ
sent_sector sector = sector % 2 ^ 24 + sector / 2 ^ 32 % 2 ^ 24 * 2 ^ 24

-- The first header of the list and its table ask for a transfer of the sectors.
pub record Commands (write command sector sector_count buffer list : ℕ) (m m' : Memory)
    : Type 0 where
  pub direction : (m'.headers list 0).write ≡ write
  pub fis_length : (m'.headers list 0).command_fis_length * 4 ≡ 20
  pub entries : (m'.headers list 0).prdt_length ≡ 1
  pub table :
      (m'.headers list 0).command_table_base_address ≡ (m.headers list 0).command_table_base_address
  pub command_sent :
      (let fis = (m'.tables (m.headers list 0).command_table_base_address).command_fis in
        (fis.command ≡ command) × (fis.fis_type ≡ 0x27) × (fis.device_register ≡ 64))
  pub sector_sent :
      fis_sector (m'.tables (m.headers list 0).command_table_base_address).command_fis
      ≡ sent_sector sector
  pub count_sent :
      (let fis = (m'.tables (m.headers list 0).command_table_base_address).command_fis in
        fis.count_low + fis.count_high * 2 ^ 8 ≡ sector_count % 2 ^ 16)
  pub buffer_sent :
      (let e = (m'.tables (m.headers list 0).command_table_base_address).prdt_entry 0 in
        e.data_base_address + e.data_base_address_upper * 2 ^ 32 ≡ buffer)
  pub bytes_sent :
      1 ≤ sector_count
      → sector_count ≤ 8192
      → ((m'.tables (m.headers list 0).command_table_base_address).prdt_entry 0).byte_count + 1
        ≡ sector_count * 512
  pub other_tables :
      (a : ℕ) → a ≢ (m.headers list 0).command_table_base_address → m'.tables a ≡ m.tables a
  pub other_headers : (j : ℕ) → j ≢ 0 → m'.headers list j ≡ m.headers list j

build_command-Commands :
    (write command sector sector_count buffer list : ℕ) (m : Memory)
    → sector < 2 ^ 64
    → buffer < 2 ^ 64
    → Commands write command sector sector_count buffer list m
        (build_command write command sector sector_count buffer list m)
unfolding build_command buffer_entry fill_fis
build_command-Commands write command sector sector_count buffer list m small near = record {
  direction = ground arith;
  fis_length = ground arith;
  entries = ground arith;
  table = ground arith;
  command_sent = ground arith;
  sector_sent = ground arith;
  count_sent = ground arith;
  buffer_sent = ground arith;
  bytes_sent = λ l h. ground arith;
  other_tables = λ a ne. ground arith;
  other_headers = λ j ne. ground arith;
}

-- For a sector that three bytes hold, the sector sent is the one that was meant.
pub sent_sector-low : (sector : ℕ) → sector < 2 ^ 24 → sent_sector sector ≡ sector
sent_sector-low sector low = omega arith

module _ {D : Type 0} (hba : Hba D) where
  -- The device when the command is issued, after `n` busy readings of the status.
  abbrev pub issued : ℕ → ℕ → ℕ → ℕ → ℕ → ℕ → D → Memory → D × Memory
  issued n write command sector sector_count buffer d m =
      let (d', list) =
        hba.read_register command_list_base
          (hba.write_register interrupt_status (2 ^ 32 - 1) m (after hba (suc n) d)) in
      let m' = build_command write command sector sector_count buffer list m in
      (hba.write_register command_issue 1 m' d', m')

  -- How a transfer ends.
  pub data Outcome (write command sector sector_count buffer : ℕ) (d : D) (m : Memory)
      : Option (D × Memory × Bool) → Type 0 where
    port_hung :
        {d' : D}
        → ((k : ℕ) → k < 1000000 → busy_at hba k d ≡ true)
        → Outcome write command sector sector_count buffer d m (some (d', m, false))
    ended :
        {d' : D} {m' : Memory} {done : Bool} (n p list : ℕ)
        → n < 1000000
        → ((k : ℕ) → k < n → busy_at hba k d ≡ true)
        → busy_at hba n d ≡ false
        → Commands write command sector sector_count buffer list m m'
        → (issued n write command sector sector_count buffer d m).1 ≡ m'
        → Settles hba p (issued n write command sector sector_count buffer d m).0
        → done_at hba p (issued n write command sector sector_count buffer d m).0 ≡ done
        → Outcome write command sector sector_count buffer d m (some (d', m', done))

  module _ (fuel : ℕ) (write command sector sector_count buffer : ℕ) (d : D) (m : Memory)
      (small : sector < 2 ^ 64) (near : buffer < 2 ^ 64)
      (settles : (e : D) → (p : ℕ) × (p < fuel) × Settles hba p e) where
    run_command-Outcome :
        {r : D × Bool}
        → Ready hba 1000000 d r
        → Outcome write command sector sector_count buffer d m
            (run_command hba fuel write command sector sector_count buffer m r)
    unfolding run_command
    run_command-Outcome (hung all) = port_hung all
    run_command-Outcome (ready n few before free) =
        let start = issued n write command sector sector_count buffer d m in
        let list =
          (hba.read_register command_list_base
            (hba.write_register interrupt_status (2 ^ 32 - 1) m (after hba (suc n) d))).1 in
        let (p, enough, s) = settles start.0 in
        let (d', e) = wait_done_lem hba p fuel start.0 enough s in
        rw (run_command, e)
          (ended n p list few before free
            (build_command-Commands write command sector sector_count buffer list m small near) refl
            s refl)

    transfer-Outcome :
        Outcome write command sector sector_count buffer d m
          (transfer hba fuel write command sector sector_count buffer d m)
    unfolding transfer
    transfer-Outcome = run_command-Outcome (wait_ready-Ready hba 1000000 d)

  -- For a device that reports each command as done or failed within the fuel, the read and the write return. They
  -- return false, with the memory as it was, if the first 1000000 readings of the status are all busy; otherwise
  -- the command stands in the memory when it is issued, and they return whether the device finds it done.
  pub transfers-Outcome :
      (fuel sector sector_count buffer : ℕ) (d : D) (m : Memory)
      → sector < 2 ^ 64
      → buffer < 2 ^ 64
      → ((e : D) → (p : ℕ) × (p < fuel) × Settles hba p e)
      → Outcome 0 0x25 sector sector_count buffer d m (read hba fuel sector sector_count buffer d m)
        × Outcome 1 0x35 sector sector_count buffer d m
            (write hba fuel sector sector_count buffer d m)
  unfolding read write
  transfers-Outcome fuel sector sector_count buffer d m small near settles = (
    transfer-Outcome fuel 0 0x25 sector sector_count buffer d m small near settles,
    transfer-Outcome fuel 1 0x35 sector sector_count buffer d m small near settles,
  )
