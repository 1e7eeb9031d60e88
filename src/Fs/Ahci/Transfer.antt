-- ===== src/Fs/Ahci/Transfer.antt =====
-- `Port::read` and `Port::write` of fs/ahci.cpp, which differ in two constants.
use ryanos.Prelude.{
  ℕ, zero, suc, ◌-◌, ◌%◌, ◌^◌, Bool, true, false, Option, none, some, u8, u32, sub32, ◌==◌, ◌>>>◌,
  ◌<<<◌,
}
use ryanos.Fs.Ahci.{
  interrupt_status, command_list_base, task_file_data, command_issue, FisRegH2d, HbaPrdtEntry,
  Memory, Hba, zero_fis, set_header, set_table, has,
}
use ryanos.Prelude.{update}

-- The rest of the wait for a free port, `left` being 1000000 - spin: whether the port is hung.
unfoldable pub wait_ready : {D : Type 0} → Hba D → ℕ → D → D × Bool
wait_ready hba zero d = let (d', status) = hba.read_register task_file_data d in (d', true)
wait_ready hba (suc left) d =
    let (d', status) = hba.read_register task_file_data d in
    elim (has status 0x88) [ true ↦ wait_ready hba left d' | false ↦ (d', false) ]

-- `command_issue == 0` ends the wait well, `HBA_PXIS_TFES` ends it badly; `none` means that the
-- fuel ran out.
unfoldable pub wait_done : {D : Type 0} → Hba D → ℕ → D → Option (D × Bool)
wait_done hba zero d = none
wait_done hba (suc fuel) d =
    let (d', issue) = hba.read_register command_issue d in
    let (d'', status) = hba.read_register interrupt_status d' in
    elim (issue == 0) [
      | true ↦ some (d', true)
      | false ↦ elim (has status (2 ^ 30)) [
        | true ↦ some (d'', false)
        | false ↦ wait_done hba fuel d''
      ]
    ]

-- The first entry of the table describes the buffer.
unfoldable pub buffer_entry : ℕ → ℕ → HbaPrdtEntry → HbaPrdtEntry
buffer_entry sector_count buffer e = record e {
  data_base_address = u32 buffer;
  data_base_address_upper = u32 (buffer >>> 32);
  byte_count = sub32 (u32 (sector_count <<< 9)) 1 % 2 ^ 22;
  interrupt_on_completion = 1;
}

unfoldable pub fill_fis : ℕ → ℕ → ℕ → FisRegH2d → FisRegH2d
fill_fis command sector sector_count fis =
    let sector_low = u32 sector in
    let sector_high = u32 (sector >>> 32) in
    record fis {
      fis_type = 0x27;
      command_control = 1;
      command = command;
      lba0 = u8 sector_low;
      lba1 = u8 (sector_low >>> 8);
      lba2 = u8 (sector_low >>> 16);
      lba3 = u8 sector_high;
      lba4 = u8 (sector_high >>> 8);
      lba5 = u8 (sector_high >>> 16);
      device_register = 1 <<< 6;
      count_low = sector_count % 256;
      count_high = (sector_count >>> 8) % 256;
    }

-- The command in the first header and its table. `sizeof(FIS_REG_H2D) / sizeof(uint32_t)` is 5, and
-- the 128 bytes that are cleared end before the first entry.
unfoldable pub build_command : ℕ → ℕ → ℕ → ℕ → ℕ → ℕ → Memory → Memory
unfolding buffer_entry fill_fis
build_command write command sector sector_count buffer list m =
    let m₁ =
      set_header list 0 (λ h. record h { command_fis_length = 5; write = write; prdt_length = 1 })
        m in
    let address = (m₁.headers list 0).command_table_base_address in
    let m₂ = set_table address (λ t. record t { command_fis = zero_fis }) m₁ in
    let m₃ =
      set_table address
        (λ t. record t {
          prdt_entry = update t.prdt_entry 0 (buffer_entry sector_count buffer (t.prdt_entry 0));
        })
        m₂ in
    set_table address
      (λ t. record t { command_fis = fill_fis command sector sector_count t.command_fis }) m₃

-- What follows the wait for a free port.
unfoldable pub run_command :
    {D : Type 0} → Hba D → ℕ → ℕ → ℕ → ℕ → ℕ → ℕ → Memory → D × Bool → Option (D × Memory × Bool)
run_command hba fuel write command sector sector_count buffer m (d₁, is_hung) =
    let d₂ = hba.write_register interrupt_status (2 ^ 32 - 1) m d₁ in
    let (d₃, list) = hba.read_register command_list_base d₂ in
    let m' = build_command write command sector sector_count buffer list m in
    elim is_hung [
      | true ↦ some (d₁, m, false)
      | false ↦ elim (wait_done hba fuel (hba.write_register command_issue 1 m' d₃)) [
        | none ↦ none
        | some (d₄, done) ↦ some (d₄, m', done)
      ]
    ]

unfoldable pub transfer :
    {D : Type 0} → Hba D → ℕ → ℕ → ℕ → ℕ → ℕ → ℕ → D → Memory → Option (D × Memory × Bool)
unfolding run_command
transfer hba fuel write command sector sector_count buffer d m =
    run_command hba fuel write command sector sector_count buffer m (wait_ready hba 1000000 d)

unfoldable pub read : {D : Type 0} → Hba D → ℕ → ℕ → ℕ → ℕ → D → Memory → Option (D × Memory × Bool)
unfolding transfer
read hba fuel sector sector_count buffer d m =
    transfer hba fuel 0 0x25 sector sector_count buffer d m

unfoldable pub write :
    {D : Type 0} → Hba D → ℕ → ℕ → ℕ → ℕ → D → Memory → Option (D × Memory × Bool)
unfolding transfer
write hba fuel sector sector_count buffer d m =
    transfer hba fuel 1 0x35 sector sector_count buffer d m
