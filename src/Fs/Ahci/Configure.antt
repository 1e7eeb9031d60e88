-- ===== src/Fs/Ahci/Configure.antt =====
-- `Port::configure`, `stop_cmd` and `start_cmd` of fs/ahci.cpp. Pages come from the allocator
-- `source`.
use ryanos.Prelude.{
  ℕ, zero, suc, ◌+◌, ◌*◌, Bool, ◌&&◌, leb, true, false, Option, none, some, u32, u64, ltb, bit_and,
  bit_or, complement, if◌then◌else◌, ◌>>>◌, ◌<<<◌,
}
use ryanos.Memory.PageTables.{PageSource}
use ryanos.Fs.Ahci.{
  command_list_base, command_list_base_upper, fis_base_address, fis_base_address_upper,
  command_status, Memory, Hba, zero_header, zero_fis, zero_prdt_entry, set_header, has,
}

-- `command_status &= mask` and `command_status |= mask`
unfoldable pub and_status : {D : Type 0} → Hba D → ℕ → Memory → D → D
and_status hba mask m d =
    let (d', status) = hba.read_register command_status d in
    hba.write_register command_status (bit_and status mask) m d'

unfoldable pub or_status : {D : Type 0} → Hba D → ℕ → Memory → D → D
or_status hba mask m d =
    let (d', status) = hba.read_register command_status d in
    hba.write_register command_status (bit_or status mask) m d'

-- The loop of `stop_cmd`, which waits until `HBA_PXCMD_FR` and `HBA_PXCMD_CR` are clear; `none` means that the fuel ran out.
unfoldable pub wait_stopped : {D : Type 0} → Hba D → ℕ → D → Option D
wait_stopped hba zero d = none
wait_stopped hba (suc fuel) d =
    let (d', receives) = hba.read_register command_status d in
    let (d'', runs) = hba.read_register command_status d' in
    elim (has receives 0x4000) [
      | true ↦ wait_stopped hba fuel d'
      | false ↦ elim (has runs 0x8000) [ true ↦ wait_stopped hba fuel d'' | false ↦ some d'' ]
    ]

unfoldable pub stop_cmd : {D : Type 0} → Hba D → ℕ → Memory → D → Option D
unfolding and_status wait_stopped
stop_cmd hba fuel m d =
    wait_stopped hba fuel
      (and_status hba (complement 32 0x0010) m (and_status hba (complement 32 0x0001) m d))

-- `while(command_status & HBA_PXCMD_CR);`
unfoldable pub wait_idle : {D : Type 0} → Hba D → ℕ → D → Option D
wait_idle hba zero d = none
wait_idle hba (suc fuel) d =
    let (d', runs) = hba.read_register command_status d in
    elim (has runs 0x8000) [ true ↦ wait_idle hba fuel d' | false ↦ some d' ]

unfoldable pub start_cmd : {D : Type 0} → Hba D → ℕ → Memory → D → Option D
unfolding or_status wait_idle
start_cmd hba fuel m d = elim (wait_idle hba fuel d) [
  | none ↦ none
  | some d' ↦ some (or_status hba 0x0001 m (or_status hba 0x0010 m d'))
]

-- A byte of the `size` bytes from the address on.
abbrev pub wiped : ℕ → ℕ → ℕ → Bool
wiped address size a = leb address a && ltb a (address + size)

-- `memset(address, 0, size)`: whatever of a list, a table or the received bytes lies there is zero. A
-- header has 32 bytes and stands on a multiple of 32, the entries of a table have 16 bytes each behind
-- its first 128.
unfoldable pub zero_bytes : ℕ → ℕ → Memory → Memory
zero_bytes address size m = record {
  headers = λ a i. if wiped address size (a + i * 32) then zero_header else m.headers a i;
  tables = λ a. record {
    command_fis = if wiped address size a then zero_fis else (m.tables a).command_fis;
    prdt_entry = λ e.
        if wiped address size (a + 128 + e * 16)
        then zero_prdt_entry
        else (m.tables a).prdt_entry e;
  };
  received = λ a i. if wiped address size (a + i) then 0 else m.received a i;
}

-- The table of header `i` begins `i * 256` bytes into a page of its own.
unfoldable pub table_address : ℕ → ℕ → ℕ
table_address page i = u64 (page + (i <<< 8))

-- One round of the loop over the headers.
unfoldable pub fill_header : {F : Type 0} → PageSource F → ℕ → ℕ → Memory → F → Memory × F
unfolding zero_bytes table_address
fill_header source list i m f =
    let m₁ = set_header list i (λ h. record h { prdt_length = 8 }) m in
    let (f', page) = source.request_page f in
    let address = table_address page i in
    let m₂ =
      set_header list i
        (λ h. record h {
          command_table_base_address = u32 address;
          command_table_base_address_upper = u32 (address >>> 32);
        })
        m₁ in
    (zero_bytes page 256 m₂, f')

-- The loop from header `i` on.
unfoldable pub fill_headers : {F : Type 0} → PageSource F → ℕ → ℕ → ℕ → Memory → F → Memory × F
unfolding fill_header
fill_headers source list zero i m f = (m, f)
fill_headers source list (suc left) i m f =
    let (m', f') = fill_header source list i m f in fill_headers source list left (i + 1) m' f'

-- The part between the stop and the start.
unfoldable pub set_bases : {D F : Type 0} → Hba D → PageSource F → D → Memory → F → D × Memory × F
unfolding zero_bytes fill_headers
set_bases hba source d m f =
    let (f₁, new_base) = source.request_page f in
    let d₁ = hba.write_register command_list_base (u32 new_base) m d in
    let d₂ = hba.write_register command_list_base_upper (u32 (new_base >>> 32)) m d₁ in
    let (d₃, low) = hba.read_register command_list_base d₂ in
    let m₁ = zero_bytes low 1024 m in
    let (f₂, fis_base) = source.request_page f₁ in
    let d₄ = hba.write_register fis_base_address (u32 fis_base) m₁ d₃ in
    let d₅ = hba.write_register fis_base_address_upper (u32 (fis_base >>> 32)) m₁ d₄ in
    let m₂ = zero_bytes fis_base 256 m₁ in
    let (d₆, list_low) = hba.read_register command_list_base d₅ in
    let (d₇, list_high) = hba.read_register command_list_base_upper d₆ in
    let (m₃, f₃) = fill_headers source (u64 (list_low + (list_high <<< 32))) 32 0 m₂ f₂ in
    (d₇, m₃, f₃)

-- The last step of `configure`, after the device was waited for.
unfoldable pub with_device : {D F : Type 0} → Memory → F → Option D → Option (D × Memory × F)
with_device m f none = none
with_device m f (some d) = some (d, m, f)

-- `configure` behind the stop.
unfoldable pub configure_stopped :
    {D F : Type 0} → Hba D → PageSource F → ℕ → Memory → F → Option D → Option (D × Memory × F)
unfolding set_bases start_cmd with_device
configure_stopped hba source fuel m f none = none
configure_stopped hba source fuel m f (some d₁) =
    let (d₂, m', f') = set_bases hba source d₁ m f in with_device m' f' (start_cmd hba fuel m' d₂)

unfoldable pub configure :
    {D F : Type 0} → Hba D → PageSource F → ℕ → D → Memory → F → Option (D × Memory × F)
unfolding stop_cmd configure_stopped
configure hba source fuel d m f = configure_stopped hba source fuel m f (stop_cmd hba fuel m d)
