-- ===== src/Loader.antt =====
-- gnu-efi/bootloader/main.c: the comparisons, the segments of the kernel, the size of the font and the
-- search for the root of the ACPI tables. What the firmware does is the parameter `Firmware`.
pub mod Segments
pub mod Search
mod Tests
use ryanos.Prelude.{
  ℕ, zero, suc, ◌+◌, ◌-◌, ◌*◌, ◌/◌, ◌%◌, ◌^◌, Bool, true, false, List, [], ◌∷◌, Option, none, some,
  ltb, ◌==◌, ◌||◌, ◌&&◌, not, if◌then◌else◌, u32, u64, int_to_u64,
}
use ryanos.Prelude.Int.{ℤ, pos, negsuc}
use ryanos.Memory.Bytes.{Bytes}

-- The loop of `memcmp` from byte `i` on.
unfoldable pub memcmp_from : Bytes → ℕ → ℕ → ℕ → ℕ → ℤ
memcmp_from m a b zero i = pos 0
memcmp_from m a b (suc left) i =
    let rest = memcmp_from m a b left (i + 1) in
    if ltb (m (a + i)) (m (b + i))
    then negsuc 0
    else if ltb (m (b + i)) (m (a + i))
    then pos 1
    else rest

unfoldable pub memcmp : Bytes → ℕ → ℕ → ℕ → ℤ
unfolding memcmp_from
memcmp m a b n = memcmp_from m a b n 0

-- `strcmp`, whose loop moves neither pointer.
unfoldable pub strcmp : Bytes → ℕ → ℕ → ℕ → ℕ
strcmp m a b zero = 1
strcmp m a b (suc left) = let rest = strcmp m a b left in if m a == m b then rest else 0

-- `Elf64_Phdr`, the fields that are used.
pub record Elf64Phdr : Type 0 where
  pub p_type : ℕ
  pub p_offset : ℕ
  pub p_paddr : ℕ
  pub p_filesz : ℕ
  pub p_memsz : ℕ

-- What the firmware does: `AllocatePages` of a number of pages at an address, which answers with the
-- address, and `Read` of a number of bytes of the kernel's file from a position on to an address.
pub record Firmware (S : Type 0) : Type 0 where
  pub allocate_pages : ℕ → ℕ → S → S × ℕ
  pub read_file : ℕ → ℕ → ℕ → S → Bytes → S × Bytes

-- `int pages = (phdr->p_memsz + 0x1000 - 1) / 0x1000`
unfoldable pub page_count : Elf64Phdr → ℕ
page_count phdr = int_to_u64 (u64 (phdr.p_memsz + 0xfff) / 0x1000)

-- The loop over the program headers; PT_LOAD is 1.
unfoldable pub load_segments : {S : Type 0} → Firmware S → List Elf64Phdr → S → Bytes → S × Bytes
unfolding page_count
load_segments fw [] s m = (s, m)
load_segments fw (phdr ∷ phdrs) s m =
    let (s₁, segment) = fw.allocate_pages (page_count phdr) phdr.p_paddr s in
    let (s₂, m₂) = fw.read_file phdr.p_offset phdr.p_filesz segment s₁ m in
    if phdr.p_type == 1 then load_segments fw phdrs s₂ m₂ else load_segments fw phdrs s m

-- The size of the glyphs of a font with this header, or nothing if it is none.
unfoldable pub glyph_buffer_size : ℕ → ℕ → ℕ → ℕ → Option ℕ
glyph_buffer_size magic0 magic1 mode charsize =
    if not (magic0 == 0x36) || not (magic1 == 0x04)
    then none
    else some (if mode == 1 then charsize * 512 else charsize * 256)

-- `EFI_CONFIGURATION_TABLE`, with whether `CompareGuid` gives anything but 0 for its identifier.
pub record ConfigurationTable : Type 0 where
  pub compare_guid : Bool
  pub vendor_table : ℕ

-- The search from round `index` on: the pointer to the tables has moved on by `index` as well.
unfoldable pub find_rsdp_from : Bytes → ℕ → (ℕ → ConfigurationTable) → ℕ → ℕ → ℕ → ℕ
unfolding strcmp
find_rsdp_from m signature config_table zero index rsdp = rsdp
find_rsdp_from m signature config_table (suc left) index rsdp =
    let table = (config_table index).vendor_table in
    find_rsdp_from m signature config_table left (index + 1) (
      if (config_table (index + index)).compare_guid
      then (if strcmp m signature table 8 == 0 then rsdp else table)
      else rsdp)

unfoldable pub find_rsdp : Bytes → ℕ → (ℕ → ConfigurationTable) → ℕ → ℕ
unfolding find_rsdp_from
find_rsdp m signature config_table number_of_table_entries =
    find_rsdp_from m signature config_table number_of_table_entries 0 0
