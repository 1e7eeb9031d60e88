-- ===== src/Kernel/PrepareMemory.antt =====
-- `prepare_memory` of kernel/kernel.cpp: the page frame allocator is set up, the kernel and the
-- framebuffer are locked, and the memory and the framebuffer are mapped to themselves in a new root
-- table. What the firmware's map, the symbols of the linker and the framebuffer say are arguments;
-- the load of cr3 and the write of the page attribute register are left out.
pub mod Identity
mod Tests
use ryanos.Prelude.{
  ℕ, zero, suc, ◌+◌, ◌-◌, ◌*◌, ◌/◌, ◌^◌, Bool, true, false, Option, none, some, List, ltb,
  if◌then◌else◌, u64, sub64,
}
use ryanos.Memory.Frames.{Frames, lock_pages}
use ryanos.Memory.Frames.Boot.{EfiMemoryDescriptor, get_memory_size, read_efi_memory_map}
use ryanos.Memory.PageTables.{Tables, PageSource, clear, map_memory}
use ryanos.Memory.PageTables.Frames.{take_page, frames}

-- `for (i = from; i < end; i += 0x1000) map_memory(i, i)`; `none` means that the fuel ran out.
unfoldable pub identity_map :
    {F : Type 0} → PageSource F → ℕ → ℕ → ℕ → ℕ → Tables → F → Option (Tables × F)
identity_map source root zero i end t f = none
identity_map source root (suc fuel) i end t f =
    let (t', f') = map_memory source root i i t f in
    let rest = identity_map source root fuel (u64 (i + 0x1000)) end t' f' in
    if ltb i end then rest else some (t, f)

-- What the boot loader and the linker tell.
pub record BootInfo : Type 0 where
  pub m_map : List EfiMemoryDescriptor
  pub kernel_start : ℕ
  pub kernel_end : ℕ
  pub base_address : ℕ
  pub buffer_size : ℕ

-- The allocator until the root table is taken, and the root table.
unfoldable pub prepare_frames : BootInfo → (ℕ → ℕ) → Frames → Frames × ℕ
prepare_frames boot_info memory f =
    let f₁ = read_efi_memory_map boot_info.m_map memory f in
    let kernel_size = sub64 boot_info.kernel_end boot_info.kernel_start in
    take_page (lock_pages boot_info.kernel_start (kernel_size / 4096 + 1) f₁)

unfoldable pub prepare_memory :
    ℕ → BootInfo → (ℕ → ℕ) → Tables → Frames → Option (ℕ × Tables × Frames)
unfolding prepare_frames
prepare_memory fuel boot_info memory t f =
    let (f₂, PML4) = prepare_frames boot_info memory f in
    let fb_base = boot_info.base_address in
    let fb_size = u64 (boot_info.buffer_size + 0x1000) in
    elim (identity_map frames PML4 fuel 0 (get_memory_size boot_info.m_map) (clear PML4 t) f₂) [
      | none ↦ none
      | some (t₁, f₃) ↦
          elim (identity_map frames PML4 fuel fb_base (u64 (fb_base + fb_size)) t₁
            (lock_pages fb_base (fb_size / 4096 + 1) f₃)) [
              | none ↦ none
              | some (t₂, f₄) ↦ some (PML4, t₂, f₄)
            ]
    ]
