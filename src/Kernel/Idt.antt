-- ===== src/Kernel/Idt.antt =====
-- kernel/interrupts/idt.cpp, and `set_idt_gate` and `prepare_interrupts` of kernel/kernel.cpp: the
-- gates of the interrupt descriptor table, a store of entries by address. The page of the table is
-- the parameter `page`, and what it held before stays where no gate is set.
pub mod Gates
mod Tests
use ryanos.Prelude.{ℕ, ◌+◌, ◌*◌, ◌/◌, ◌%◌, ◌^◌, u16, u64, bit_and, bit_or, ◌<<<◌, ◌>>>◌, update}

pub record IdtDescEntry : Type 0 where
  pub offset0 : ℕ
  pub selector : ℕ
  pub ist : ℕ
  pub type_attr : ℕ
  pub offset1 : ℕ
  pub offset2 : ℕ

abbrev pub interrupt_gate : ℕ
interrupt_gate = 0b10001110

unfoldable pub set_offset : ℕ → IdtDescEntry → IdtDescEntry
set_offset offset e = record e {
  offset0 = u16 (bit_and offset 0x000000000000ffff);
  offset1 = u16 (bit_and offset 0x00000000ffff0000 >>> 16);
  offset2 = u16 (bit_and offset 0xffffffff00000000 >>> 32);
}

unfoldable pub get_offset : IdtDescEntry → ℕ
get_offset e = bit_or (bit_or e.offset0 (u64 (e.offset1 <<< 16))) (u64 (e.offset2 <<< 32))

pub record Idtr : Type 0 where
  pub limit : ℕ
  pub offset : ℕ

abbrev pub Entries : Type 0
Entries = ℕ → IdtDescEntry

-- A gate, at the offset of 16 bytes for each entry in front.
unfoldable pub set_idt_gate : Idtr → ℕ → ℕ → ℕ → ℕ → Entries → Entries
unfolding set_offset
set_idt_gate idtr handler entry_offset type_attr selector m =
    let interrupt = u64 (idtr.offset + entry_offset * 16) in
    update m interrupt
      (record (set_offset handler (m interrupt)) { type_attr = type_attr; selector = selector })

-- The addresses of the six handlers.
pub record Handlers : Type 0 where
  pub page_fault_handler : ℕ
  pub double_fault_handler : ℕ
  pub gp_fault_handler : ℕ
  pub keyboard_int_handler : ℕ
  pub mouse_int_handler : ℕ
  pub pit_int_handler : ℕ

-- The part of `prepare_interrupts` that fills the table.
unfoldable pub prepare_gates : Handlers → ℕ → Entries → Idtr × Entries
prepare_gates h page m =
    let idtr : Idtr = record { limit = 0x0fff; offset = page } in
    let m₁ = set_idt_gate idtr h.page_fault_handler 0xe interrupt_gate 0x08 m in
    let m₂ = set_idt_gate idtr h.double_fault_handler 0x8 interrupt_gate 0x08 m₁ in
    let m₃ = set_idt_gate idtr h.gp_fault_handler 0xd interrupt_gate 0x08 m₂ in
    let m₄ = set_idt_gate idtr h.keyboard_int_handler 0x21 interrupt_gate 0x08 m₃ in
    let m₅ = set_idt_gate idtr h.mouse_int_handler 0x2c interrupt_gate 0x08 m₄ in
    let m₆ = set_idt_gate idtr h.pit_int_handler 0x20 interrupt_gate 0x08 m₅ in (idtr, m₆)
