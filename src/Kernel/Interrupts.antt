-- ===== src/Kernel/Interrupts.antt =====
-- kernel/interrupts/interrupts.cpp: the interrupt handlers of devices and the set-up of the two
-- interrupt controllers, and `prepare_interrupts` of kernel/kernel.cpp. The handlers of faults print and
-- stop. `PIT::tick` adds floating point numbers, and is a parameter.
pub mod Acknowledged
mod Tests
use ryanos.Prelude.{ℕ, Option, none, some, List, [], ◌∷◌}
use ryanos.Kernel.Ports.{Io, outb, inb, io_wait}
use ryanos.Kernel.Idt.{Handlers, Idtr, Entries, prepare_gates}
use ryanos.Memory.Frames.{Frames}
use ryanos.Memory.PageTables.Frames.{take_page}
use ryanos.Shell.Keyboard.{Keyboard, Screen, handle_keyboard}
use ryanos.Shell.Mouse.{Mouse, handle_mouse}

abbrev pub pic1_command : ℕ
pic1_command = 0x20

abbrev pub pic1_data : ℕ
pic1_data = 0x21

abbrev pub pic2_command : ℕ
pic2_command = 0xa0

abbrev pub pic2_data : ℕ
pic2_data = 0xa1

abbrev pub pic_eoi : ℕ
pic_eoi = 0x20

unfoldable pub pic_end_master : Io → Io
unfolding outb
pic_end_master io = outb pic1_command pic_eoi io

unfoldable pub pic_end_slave : Io → Io
unfolding outb
pic_end_slave io = outb pic1_command pic_eoi (outb pic2_command pic_eoi io)

-- `outb` and `io_wait`, as remap_pic pairs them.
unfoldable pub send : ℕ → ℕ → Io → Io
unfolding outb io_wait
send port value io = io_wait (outb port value io)

-- What the handlers change.
pub record Machine (S : Type 0) : Type 0 where
  pub keyboard : Keyboard
  pub mouse : Mouse
  pub system : S
  pub io : Io

module _ (device : Io → ℕ → ℕ) where
  -- `a2` is never set: the second value that is read is dropped.
  unfoldable pub remap_pic : ℕ → Io → Io
  unfolding inb io_wait send outb
  remap_pic a2 io =
      let (io₁, a1) = inb device pic1_data io in
      let (io₂, unused) = inb device pic2_data (io_wait io₁) in
      let io₃ = send pic2_command 0x11 (send pic1_command 0x11 (io_wait io₂)) in
      let io₄ = send pic2_data 0x28 (send pic1_data 0x20 io₃) in
      let io₅ = send pic2_data 2 (send pic1_data 4 io₄) in
      let io₆ = send pic2_data 0x01 (send pic1_data 0x01 io₅) in
      outb pic2_data a2 (send pic1_data a1 io₆)

  -- The page of the table comes from the frame allocator, and may be NULL.
  unfoldable pub prepare_interrupts :
      Handlers → ℕ → Frames → Entries → Io → Frames × Idtr × Entries × Io
  unfolding prepare_gates remap_pic
  prepare_interrupts h a2 f m io =
      let (f', page) = take_page f in
      let (idtr, m') = prepare_gates h page m in (f', idtr, m', remap_pic a2 io)

  module _ {S : Type 0} (screen : Screen S) (tick : S → S) where
    unfoldable pub keyboard_int_handler : Machine S → Option (Machine S)
    unfolding inb pic_end_master
    keyboard_int_handler m =
        let (io₁, scancode) = inb device 0x60 m.io in
        elim (handle_keyboard screen scancode m.keyboard m.system) [
          | none ↦ none
          | some (keyboard, system) ↦
              some (record m { keyboard = keyboard; system = system; io = pic_end_master io₁ })
        ]

    unfoldable pub mouse_int_handler : Machine S → Machine S
    unfolding inb pic_end_slave
    mouse_int_handler m =
        let (io₁, mouse_data) = inb device 0x60 m.io in
        record m { mouse = handle_mouse mouse_data m.mouse; io = pic_end_slave io₁ }

    unfoldable pub pit_int_handler : Machine S → Machine S
    unfolding pic_end_master
    pit_int_handler m = record m { system = tick m.system; io = pic_end_master m.io }
