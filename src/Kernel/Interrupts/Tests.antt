-- ===== src/Kernel/Interrupts/Tests.antt =====
-- The timer, a movement of the mouse and a key.
use ryanos.Prelude.Int.{pos}
use ryanos.Prelude.{ℕ, suc, ◌≡◌, refl, some, false, true, [], ◌∷◌}
use ryanos.Kernel.Ports.{Io, was_read}
use ryanos.Kernel.Interrupts.{
  Machine, keyboard_int_handler, mouse_int_handler, pit_int_handler, pic_end_master,
}
use ryanos.Kernel.Interrupts.Acknowledged.{Counts, none_yet, key, move, round, Handled-Counts}
use ryanos.Shell.Keyboard.{Screen, handle_keyboard}
use ryanos.Shell.Mouse.{m_none}

-- The device answers with the scan code of the left shift key.
abbrev shift : Io → ℕ → ℕ
shift io port = 0x2a

-- The system counts the ticks.
abbrev quiet : Screen ℕ
quiet = record { execute_command = λ line s. (line, s); cprint = λ c s. s; erase = λ s. s }

abbrev booted : Machine ℕ
booted = record {
  keyboard = record {
    is_left_shift_pressed = false;
    is_right_shift_pressed = false;
    current_line_index = 0;
    current_line = λ i. 0;
  };
  mouse = record {
    button_state = m_none;
    x = pos 0;
    y = pos 0;
    mouse_cycle = 0;
    packet0 = 0;
    packet1 = 0;
    packet2 = 0;
    mouse_packet_ready = false;
  };
  system = 0;
  io = [];
}

abbrev ticked : Machine ℕ
ticked = pit_int_handler shift quiet suc booted

abbrev moved : Machine ℕ
moved = mouse_int_handler shift quiet suc ticked

abbrev shifted : Machine ℕ
shifted = record moved {
  keyboard = record booted.keyboard { is_left_shift_pressed = true };
  io = pic_end_master (was_read 0x60 ∷ moved.io);
}

after_the_key : keyboard_int_handler shift quiet suc moved ≡ some shifted
unfolding keyboard_int_handler mouse_int_handler pit_int_handler handle_keyboard
after_the_key = refl

Handled-Counts_example : Counts shift quiet suc 1 1 1 booted.io shifted.io
Handled-Counts_example = Handled-Counts shift quiet suc (key (move (round none_yet)) after_the_key)
