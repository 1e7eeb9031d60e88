-- ===== src/Shell/Mouse/Tests.antt =====
-- A mouse on a small screen.
use ryanos.Prelude.{◌≡◌, refl, false, [], ◌∷◌, arith}
use ryanos.Prelude.Int.{pos}
use ryanos.Shell.Mouse.{m_none, Mouse, handle_mouse, process_mouse_packet, minus, raise, lower}
use ryanos.Shell.Mouse.Packets.{
  handle_all, waiting, handle_all_lem, IsOnScreen, here, next, interrupt, round, Reach-IsOnScreen,
}

abbrev rest : Mouse
rest = record {
  button_state = m_none;
  x = pos 5;
  y = pos 5;
  mouse_cycle = 0;
  packet0 = 0;
  packet1 = 0;
  packet2 = 0;
  mouse_packet_ready = false;
}

rest-IsOnScreen : IsOnScreen 640 480 rest
rest-IsOnScreen = record {
  cycle = omega arith;
  waits = λ e. refl;
  inside_x = (5, refl, omega arith);
  inside_y = (5, refl, omega arith);
}

packet_gathered : handle_all (0 ∷ 3 ∷ 4 ∷ 9 ∷ []) rest ≡ waiting 0 3 4 rest
packet_gathered = handle_all_lem 0 3 4 (9 ∷ []) rest refl refl

Reach-IsOnScreen_example : IsOnScreen 640 480 (process_mouse_packet 640 480 (handle_mouse 8 rest))
Reach-IsOnScreen_example =
    Reach-IsOnScreen 640 480 rest-IsOnScreen (next (next here (interrupt 8)) round)

moved_left : (process_mouse_packet 640 480 (waiting 0b00010000 254 0 rest)).x ≡ pos 3
unfolding process_mouse_packet minus raise lower
moved_left = refl
