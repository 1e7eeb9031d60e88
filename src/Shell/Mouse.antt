-- ===== src/Shell/Mouse.antt =====
-- shell/input/mouse.cpp: `Shell::handle_mouse`, which gathers the three bytes of a packet, and
-- `Shell::process_mouse_packet`.
pub mod Packets
mod Tests
use ryanos.Prelude.{
  ℕ, zero, suc, ◌+◌, ◌-◌, ◌%◌, ◌^◌, Bool, true, false, ltb, ◌==◌, not, if◌then◌else◌, u8, bit_and,
}
use ryanos.Prelude.Int.{ℤ, pos, negsuc}

pub data MouseState : Type 0 where
  m_right m_middle m_left m_none : MouseState

pub record Mouse : Type 0 where
  pub button_state : MouseState
  pub x : ℤ
  pub y : ℤ
  pub mouse_cycle : ℕ
  pub packet0 : ℕ
  pub packet1 : ℕ
  pub packet2 : ℕ
  pub mouse_packet_ready : Bool

-- `data & 0b00001000 == 0`: in C++ the comparison binds tighter than `&`.
unfoldable pub not_first_byte : ℕ → Bool
not_first_byte value =
    let compared : ℕ = if 0b00001000 == 0 then 1 else 0 in not (bit_and value compared == 0)

unfoldable pub handle_mouse : ℕ → Mouse → Mouse
unfolding not_first_byte
handle_mouse value m =
    if m.mouse_cycle == 0
    then (if m.mouse_packet_ready
        then m
        else if not_first_byte value
        then m
        else record m { packet0 = value; mouse_cycle = 1 })
    else if m.mouse_cycle == 1
    then (if m.mouse_packet_ready then m else record m { packet1 = value; mouse_cycle = 2 })
    else if m.mouse_cycle == 2
    then (if m.mouse_packet_ready
        then m
        else record m { packet2 = value; mouse_packet_ready = true; mouse_cycle = 0 })
    else m

unfoldable pub buttons : ℕ → MouseState
buttons flags =
    if not (bit_and flags 1 == 0)
    then m_left
    else if not (bit_and flags 2 == 0)
    then m_right
    else if not (bit_and flags 4 == 0)
    then m_middle
    else m_none

-- `pos += n` and `pos -= n`
unfoldable pub plus : ℤ → ℕ → ℤ
plus (pos a) n = pos (a + n)
plus (negsuc a) n = if ltb a n then pos (n - suc a) else negsuc (a - n)

unfoldable pub minus : ℤ → ℕ → ℤ
minus (pos a) n = if ltb a n then negsuc (n - suc a) else pos (a - n)
minus (negsuc a) n = negsuc (a + n)

-- `if(pos < 0) pos = 0`
unfoldable pub raise : ℤ → ℤ
raise (pos n) = pos n
raise (negsuc n) = pos 0

-- `if(pos > size-1) pos = size-1`
unfoldable pub lower : ℕ → ℤ → ℤ
lower zero (pos n) = negsuc 0
lower (suc last) (pos n) = if ltb last n then pos last else pos n
lower size (negsuc n) = negsuc n

-- The call, on a screen of a width and a height.
unfoldable pub process_mouse_packet : ℕ → ℕ → Mouse → Mouse
unfolding buttons plus minus raise lower
process_mouse_packet width height m =
    let x_neg = not (bit_and m.packet0 0b00010000 == 0) in
    let y_neg = not (bit_and m.packet0 0b00100000 == 0) in
    let dx = if x_neg then u8 (256 - m.packet1) else m.packet1 in
    let dy = if y_neg then u8 (256 - m.packet2) else m.packet2 in
    let done = record m {
      button_state = buttons m.packet0;
      packet1 = dx;
      packet2 = dy;
      x = lower width (raise (if x_neg then minus m.x dx else plus m.x dx));
      y = lower height (raise (if y_neg then plus m.y dy else minus m.y dy));
      mouse_packet_ready = false;
    } in
    if m.mouse_packet_ready then done else m
