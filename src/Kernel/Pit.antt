-- ===== src/Kernel/Pit.antt =====
-- kernel/interrupts/pit/pit.cpp: the divisor of the timer. The time since boot, a floating point
-- number, is left out.
pub mod Frequency
mod Tests
use ryanos.Prelude.{
  ℕ, ◌+◌, ◌*◌, ◌/◌, ◌%◌, ◌^◌, ltb, ◌==◌, if◌then◌else◌, u8, u16, u64, bit_and, ◌>>>◌, Option, none,
  some,
}
use ryanos.Kernel.Ports.{Io, outb, io_wait}

-- `current_divisor`, and the port accesses.
pub record Pit : Type 0 where
  pub current_divisor : ℕ
  pub io : Io

abbrev pub base_frequency : ℕ
base_frequency = 1193182

unfoldable pub set_divisor : ℕ → Pit → Pit
unfolding outb io_wait
set_divisor divisor p =
    let d = if ltb divisor 100 then 100 else divisor in
    record {
      current_divisor = d;
      io =
          outb 0x40 (u8 (bit_and d 0xff00 >>> 8))
            (io_wait (outb 0x40 (u8 (bit_and d 0x00ff)) p.io));
    }

unfoldable pub get_frequency : Pit → ℕ
get_frequency p = base_frequency / p.current_divisor

-- `none` is the division by 0.
unfoldable pub set_frequency : ℕ → Pit → Option Pit
unfolding set_divisor
set_frequency frequency p =
    if frequency == 0 then none else some (set_divisor (u16 (base_frequency / frequency)) p)
