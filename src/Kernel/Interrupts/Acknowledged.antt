-- ===== src/Kernel/Interrupts/Acknowledged.antt =====
-- Every interrupt that is handled is acknowledged, at the controllers that it came through.
use ryanos.Prelude.{
  ℕ, suc, ◌+◌, ◌≡◌, ap, arith, ◌==◌, ◌&&◌, if◌then◌else◌, Option, none, some, [], ◌∷◌,
}
use mathlib.Core.Path.{subst}
use ryanos.Kernel.Ports.{written, was_read, Io}
use ryanos.Kernel.Interrupts.{
  pic1_command, pic2_command, pic_eoi, pic_end_master, Machine, keyboard_int_handler,
  mouse_int_handler, pit_int_handler,
}
use ryanos.Shell.Keyboard.{Keyboard, Screen, handle_keyboard}

-- How often the end of an interrupt was sent to a controller, and how often a port was read.
unfoldable pub eois : ℕ → Io → ℕ
eois port [] = 0
eois port (written p v ∷ io) =
    if (p == port) && (v == pic_eoi) then suc (eois port io) else eois port io
eois port (was_read p ∷ io) = eois port io

unfoldable pub reads : ℕ → Io → ℕ
reads port [] = 0
reads port (written p v ∷ io) = reads port io
reads port (was_read p ∷ io) = if p == port then suc (reads port io) else reads port io

module _ (device : Io → ℕ → ℕ) {S : Type 0} (screen : Screen S) (tick : S → S) where
  -- Interrupts that were handled one after another: the numbers are those of the keyboard, of the mouse
  -- and of the timer.
  pub data Handled (m : Machine S) : ℕ → ℕ → ℕ → Machine S → Type 0 where
    none_yet : Handled m 0 0 0 m
    key :
        {k n t : ℕ} {m' m'' : Machine S}
        → Handled m k n t m'
        → keyboard_int_handler device screen tick m' ≡ some m''
        → Handled m (suc k) n t m''
    move :
        {k n t : ℕ} {m' : Machine S}
        → Handled m k n t m'
        → Handled m k (suc n) t (mouse_int_handler device screen tick m')
    round :
        {k n t : ℕ} {m' : Machine S}
        → Handled m k n t m'
        → Handled m k n (suc t) (pit_int_handler device screen tick m')

  abbrev io_of : Io → Option (Machine S) → Io
  io_of io none = io
  io_of io (some m) = m.io

  -- What has been counted since `io`.
  pub record Counts (k n t : ℕ) (io io' : Io) : Type 0 where
    pub master : eois pic1_command io' ≡ eois pic1_command io + (k + n + t)
    pub slave : eois pic2_command io' ≡ eois pic2_command io + n
    pub data_port : reads 0x60 io' ≡ reads 0x60 io + (k + n)

  keyboard-Counts :
      (k n t : ℕ) (io : Io) (m m' : Machine S)
      → keyboard_int_handler device screen tick m ≡ some m'
      → Counts k n t io m.io
      → Counts (suc k) n t io m'.io
  unfolding keyboard_int_handler eois reads
  keyboard-Counts k n t io m m' e c =
      from (handle_keyboard screen (device m.io 0x60) m.keyboard m.system) e
    where
      from :
          (r : Option (Keyboard × S))
          → elim r [
            | none ↦ none
            | some (keyboard, system) ↦ some (record m {
              keyboard = keyboard;
              system = system;
              io = pic_end_master (was_read 0x60 ∷ m.io);
            })
          ]
            ≡ some m'
          → Counts (suc k) n t io m'.io
      from none z = cc
      from (some (keyboard, system)) z =
          subst (λ (x : Io). Counts (suc k) n t io x) (ap (io_of m.io) z)
            (record {
              master = omega (arith, c.master);
              slave = omega (arith, c.slave);
              data_port = omega (arith, c.data_port);
            })

  -- However the interrupts follow each other: the master has been sent one end for each of them, the
  -- slave one for each of the mouse, and the data port was read once for each of the keyboard and
  -- the mouse.
  pub Handled-Counts : {m m' : Machine S} {k n t : ℕ} → Handled m k n t m' → Counts k n t m.io m'.io
  unfolding mouse_int_handler pit_int_handler eois reads
  Handled-Counts none_yet = record {
    master = omega arith;
    slave = omega arith;
    data_port = omega arith;
  }
  Handled-Counts {m} (key {k} {n} {t} {m'} {m''} h e) =
      keyboard-Counts k n t m.io m' m'' e (Handled-Counts h)
  Handled-Counts (move h) =
      let c = Handled-Counts h in
      record {
        master = omega (arith, c.master);
        slave = omega (arith, c.slave);
        data_port = omega (arith, c.data_port);
      }
  Handled-Counts (round h) =
      let c = Handled-Counts h in
      record {
        master = omega (arith, c.master);
        slave = omega (arith, c.slave);
        data_port = omega (arith, c.data_port);
      }
