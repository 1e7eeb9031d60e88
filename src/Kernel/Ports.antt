-- ===== src/Kernel/Ports.antt =====
-- kernel/io.cpp: the port accesses, kept as the list of what was done, the last one first. What a
-- device answers depends on the accesses before, and is the parameter `device`.
use ryanos.Prelude.{ℕ, List, ◌∷◌}

pub data Access : Type 0 where
  written : ℕ → ℕ → Access
  was_read : ℕ → Access

abbrev pub Io : Type 0
Io = List Access

unfoldable pub outb : ℕ → ℕ → Io → Io
outb port value io = written port value ∷ io

unfoldable pub inb : (Io → ℕ → ℕ) → ℕ → Io → Io × ℕ
inb device port io = (was_read port ∷ io, device io port)

unfoldable pub io_wait : Io → Io
io_wait io = written 0x80 0 ∷ io
