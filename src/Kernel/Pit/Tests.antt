-- ===== src/Kernel/Pit/Tests.antt =====
-- The timer at 1000 Hz.
use ryanos.Prelude.{◌≡◌, some, arith, []}
use ryanos.Kernel.Pit.{Pit, set_frequency}
use ryanos.Kernel.Pit.Frequency.{Ticks, set_frequency-Ticks}

abbrev at_boot : Pit
at_boot = record { current_divisor = 65535; io = [] }

set_frequency-Ticks_example :
    (p' : Pit) × (set_frequency 1000 at_boot ≡ some p') × Ticks 1000 at_boot p'
set_frequency-Ticks_example = set_frequency-Ticks 1000 at_boot (omega arith) (omega arith)
