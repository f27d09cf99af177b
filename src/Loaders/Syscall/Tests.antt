-- ===== src/Loaders/Syscall/Tests.antt =====
-- syscall.rs at concrete inputs: a write of more bytes than one call takes, of a text in two memories.
use moon_os.Common.{ℕ, ◌≡◌, arith, ltb, if◌then◌else◌}
use moon_os.Sched.{Scheduler, new}
use moon_os.Loaders.Syscall.{Registers, handle}
use moon_os.Loaders.Syscall.Gate.{Gated, handle-window}

abbrev idle_sched : Scheduler
idle_sched = new 4096

abbrev write_long : Registers
write_long = record { rax = 1; rdi = 0x1000; rsi = 5000 }

abbrev letters : ℕ → ℕ
letters at = 65

-- Another byte behind the window.
abbrev other_letters : ℕ → ℕ
other_letters at = if ltb at 0x2000 then 65 else 66

handle-window_example :
    (handle idle_sched letters write_long ≡ handle idle_sched other_letters write_long)
    × Gated idle_sched letters write_long (handle idle_sched letters write_long)
handle-window_example =
    handle-window idle_sched letters other_letters write_long (λ i h short. ground arith)
