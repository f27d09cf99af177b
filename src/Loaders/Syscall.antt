-- ===== src/Loaders/Syscall.antt =====
-- kernel/src/syscall.rs, the syscall gate: the registers that it reads and writes, the scheduler, and
-- the line that it prints on the serial port. The caller's memory is a function from addresses.
pub mod Gate
mod Tests
use moon_os.Common.{
  ℕ, zero, suc, ◌+◌, ◌-◌, ◌^◌, ◌≤◌, min, ◌≡◌, refl, Option, none, [], ◌∷◌, arith, ◌==◌,
  if◌then◌else◌, ==-ne,
}
use moon_os.Common.Bytes.{Bytes}
use moon_os.Common.Text.{is_utf8}
use moon_os.Sched.{Scheduler, exit_current}

pub record Registers : Type 0 where
  pub rax : ℕ
  pub rdi : ℕ
  pub rsi : ℕ

-- The `serial_println!` calls.
pub data SerialLine : Type 0 where
  exited : ℕ → SerialLine
  wrote : Bytes → SerialLine
  not_utf8 : ℕ → SerialLine
  unknown : ℕ → SerialLine

-- `next` is the frame to return to, if it is another than the caller's.
pub record Handled : Type 0 where
  pub sched : Scheduler
  pub registers : Registers
  pub next : Option ℕ
  pub line : SerialLine

abbrev max_write_len : ℕ
max_write_len = 4096

-- `core::slice::from_raw_parts`.
pub read_memory : (ℕ → ℕ) → ℕ → ℕ → Bytes
read_memory memory at zero = []
read_memory memory at (suc n) = memory at ∷ read_memory memory (at + 1) n

sys_exit : Scheduler → Registers → Handled
sys_exit sched r =
    let (after, next) = exit_current sched in
    record { sched = after; registers = r; next = next; line = exited r.rdi }

pub write_line : Bytes → ℕ → SerialLine
write_line content len = if is_utf8 content then wrote content else not_utf8 len

sys_write : Scheduler → (ℕ → ℕ) → Registers → Handled
unfolding read_memory write_line
sys_write sched memory r =
    let len = min r.rsi max_write_len in
    record {
      sched = sched;
      registers = record r { rax = len };
      next = none;
      line = write_line (read_memory memory r.rdi len) len;
    }

pub handle : Scheduler → (ℕ → ℕ) → Registers → Handled
unfolding sys_exit sys_write
handle sched memory r =
    if r.rax == 0
    then sys_exit sched r
    else if r.rax == 1
    then sys_write sched memory r
    else record {
      sched = sched;
      registers = record r { rax = 2 ^ 64 - 1 };
      next = none;
      line = unknown r.rax;
    }

-- A call whose number is neither 0 nor 1 returns to its caller with all bits of `rax` set, and leaves
-- the other registers and the scheduler as they are.
handle-unknown :
    (sched : Scheduler) (memory : ℕ → ℕ) (r : Registers)
    → 2 ≤ r.rax
    → handle sched memory r ≡ record {
      sched = sched;
      registers = record { rax = 2 ^ 64 - 1; rdi = r.rdi; rsi = r.rsi };
      next = none;
      line = unknown r.rax;
    }
unfolding handle
handle-unknown sched memory r h =
    rw
      (
        ==-ne r.rax 0 (λ (e : r.rax ≡ 0). absurd (omega arith)),
        ==-ne r.rax 1 (λ (e : r.rax ≡ 1). absurd (omega arith)),
      )
      refl
