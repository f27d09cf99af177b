-- ===== src/Loaders/Process.antt =====
-- kernel/src/process.rs: an address space, a program in it, a stack and a task. The address of the
-- task's kernel stack comes from the heap and is an argument.
use moon_os.Common.{ℕ, zero, suc, ◌+◌, ◌-◌, ◌*◌, Option, none, some}
use moon_os.Common.Bytes.{Bytes}
use moon_os.Loaders.Outcome.{
  Outcome, done, panicked, Load, ◌>>=◌, ◌>>◌, return, map_or_panic, alloc_frame_or,
  stack_out_of_memory,
}
use moon_os.Loaders.Elf
use moon_os.Loaders.Pe
use moon_os.Loaders.Pe.{Thunks}
use moon_os.Memory.Paging.{Machine, map_in, new_space}
use moon_os.Sched.{Scheduler, spawn_user}

abbrev pub user_stack_top : ℕ
user_stack_top = 0x70000000

abbrev user_stack_pages : ℕ
user_stack_pages = 4

-- The loop of `finish_spawn`, with the rounds that are left.
map_stack : ℕ → ℕ → ℕ → Load (Unit {0})
map_stack zero page root = return tt
map_stack (suc n) page root = do
  frame ← alloc_frame_or stack_out_of_memory
  λ s. map_or_panic (map_in root page frame 7 s)
  map_stack n (page + 4096) root

-- The entry point, and the scheduler with the new task.
finish_spawn : ℕ → Scheduler → ℕ → ℕ → Load (ℕ × Scheduler)
unfolding map_stack
finish_spawn stack sched root entry = do
  map_stack user_stack_pages (user_stack_top - user_stack_pages * 4096) root
  return (entry, (spawn_user sched stack entry user_stack_top root).0)

-- `AddressSpace::new()`.
open_space : Option (ℕ × Machine) → Outcome ℕ
open_space none = panicked
open_space (some (root, s)) = done root s

spawn_from_elf : ℕ → Scheduler → Bytes → Load (ℕ × Scheduler)
unfolding open_space finish_spawn
spawn_from_elf stack sched elf_bytes = do
  root ← λ s. open_space (new_space s)
  entry ← Elf.load root elf_bytes
  finish_spawn stack sched root entry

spawn_from_pe : ℕ → Thunks → ℕ → Scheduler → Bytes → Load (ℕ × Scheduler)
unfolding open_space finish_spawn
spawn_from_pe fuel thunks stack sched pe_bytes = do
  root ← λ s. open_space (new_space s)
  entry ← Pe.load fuel thunks root pe_bytes
  finish_spawn stack sched root entry
