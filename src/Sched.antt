-- ===== src/Sched.antt =====
-- kernel/src/sched.rs, the round-robin scheduler, with what it sets in the CPU: CR3 and TSS.RSP0.
-- Addresses of stacks come from the heap and are arguments. The memory that holds the saved trap
-- frames is not modelled, but for the frame that `spawn` and `spawn_user` write; a pointer to a frame
-- is its address. Counters are u64 and wrap.
pub mod Valid
pub mod Queue
pub mod Rotation
pub mod History
mod Tests
use moon_os.Common.{
  ℕ, ◌+◌, ◌-◌, ◌*◌, ◌/◌, ◌%◌, ◌^◌, min, max, bit_and, Bool, true, false, not, Option, none, some,
  List, [], ◌∷◌, ◌++◌, map, ◌==◌, if◌then◌else◌, length,
}

abbrev stack_size : ℕ
stack_size = 32 * 1024

-- `size_of::<TrapFrame>()`: 22 words of 8 bytes.
abbrev frame_size : ℕ
frame_size = 176

-- The fields of `TrapFrame` that a new task's frame has set; the others are zero.
pub record TrapFrame : Type 0 where
  pub rip : ℕ
  pub cs : ℕ
  pub rflags : ℕ
  pub rsp : ℕ
  pub ss : ℕ

pub record Task : Type 0 where
  pub id : ℕ
  pub sp : ℕ
  pub kernel_stack_top : ℕ
  pub cr3 : ℕ
  pub address_space : Option ℕ

-- The front of `tasks` is the head of the list. `current_cr3` is `CURRENT_CR3`; `cpu_cr3` and `rsp0`
-- are the CPU's.
pub record Scheduler : Type 0 where
  pub tasks : List Task
  pub next_id : ℕ
  pub idle_wrapped : Bool
  pub ticks : ℕ
  pub busy_ticks : ℕ
  pub current_cr3 : ℕ
  pub cpu_cr3 : ℕ
  pub rsp0 : ℕ

abbrev pub inc_u64 : ℕ → ℕ
inc_u64 n = (n + 1) % 2 ^ 64

-- `Scheduler::new`, on a CPU whose boot page table is at `boot_cr3`.
pub new : ℕ → Scheduler
new boot_cr3 = record {
  tasks = [];
  next_id = 1;
  idle_wrapped = false;
  ticks = 0;
  busy_ticks = 0;
  current_cr3 = 0;
  cpu_cr3 = boot_cr3;
  rsp0 = 0;
}

pub cpu_busy_percent : Scheduler → ℕ
cpu_busy_percent s = min (s.busy_ticks * 100 % 2 ^ 64 / max s.ticks 1) 100

-- `(stack_top - size_of::<TrapFrame>()) & !0xF`, for the stack at `stack`.
frame_addr : ℕ → ℕ
frame_addr stack = bit_and (stack + stack_size - frame_size) (2 ^ 64 - 16)

pub push_task : Scheduler → Task → Scheduler
push_task s t = record s { tasks = s.tasks ++ (t ∷ []); next_id = inc_u64 s.next_id }

-- The new state, and the frame written at `frame_addr stack`.
pub spawn : Scheduler → ℕ → ℕ → Scheduler × TrapFrame
unfolding push_task
spawn s stack entry = (
  push_task s (record {
    id = s.next_id;
    sp = frame_addr stack;
    kernel_stack_top = stack + stack_size;
    cr3 = s.cpu_cr3;
    address_space = none;
  }),
  record { rip = entry; cs = 0x08; rflags = 0x202; rsp = frame_addr stack; ss = 0x10 },
)

pub spawn_user : Scheduler → ℕ → ℕ → ℕ → ℕ → Scheduler × TrapFrame
unfolding push_task
spawn_user s stack entry_va user_stack_top pml4_phys = (
  push_task s (record {
    id = s.next_id;
    sp = frame_addr stack;
    kernel_stack_top = stack + stack_size;
    cr3 = pml4_phys;
    address_space = some pml4_phys;
  }),
  record { rip = entry_va; cs = 0x1b; rflags = 0x202; rsp = user_stack_top; ss = 0x23 },
)

task_count : Scheduler → ℕ
task_count s = length s.tasks

record TaskInfo : Type 0 where
  pub id : ℕ
  pub is_user : Bool

is_some : Option ℕ → Bool
is_some none = false
is_some (some a) = true

list_tasks : Scheduler → List TaskInfo
unfolding is_some
list_tasks s = map (λ t. record { id = t.id; is_user = is_some t.address_space }) s.tasks

-- Switches CR3, by way of `CURRENT_CR3`, and TSS.RSP0 to the task at the front.
pub resume : Scheduler → Task → Scheduler
resume s t = record s {
  current_cr3 = t.cr3;
  cpu_cr3 =
      if s.current_cr3 == t.cr3
      then s.cpu_cr3
      else (if s.cpu_cr3 == t.cr3 then s.cpu_cr3 else t.cr3);
  rsp0 = t.kernel_stack_top;
}

-- The task that `kmain`'s halt loop becomes.
pub idle_task : ℕ → ℕ → Task
idle_task cr3 current_frame = record {
  id = 0;
  sp = current_frame;
  kernel_stack_top = 0;
  cr3 = cr3;
  address_space = none;
}

-- The interrupted task's frame is saved; at the first tick the idle task is put in front.
pub save : Bool → Scheduler → Task → List Task → ℕ → Scheduler
save true s t ts current_frame = record s { tasks = record t { sp = current_frame } ∷ ts }
save false s t ts current_frame = record s {
  tasks = idle_task s.cpu_cr3 current_frame ∷ t ∷ ts;
  idle_wrapped = true;
}

-- `tasks.front().map(|t| t.id) != Some(0)`.
busy_front : List Task → Bool
busy_front [] = true
busy_front (t ∷ ts) = not (t.id == 0)

pub count_busy : Scheduler → Scheduler
unfolding busy_front
count_busy s = record s {
  busy_ticks = if busy_front s.tasks then inc_u64 s.busy_ticks else s.busy_ticks;
}

pub rotate : List Task → List Task
rotate [] = []
rotate (t ∷ ts) = ts ++ (t ∷ [])

-- What is done with the front of the queue at the end of a tick.
pub switch_front : Scheduler → List Task → ℕ → Scheduler × ℕ
switch_front s [] current_frame = (s, current_frame)
switch_front s (t ∷ ts) current_frame = (resume s t, t.sp)

pub tick_tasks : Scheduler → List Task → ℕ → Scheduler × ℕ
unfolding save idle_task count_busy rotate switch_front resume
tick_tasks s [] current_frame = (s, current_frame)
tick_tasks s (t ∷ ts) current_frame =
    let saved = save s.idle_wrapped s t ts current_frame in
    let counted = count_busy saved in
    let rotated = record counted { tasks = rotate counted.tasks } in
    switch_front rotated rotated.tasks current_frame

-- The frame to resume is returned with the new state.
pub on_timer_tick : Scheduler → ℕ → Scheduler × ℕ
unfolding tick_tasks
on_timer_tick s current_frame =
    let s' = record s { ticks = inc_u64 s.ticks } in tick_tasks s' s'.tasks current_frame

pub exit_tasks : Scheduler → List Task → Scheduler × Option ℕ
exit_tasks s [] = (s, none)
exit_tasks s (t ∷ []) = if t.id == 0 then (s, some t.sp) else (record s { tasks = [] }, none)
exit_tasks s (t ∷ u ∷ ts) =
    if t.id == 0 then (s, some t.sp) else (resume (record s { tasks = u ∷ ts }) u, some u.sp)

-- `none` is the null pointer.
pub exit_current : Scheduler → Scheduler × Option ℕ
unfolding exit_tasks resume
exit_current s = exit_tasks s s.tasks
