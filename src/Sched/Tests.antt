-- ===== src/Sched/Tests.antt =====
-- sched.rs at concrete inputs.
use moon_os.Common.{◌≡◌, refl, ◌≢◌, inl, inr, true, none, some, [], ◌∷◌, arith}
use moon_os.Sched.{
  Task, Scheduler, new, spawn, spawn_user, on_timer_tick, exit_current, cpu_busy_percent,
}
use moon_os.Sched.Valid.{IsValid}
use moon_os.Sched.Rotation.{saved, run_ticks, round_lem}
use moon_os.Sched.History.{
  spawns, spawns_user, ticks, Reach, here, next, Reach-IsValid, exit_current-ne-none,
}

abbrev boot : Scheduler
boot = new 0x1000

-- A kernel task, a process, then the first tick.
abbrev spawned : Scheduler
spawned = (spawn_user (spawn boot 0x8000 0x400).0 0x20000 0x500 0x7000 0x3000).0

abbrev ticked : Scheduler
ticked = (on_timer_tick spawned 0x9000).0

history : Reach boot ticked
unfolding new spawn spawn_user
history =
    next
      (next (next here (spawns 0x8000 0x400 (omega arith)))
        (spawns_user 0x20000 0x500 0x7000 0x3000 (omega arith) (omega arith)))
      (ticks 0x9000 (omega arith))

abbrev kernel_task : Task
kernel_task = record { id = 1; sp = 40; kernel_stack_top = 50; cr3 = 0x1000; address_space = none }

abbrev user_task : Task
user_task = record {
  id = 2;
  sp = 60;
  kernel_stack_top = 70;
  cr3 = 0x3000;
  address_space = some 0x3000;
}

abbrev idle : Task
idle = record { id = 0; sp = 80; kernel_stack_top = 0; cr3 = 0x1000; address_space = none }

abbrev three : Scheduler
three = record {
  tasks = kernel_task ∷ user_task ∷ idle ∷ [];
  next_id = 3;
  idle_wrapped = true;
  ticks = 10;
  busy_ticks = 6;
  current_cr3 = 0x1000;
  cpu_cr3 = 0x1000;
  rsp0 = 50;
}

three-IsValid : IsValid three
three-IsValid = record {
  distinct = omega arith;
  below = omega arith;
  positive = omega arith;
  idle = inr (inr (inl refl));
  busy = omega arith;
  mapped = omega arith;
  active = omega arith;
  cached = inr refl;
}

busy_three : cpu_busy_percent three ≡ 60
unfolding cpu_busy_percent
busy_three = refl

-- The process exits while it runs: the idle task is next.
exit_user : (exit_current (on_timer_tick three 41).0).1 ≡ some 80
unfolding exit_current on_timer_tick
exit_user = refl

round_lem_example :
    ((run_ticks three (41 ∷ 61 ∷ 81 ∷ [])).0.tasks
      ≡ saved kernel_task 41 ∷ saved user_task 61 ∷ saved idle 81 ∷ [])
    × ((run_ticks three (41 ∷ 61 ∷ 81 ∷ [])).1 ≡ 60 ∷ 80 ∷ 41 ∷ [])
round_lem_example = round_lem three (41 ∷ 61 ∷ 81 ∷ []) refl refl

Reach-IsValid_example : IsValid ticked
Reach-IsValid_example = Reach-IsValid {boot_cr3 = 0x1000} (omega arith) history

exit_current-ne-none_example : (exit_current ticked).1 ≢ none
unfolding new spawn spawn_user on_timer_tick
exit_current-ne-none_example = exit_current-ne-none {boot_cr3 = 0x1000} (omega arith) history refl
