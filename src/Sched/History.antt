-- ===== src/Sched/History.antt =====
-- The scheduler of sched.rs after any history of spawns, ticks and exits.
use moon_os.Common.{
  ℕ, ◌+◌, ◌^◌, ◌<◌, ◌≡◌, refl, subst, ◌≢◌, inl, inr, true, none, some, List, [], ◌∷◌, arith,
  ℕ_discrete, ==_iff, ==-ne,
}
use moon_os.Sched.{Task, Scheduler, new, spawn, spawn_user, on_timer_tick, exit_current, exit_tasks}
use moon_os.Sched.Valid.{IsValid, HasIdle, push_task-IsValid, IdleState}
use moon_os.Sched.Queue.{on_timer_tick-IsValid, exit_current-IsValid}

-- The two counters must not wrap, and a page table is not at address 0.
pub data Step (s : Scheduler) : Scheduler → Type 0 where
  spawns : (stack entry : ℕ) → s.next_id + 1 < 2 ^ 64 → Step s (spawn s stack entry).0
  spawns_user :
      (stack entry top pml4 : ℕ)
      → s.next_id + 1 < 2 ^ 64
      → pml4 ≢ 0
      → Step s (spawn_user s stack entry top pml4).0
  ticks : (frame : ℕ) → s.ticks + 1 < 2 ^ 64 → Step s (on_timer_tick s frame).0
  exits : Step s (exit_current s).0

pub data Reach (s : Scheduler) : Scheduler → Type 0 where
  here : Reach s s
  next : {t u : Scheduler} → Reach s t → Step t u → Reach s u

new-IsValid : (boot_cr3 : ℕ) → boot_cr3 ≢ 0 → IsValid (new boot_cr3)
unfolding new
new-IsValid boot_cr3 ne = record {
  distinct = tt;
  below = tt;
  positive = omega arith;
  idle = tt;
  busy = omega arith;
  mapped = tt;
  active = ne;
  cached = inl refl;
}

Step-IsValid : {s t : Scheduler} → Step s t → IsValid s → IsValid t
unfolding spawn spawn_user
Step-IsValid {s} (spawns stack entry small) v = push_task-IsValid s _ v refl v.active small
Step-IsValid {s} (spawns_user stack entry top pml4 small ne) v =
    push_task-IsValid s _ v refl ne small
Step-IsValid {s} (ticks frame small) v = on_timer_tick-IsValid s frame v small
Step-IsValid {s} exits v = exit_current-IsValid s v

-- After any history from a boot with a page table, of spawns with page tables, ticks and exits in
-- which ids and ticks stay below 2 ^ 64, task ids are distinct and below the next one, and once a
-- tick has wrapped the idle task it stays in the queue; the cached CR3 is none or the CPU's; and
-- the busy ticks are at most the ticks.
pub Reach-IsValid :
    {boot_cr3 : ℕ} {s : Scheduler} → boot_cr3 ≢ 0 → Reach (new boot_cr3) s → IsValid s
Reach-IsValid {boot_cr3} ne here = new-IsValid boot_cr3 ne
Reach-IsValid ne (next r st) = Step-IsValid st (Reach-IsValid ne r)

exits_to :
    (s : Scheduler) (ts : List Task) → HasIdle ts → (frame : ℕ) × ((exit_tasks s ts).1 ≡ some frame)
unfolding exit_tasks
exits_to s [] h = absurd h
exits_to s (t ∷ []) (inl z) = (t.sp, rw ((==_iff t.id 0).1 z))
exits_to s (t ∷ []) (inr h) = absurd h
exits_to s (t ∷ u ∷ ts) h = elim (ℕ_discrete t.id 0) [
  | yes z ↦ (t.sp, rw ((==_iff t.id 0).1 z))
  | no ne ↦ (u.sp, rw (==-ne t.id 0 ne))
]

-- After any history from a boot with a page table, of spawns with page tables, ticks and exits in
-- which ids and ticks stay below 2 ^ 64, from the first wrapped tick on, `exit_current` does not
-- return the null pointer.
pub exit_current-ne-none :
    {boot_cr3 : ℕ} {s : Scheduler}
    → boot_cr3 ≢ 0
    → Reach (new boot_cr3) s
    → s.idle_wrapped ≡ true
    → (exit_current s).1 ≢ none
unfolding exit_current
exit_current-ne-none {s = s} ne r w e =
    let v = Reach-IsValid ne r in
    let (frame, q) = exits_to s s.tasks (subst (λ b. IdleState b s.tasks) w v.idle) in cc
