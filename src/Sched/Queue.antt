-- ===== src/Sched/Queue.antt =====
-- Every operation of sched.rs keeps the scheduler valid.
use moon_os.Common.{
  ℕ, ◌+◌, ◌^◌, ◌<◌, ◌≡◌, refl, sym, subst, subst₂, ◌≢◌, inl, inr, Bool, true, false, List, [], ◌∷◌,
  arith, ℕ_discrete, ==_iff, ==-ne, All, All-append,
}
use moon_os.Sched.{
  Task, Scheduler, on_timer_tick, tick_tasks, save, idle_task, count_busy, rotate, switch_front,
  exit_current, exit_tasks, inc_u64,
}
use moon_os.Sched.Valid.{IsValid, Distinct, IdleState, Distinct-snoc, HasIdle-snoc, resume-IsValid}

save-IsValid :
    (b : Bool) (s : Scheduler) (t : Task) (ts : List Task) (frame : ℕ)
    → IsValid s
    → s.idle_wrapped ≡ b
    → s.tasks ≡ t ∷ ts
    → IsValid (save b s t ts frame)
unfolding save idle_task
save-IsValid true s t ts frame v e q = record {
  distinct = subst Distinct q v.distinct;
  below = subst (All (λ u. u.id < s.next_id)) q v.below;
  positive = v.positive;
  idle =
      subst (λ b. IdleState b (record t { sp = frame } ∷ ts)) (sym e) (subst₂ IdleState e q v.idle);
  busy = v.busy;
  mapped = subst (All (λ u. u.cr3 ≢ 0)) q v.mapped;
  active = v.active;
  cached = v.cached;
}
save-IsValid false s t ts frame v e q = record {
  distinct = (subst₂ IdleState e q v.idle, subst Distinct q v.distinct);
  below = (v.positive, subst (All (λ u. u.id < s.next_id)) q v.below);
  positive = v.positive;
  idle = inl refl;
  busy = v.busy;
  mapped = (v.active, subst (All (λ u. u.cr3 ≢ 0)) q v.mapped);
  active = v.active;
  cached = v.cached;
}

count_busy-IsValid :
    (s : Scheduler) → IsValid s → s.busy_ticks < s.ticks → s.ticks < 2 ^ 64 → IsValid (count_busy s)
unfolding count_busy
count_busy-IsValid s v lt small = record {
  distinct = v.distinct;
  below = v.below;
  positive = v.positive;
  idle = v.idle;
  busy = ground arith;
  mapped = v.mapped;
  active = v.active;
  cached = v.cached;
}

-- A rotation keeps whatever holds of every task.
rotate-All {ℓ} : (P : Task → Type ℓ) (ts : List Task) → All P ts → All P (rotate ts)
unfolding rotate
rotate-All P [] a = a
rotate-All P (t ∷ ts) a = All-append P ts (t ∷ []) a.1 (a.0, tt)

rotate-Distinct : (ts : List Task) → Distinct ts → Distinct (rotate ts)
unfolding rotate
rotate-Distinct [] d = d
rotate-Distinct (t ∷ ts) d = Distinct-snoc ts t d.1 d.0

rotate-IdleState : (b : Bool) (ts : List Task) → IdleState b ts → IdleState b (rotate ts)
unfolding rotate
rotate-IdleState true [] h = h
rotate-IdleState true (t ∷ ts) h = HasIdle-snoc ts t h
rotate-IdleState false ts h = rotate-All (λ t. t.id ≢ 0) ts h

rotate-IsValid : (s : Scheduler) → IsValid s → IsValid (record s { tasks = rotate s.tasks })
rotate-IsValid s v = record {
  distinct = rotate-Distinct s.tasks v.distinct;
  below = rotate-All (λ t. t.id < s.next_id) s.tasks v.below;
  positive = v.positive;
  idle = rotate-IdleState s.idle_wrapped s.tasks v.idle;
  busy = v.busy;
  mapped = rotate-All (λ t. t.cr3 ≢ 0) s.tasks v.mapped;
  active = v.active;
  cached = v.cached;
}

switch_front-IsValid :
    (s : Scheduler) (ts : List Task) (frame : ℕ)
    → IsValid s
    → s.tasks ≡ ts
    → IsValid (switch_front s ts frame).0
unfolding switch_front
switch_front-IsValid s [] frame v e = v
switch_front-IsValid s (t ∷ ts) frame v e =
    resume-IsValid s t v (subst (All (λ u. u.cr3 ≢ 0)) e v.mapped).0

tick_tasks-IsValid :
    (s : Scheduler) (ts : List Task) (frame : ℕ)
    → IsValid s
    → s.busy_ticks < s.ticks
    → s.ticks < 2 ^ 64
    → s.tasks ≡ ts
    → IsValid (tick_tasks s ts frame).0
unfolding tick_tasks
tick_tasks-IsValid s [] frame v lt small e = v
tick_tasks-IsValid s (t ∷ ts) frame v lt small e =
    switch_front-IsValid _ _ frame
      (rotate-IsValid _ (
        count_busy-IsValid _ (save-IsValid s.idle_wrapped s t ts frame v refl e)
          (counters s.idle_wrapped).0 (counters s.idle_wrapped).1))
      refl
  where
    counters :
        (b : Bool)
        → ((save b s t ts frame).busy_ticks < (save b s t ts frame).ticks)
          × ((save b s t ts frame).ticks < 2 ^ 64)
    counters true = (lt, small)
    counters false = (lt, small)

-- A tick keeps the scheduler valid, until the tick counter would wrap.
pub on_timer_tick-IsValid :
    (s : Scheduler) (frame : ℕ)
    → IsValid s
    → s.ticks + 1 < 2 ^ 64
    → IsValid (on_timer_tick s frame).0
unfolding on_timer_tick
on_timer_tick-IsValid s frame v small =
    tick_tasks-IsValid (record s { ticks = inc_u64 s.ticks }) s.tasks frame
      (record {
        distinct = v.distinct;
        below = v.below;
        positive = v.positive;
        idle = v.idle;
        busy = omega (arith, v.busy);
        mapped = v.mapped;
        active = v.active;
        cached = v.cached;
      })
      (omega (arith, v.busy)) (omega arith) refl

IdleState-tail :
    (b : Bool) (t : Task) (ts : List Task) → t.id ≢ 0 → IdleState b (t ∷ ts) → IdleState b ts
IdleState-tail true t ts ne (inl e) = absurd (ne e)
IdleState-tail true t ts ne (inr h) = h
IdleState-tail false t ts ne h = h.1

-- The valid scheduler without its front task, which is not the idle task.
drop_front-IsValid :
    (s : Scheduler) (t : Task) (ts : List Task)
    → IsValid s
    → s.tasks ≡ t ∷ ts
    → t.id ≢ 0
    → IsValid (record s { tasks = ts })
drop_front-IsValid s t ts v e ne = record {
  distinct = (subst Distinct e v.distinct).1;
  below = (subst (All (λ u. u.id < s.next_id)) e v.below).1;
  positive = v.positive;
  idle = IdleState-tail s.idle_wrapped t ts ne (subst (IdleState s.idle_wrapped) e v.idle);
  busy = v.busy;
  mapped = (subst (All (λ u. u.cr3 ≢ 0)) e v.mapped).1;
  active = v.active;
  cached = v.cached;
}

exit_tasks-IsValid :
    (s : Scheduler) (ts : List Task) → IsValid s → s.tasks ≡ ts → IsValid (exit_tasks s ts).0
unfolding exit_tasks
exit_tasks-IsValid s [] v e = v
exit_tasks-IsValid s (t ∷ []) v e = elim (ℕ_discrete t.id 0) [
  | yes z ↦ rw ((==_iff t.id 0).1 z) v
  | no ne ↦ rw (==-ne t.id 0 ne) (drop_front-IsValid s t [] v e ne)
]
exit_tasks-IsValid s (t ∷ u ∷ ts) v e = elim (ℕ_discrete t.id 0) [
  | yes z ↦ rw ((==_iff t.id 0).1 z) v
  | no ne ↦ rw (==-ne t.id 0 ne) (
      resume-IsValid _ u (drop_front-IsValid s t (u ∷ ts) v e ne)
        (subst (All (λ u. u.cr3 ≢ 0)) e v.mapped).1.0)
]

-- An exit keeps the scheduler valid.
pub exit_current-IsValid : (s : Scheduler) → IsValid s → IsValid (exit_current s).0
unfolding exit_current
exit_current-IsValid s v = exit_tasks-IsValid s s.tasks v refl
