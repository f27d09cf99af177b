-- ===== src/Sched/Valid.antt =====
-- What holds of the scheduler of sched.rs at all times, with the lemmas on its queue.
use moon_os.Common.{
  ℕ, ◌+◌, ◌^◌, ◌≤◌, ◌<◌, ◌≡◌, sym, ◌≢◌, ◌⊎◌, inl, inr, Bool, true, false, List, [], ◌∷◌, ◌++◌,
  arith, All, All-append,
}
use moon_os.Sched.{Task, Scheduler, push_task, resume, inc_u64}

-- No two tasks share an id.
abbrev pub Distinct : List Task → Type 0
Distinct [] = Unit
Distinct (t ∷ ts) = All (λ u. u.id ≢ t.id) ts × Distinct ts

abbrev pub HasIdle : List Task → Type 0
HasIdle [] = ⊥
HasIdle (t ∷ ts) = (t.id ≡ 0) ⊎ HasIdle ts

abbrev pub IdleState : Bool → List Task → Type 0
IdleState true ts = HasIdle ts
IdleState false ts = All (λ t. t.id ≢ 0) ts

pub record IsValid (s : Scheduler) : Type 0 where
  pub distinct : Distinct s.tasks
  pub below : All (λ t. t.id < s.next_id) s.tasks
  pub positive : 0 < s.next_id
  pub idle : IdleState s.idle_wrapped s.tasks
  pub busy : s.busy_ticks ≤ s.ticks
  pub mapped : All (λ t. t.cr3 ≢ 0) s.tasks
  pub active : s.cpu_cr3 ≢ 0
  pub cached : (s.current_cr3 ≡ 0) ⊎ (s.current_cr3 ≡ s.cpu_cr3)

pub Distinct-snoc :
    (ts : List Task) (t : Task)
    → Distinct ts
    → All (λ u. u.id ≢ t.id) ts
    → Distinct (ts ++ (t ∷ []))
Distinct-snoc [] t d a = (tt, tt)
Distinct-snoc (u ∷ ts) t d a = (
  All-append (λ v. v.id ≢ u.id) ts (t ∷ []) d.0 ((λ e. a.0 (sym e)), tt),
  Distinct-snoc ts t d.1 a.1,
)

pub HasIdle-snoc : (ts : List Task) (t : Task) → HasIdle (t ∷ ts) → HasIdle (ts ++ (t ∷ []))
HasIdle-snoc [] t h = h
HasIdle-snoc (u ∷ ts) t (inl e) = inr (HasIdle-snoc ts t (inl e))
HasIdle-snoc (u ∷ ts) t (inr (inl e)) = inl e
HasIdle-snoc (u ∷ ts) t (inr (inr h)) = inr (HasIdle-snoc ts t (inr h))

HasIdle-append : (ts us : List Task) → HasIdle ts → HasIdle (ts ++ us)
HasIdle-append (t ∷ ts) us (inl e) = inl e
HasIdle-append (t ∷ ts) us (inr h) = inr (HasIdle-append ts us h)
HasIdle-append [] us h = absurd h

All-weaken : (n m : ℕ) (ts : List Task) → n ≤ m → All (λ t. t.id < n) ts → All (λ t. t.id < m) ts
All-weaken n m [] h a = tt
All-weaken n m (t ∷ ts) h a = (omega arith, All-weaken n m ts h a.1)

below-ne : (n : ℕ) (ts : List Task) → All (λ t. t.id < n) ts → All (λ t. t.id ≢ n) ts
below-ne n [] a = tt
below-ne n (t ∷ ts) a = (omega arith, below-ne n ts a.1)

IdleState-snoc :
    (b : Bool) (ts : List Task) (t : Task)
    → t.id ≢ 0
    → IdleState b ts
    → IdleState b (ts ++ (t ∷ []))
IdleState-snoc true ts t ne h = HasIdle-append ts (t ∷ []) h
IdleState-snoc false ts t ne h = All-append (λ u. u.id ≢ 0) ts (t ∷ []) h (ne, tt)

pub push_task-IsValid :
    (s : Scheduler) (t : Task)
    → IsValid s
    → t.id ≡ s.next_id
    → t.cr3 ≢ 0
    → s.next_id + 1 < 2 ^ 64
    → IsValid (push_task s t)
unfolding push_task
push_task-IsValid s t v e c small = record {
  distinct = Distinct-snoc s.tasks t v.distinct (rw e (below-ne s.next_id s.tasks v.below));
  below =
      All-append (λ u. u.id < inc_u64 s.next_id) s.tasks (t ∷ [])
        (All-weaken s.next_id (inc_u64 s.next_id) s.tasks (omega arith) v.below) (omega arith, tt);
  positive = omega arith;
  idle = IdleState-snoc s.idle_wrapped s.tasks t (omega (arith, v.positive)) v.idle;
  busy = v.busy;
  mapped = All-append (λ u. u.cr3 ≢ 0) s.tasks (t ∷ []) v.mapped (c, tt);
  active = v.active;
  cached = v.cached;
}

-- A switch to a task with a page table keeps `CURRENT_CR3` and CR3 in step, and loads that table.
pub cpu_cr3-resume :
    (s : Scheduler) (t : Task)
    → (s.current_cr3 ≡ 0) ⊎ (s.current_cr3 ≡ s.cpu_cr3)
    → t.cr3 ≢ 0
    → (resume s t).cpu_cr3 ≡ t.cr3
unfolding resume
cpu_cr3-resume s t c ne = ground arith

pub resume-IsValid : (s : Scheduler) (t : Task) → IsValid s → t.cr3 ≢ 0 → IsValid (resume s t)
unfolding resume
resume-IsValid s t v ne = record {
  distinct = v.distinct;
  below = v.below;
  positive = v.positive;
  idle = v.idle;
  busy = v.busy;
  mapped = v.mapped;
  active = rw (cpu_cr3-resume s t v.cached ne) ne;
  cached = inr (sym (cpu_cr3-resume s t v.cached ne));
}
