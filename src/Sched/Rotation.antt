-- ===== src/Sched/Rotation.antt =====
-- Round robin: what a tick, and a round of ticks, does to the queue of sched.rs.
use moon_os.Common.{
  ℕ, suc, ◌≡◌, refl, sym, ap, ap₂, ◌∙◌, subst, ◌≢◌, true, List, [], ◌∷◌, ◌++◌, map, append-nil,
  append_assoc, arith, length, take, drop, All,
}
use moon_os.Sched.{
  Task, Scheduler, on_timer_tick, tick_tasks, save, count_busy, rotate, switch_front, resume,
}
use moon_os.Sched.Valid.{IsValid, cpu_cr3-resume}

abbrev pub saved : Task → ℕ → Task
saved t frame = record t { sp = frame }

-- Once the idle task is in the queue, a tick saves the frame in the front task, moves that task to the
-- back, and resumes the next task: it returns that task's saved frame, and loads its page table and
-- kernel stack.
on_timer_tick_lem :
    (s : Scheduler) (t u : Task) (ts : List Task) (frame : ℕ)
    → IsValid s
    → s.idle_wrapped ≡ true
    → s.tasks ≡ t ∷ u ∷ ts
    → ((on_timer_tick s frame).1 ≡ u.sp)
      × ((on_timer_tick s frame).0.tasks ≡ u ∷ ts ++ (saved t frame ∷ []))
      × ((on_timer_tick s frame).0.cpu_cr3 ≡ u.cr3)
      × ((on_timer_tick s frame).0.rsp0 ≡ u.kernel_stack_top)
unfolding on_timer_tick
on_timer_tick_lem s t u ts frame v w e =
    rw (e, w, tick_tasks)
      (refl, refl, cpu_cr3-resume s u v.cached (subst (All (λ t. t.cr3 ≢ 0)) e v.mapped).1.0, refl)

-- The ticks at the given frames, with the frames that they return.
pub run_ticks : Scheduler → List ℕ → Scheduler × List ℕ
run_ticks s [] = (s, [])
run_ticks s (f ∷ fs) =
    let (s', out) = on_timer_tick s f in let (s'', outs) = run_ticks s' fs in (s'', out ∷ outs)

-- The saved frame of the task at the front.
abbrev front_sp : List Task → ℕ → ℕ
front_sp [] frame = frame
front_sp (t ∷ ts) frame = t.sp

switch_front_sp :
    (s : Scheduler) (ts : List Task) (frame : ℕ)
    → ((switch_front s ts frame).1 ≡ front_sp ts frame)
      × ((switch_front s ts frame).0.tasks ≡ s.tasks)
      × ((switch_front s ts frame).0.idle_wrapped ≡ s.idle_wrapped)
unfolding switch_front resume
switch_front_sp s [] frame = (refl, refl, refl)
switch_front_sp s (t ∷ ts) frame = (refl, refl, refl)

tick_queue :
    (s : Scheduler) (t : Task) (ts : List Task) (frame : ℕ)
    → s.idle_wrapped ≡ true
    → s.tasks ≡ t ∷ ts
    → ((on_timer_tick s frame).1 ≡ front_sp (ts ++ (saved t frame ∷ [])) frame)
      × ((on_timer_tick s frame).0.tasks ≡ ts ++ (saved t frame ∷ []))
      × ((on_timer_tick s frame).0.idle_wrapped ≡ true)
unfolding on_timer_tick save count_busy rotate tick_tasks
tick_queue s t ts frame w e =
    rw (e, w, tick_tasks) (switch_front_sp _ (ts ++ (saved t frame ∷ [])) frame)

-- Each task with the frame that the tick that interrupts it finds.
abbrev save_all : List Task → List ℕ → List Task
save_all [] fs = []
save_all (t ∷ ts) [] = []
save_all (t ∷ ts) (f ∷ fs) = saved t f ∷ save_all ts fs

-- The saved frames from the second task on, at most `n` of them.
abbrev next_frames : ℕ → List Task → List ℕ
next_frames n ts = take n (map (λ t. t.sp) (drop 1 ts))

front-next_frames :
    (n : ℕ) (ts us : List Task) (t : Task) (f : ℕ)
    → front_sp (ts ++ (t ∷ [])) f ∷ next_frames n ((ts ++ (t ∷ [])) ++ us)
      ≡ take (suc n) (map (λ t. t.sp) ((ts ++ (t ∷ [])) ++ us))
front-next_frames n [] us t f = refl
front-next_frames n (u ∷ ts) us t f = refl

run_ticks_lem :
    (fs : List ℕ) (xs ys : List Task) (s : Scheduler)
    → s.idle_wrapped ≡ true
    → s.tasks ≡ xs ++ ys
    → length fs ≡ length xs
    → ((run_ticks s fs).0.tasks ≡ ys ++ save_all xs fs)
      × ((run_ticks s fs).1 ≡ next_frames (length fs) (xs ++ ys ++ save_all xs fs))
unfolding run_ticks
run_ticks_lem [] [] ys s w e l = (e ∙ sym (append-nil ys), refl)
run_ticks_lem [] (x ∷ xs) ys s w e l = absurd (omega arith)
run_ticks_lem (f ∷ fs) [] ys s w e l = absurd (omega arith)
run_ticks_lem (f ∷ fs) (x ∷ xs) ys s w e l =
    let (out, queue, idle) = tick_queue s x (xs ++ ys) f w e in
    let (queue', outs) =
      run_ticks_lem fs xs (ys ++ (saved x f ∷ [])) (on_timer_tick s f).0 idle
        (queue ∙ append_assoc xs ys (saved x f ∷ [])) (omega arith) in
    (
      queue' ∙ append_assoc ys (saved x f ∷ []) (save_all xs fs),
      ap₂ ◌∷◌ out (
            outs
            ∙ ap (λ l. next_frames (length fs) (l ++ save_all xs fs))
                (sym (append_assoc xs ys (saved x f ∷ []))))
          ∙ front-next_frames (length fs) (xs ++ ys) (save_all xs fs) (saved x f) f
          ∙ ap (λ l. take (suc (length fs)) (map (λ (t : Task). t.sp) l))
              (append_assoc (xs ++ ys) (saved x f ∷ []) (save_all xs fs)),
    )

-- Once the idle task is in the queue, a round of as many ticks as there are tasks resumes every
-- task once, in the order of the queue, at the frame that was saved for it; afterwards the queue is
-- in its old order, with the new frames.
pub round_lem :
    (s : Scheduler) (fs : List ℕ)
    → s.idle_wrapped ≡ true
    → length fs ≡ length s.tasks
    → ((run_ticks s fs).0.tasks ≡ save_all s.tasks fs)
      × ((run_ticks s fs).1 ≡ next_frames (length fs) (s.tasks ++ save_all s.tasks fs))
round_lem s fs w l =
    let (queue, outs) = run_ticks_lem fs s.tasks [] s w (sym (append-nil s.tasks)) l in
    (
      queue,
      outs ∙ ap (λ l. next_frames (length fs) (l ++ save_all s.tasks fs)) (append-nil s.tasks),
    )
