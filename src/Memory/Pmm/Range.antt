-- ===== src/Memory/Pmm/Range.antt =====
-- Runs of frames in pmm.rs: `mark_frames`, and `alloc_contiguous` with its scan for a free run.
use moon_os.Common.{
  ℕ, zero, suc, ◌+◌, ◌-◌, ◌*◌, ◌≤◌, ◌<◌, ◌≡◌, refl, sym, ap, ◌∙◌, subst, ◌≢◌, ◌⊎◌, inl, inr, Bool,
  true, false, ◌&&◌, Option, none, some, arith, dec_le, ℕ_discrete, ltb, leb, if◌then◌else◌, ==_iff,
  ==-ne, true≢false, Bool-cases, length,
}
use moon_os.Memory.Pmm.{
  BitmapAllocator, begin_run, mark_frames, find_run, alloc_contiguous, page_size,
}
use moon_os.Memory.Pmm.Frames.{used, IsValid, is_free_lem, mark_lem}

-- `b` is `a` with the frames from `s` up to `e` marked as `u`.
pub record Ranged (a b : BitmapAllocator) (s e : ℕ) (u : Bool) : Type 0 where
  pub valid : IsValid b
  pub view : (j : ℕ) → used b j ≡ (if leb s j && ltb j e then u else used a j)
  pub frames : b.frame_count ≡ a.frame_count
  pub size : length b.bitmap ≡ length a.bitmap

pub mark_frames_lem :
    (n s e : ℕ) (u : Bool) (a : BitmapAllocator)
    → IsValid a
    → s + n ≡ e
    → e ≤ 8 * length a.bitmap
    → (b : BitmapAllocator) × (mark_frames n s u a ≡ some b) × Ranged a b s e u
unfolding mark_frames
mark_frames_lem zero s e u a v q h =
    (a, refl, record { valid = v; view = λ j. ground arith; frames = refl; size = refl })
mark_frames_lem (suc n) s e u a v q h =
    let (c, eq, m) = mark_lem a s u v (omega arith) in
    let (b, eq', r) =
      mark_frames_lem n (s + 1) e u c m.valid (omega arith) (omega (arith, m.size)) in
    (
      b,
      rw eq eq',
      record {
        valid = r.valid;
        view = λ j. ground (arith, r.view j, m.view j);
        frames = r.frames ∙ m.frames;
        size = r.size ∙ m.size;
      },
    )

-- The frames from `s` up to `e` are free.
abbrev AllFree : BitmapAllocator → ℕ → ℕ → Type 0
AllFree a s e = (j : ℕ) → s ≤ j → j < e → used a j ≡ false

-- No run of `count` free frames ends at `e` or before.
abbrev NoRun : BitmapAllocator → ℕ → ℕ → Type 0
NoRun a count e = (t : ℕ) → t + count ≤ e → ¬ AllFree a t (t + count)

module _ (a : BitmapAllocator) (v : IsValid a) (count : ℕ) (pos : 0 < count) where
  -- The loop's state at `frame`: the run that it is in began at `s`, after a used frame.
  record Scan (s frame run_len : ℕ) (run_start : Option ℕ) : Type 0 where
    start : ((run_start ≡ none) × (run_len ≡ 0)) ⊎ (run_start ≡ some s)
    here : s + run_len ≡ frame
    short : run_len < count
    run : AllFree a s frame
    before : (s ≡ 0) ⊎ (used a (s - 1) ≡ true)
    no_run : NoRun a count frame

  data Finds : Option ℕ → Type 0 where
    found : (s : ℕ) → s + count ≤ a.frame_count → AllFree a s (s + count) → Finds (some s)
    missing : NoRun a count a.frame_count → Finds none

  Scan-used :
      {s f l : ℕ} {r : Option ℕ} → Scan s f l r → used a f ≡ true → Scan (f + 1) (f + 1) 0 none
  Scan-used {s} {f} {l} sc u = record {
    start = inl (refl, refl);
    here = omega arith;
    short = pos;
    run = λ j p q. absurd (omega arith);
    before = inr (let e : f + 1 - 1 ≡ f = omega arith in rw e u);
    no_run = λ t le all. elim (dec_le (t + count) f) [
      | yes h ↦ sc.no_run t h all
      | no h ↦ true≢false (sym u ∙ all f (omega arith) (omega arith))
    ];
  }

  Scan-run : {s f l : ℕ} {r : Option ℕ} → Scan s f l r → used a f ≡ false → AllFree a s (f + 1)
  Scan-run {s} {f} sc u j p q = elim (ℕ_discrete j f) [
    | yes e ↦ rw e u
    | no ne ↦ sc.run j p (omega arith)
  ]

  Scan-free :
      {s f l : ℕ} {r : Option ℕ}
      → Scan s f l r
      → used a f ≡ false
      → l + 1 ≢ count
      → Scan s (f + 1) (l + 1) (some s)
  Scan-free {s} {f} {l} sc u ne = record {
    start = inr refl;
    here = omega (arith, sc.here);
    short = omega (arith, sc.short);
    run = Scan-run sc u;
    before = sc.before;
    no_run = λ t le all. elim (dec_le (t + count) f) [
      | yes h ↦ sc.no_run t h all
      | no h ↦ blocked t (omega arith) all sc.before
    ];
  }
    where
      blocked :
          (t : ℕ)
          → t + count ≡ f + 1
          → AllFree a t (t + count)
          → (s ≡ 0) ⊎ (used a (s - 1) ≡ true)
          → ⊥
      blocked t e all (inl z) = absurd (omega (arith, sc.here, sc.short))
      blocked t e all (inr w) = true≢false (
          sym w ∙ all (s - 1) (omega (arith, sc.here, sc.short)) (omega (arith, sc.here, sc.short)))

  begin_run_lem : {s f l : ℕ} {r : Option ℕ} → Scan s f l r → begin_run r f ≡ some s
  unfolding begin_run
  begin_run_lem {s} {f} {l} {r} sc = elim sc.start [
    | inl (e, z) ↦ rw (e, begin_run) (ap some (omega (arith, sc.here)))
    | inr e ↦ rw (e, begin_run)
  ]

  find_run_lem :
      (n f s l : ℕ) (r : Option ℕ)
      → n + f ≡ a.frame_count
      → Scan s f l r
      → (o : Option ℕ) × (find_run n f r l count a ≡ some o) × Finds o
  unfolding find_run
  find_run_lem zero f s l r e sc =
      (none, refl, missing (subst (NoRun a count) (omega arith) sc.no_run))
  find_run_lem (suc n) f s l r e sc = elim (Bool-cases (used a f)) [
    | inl u ↦
        rw (is_free_lem a f reach, u)
          (find_run_lem n (f + 1) (f + 1) 0 none (omega arith) (Scan-used sc u))
    | inr u ↦ elim (ℕ_discrete (l + 1) count) [
      | yes q ↦ (
        some s,
        rw (is_free_lem a f reach, u, begin_run_lem sc, (==_iff (l + 1) count).1 q),
        found s (omega (arith, sc.here))
            (subst (AllFree a s) (omega (arith, sc.here)) (Scan-run sc u)),
      )
      | no q ↦
          rw (is_free_lem a f reach, u, begin_run_lem sc, ==-ne (l + 1) count q)
            (find_run_lem n (f + 1) s (l + 1) (some s) (omega arith) (Scan-free sc u q))
    ]
  ]
    where
      reach : f < 8 * length a.bitmap
      reach = omega (arith, v.room)

-- What `alloc_contiguous` promises.
pub data AllocatesRun (a : BitmapAllocator) (count : ℕ) : Option ℕ → BitmapAllocator → Type 0 where
  full : NoRun a count a.frame_count → AllocatesRun a count none a
  got :
      {b : BitmapAllocator} (s : ℕ)
      → s + count ≤ a.frame_count
      → AllFree a s (s + count)
      → Ranged a b s (s + count) true
      → AllocatesRun a count (some (s * page_size)) b

-- `alloc_contiguous` of a positive count does not panic. It returns `none` only if no run of `count`
-- consecutive frames is free, and otherwise the address of such a run, which is then marked used and
-- nothing else is.
pub alloc_contiguous_lem :
    (a : BitmapAllocator) (count : ℕ)
    → IsValid a
    → 0 < count
    → (r : Option ℕ) × (b : BitmapAllocator) × (alloc_contiguous a count ≡ some (r, b))
      × AllocatesRun a count r b
unfolding alloc_contiguous
alloc_contiguous_lem a count v pos =
    let (o, eq, f) = find_run_lem a v count pos a.frame_count 0 0 0 none (omega arith) first in
    finish o eq f
  where
    first : Scan a v count pos 0 0 0 none
    first = record {
      start = inl (refl, refl);
      here = refl;
      short = pos;
      run = λ j p q. absurd (omega arith);
      before = inl refl;
      no_run = λ t le all. absurd (omega arith);
    }

    finish :
        (o : Option ℕ)
        → find_run a.frame_count 0 none 0 count a ≡ some o
        → Finds a v count pos o
        → (r : Option ℕ) × (b : BitmapAllocator) × (alloc_contiguous a count ≡ some (r, b))
          × AllocatesRun a count r b
    finish none eq (missing m) = (none, a, rw (==-ne count 0 (omega arith), eq), full m)
    finish (some s) eq (found _ le all) =
        let (b, eq', r) =
          mark_frames_lem count s (s + count) true a v refl (omega (arith, v.room)) in
        (some (s * page_size), b, rw (==-ne count 0 (omega arith), eq) (rw eq'), got s le all r)
