-- ===== src/Memory/Paging/Supply.antt =====
-- `map_in` of paging.rs returns while there are frames for the tables it may need.
use moon_os.Common.{
  ℕ, zero, suc, ◌*◌, ◌/◌, ◌%◌, ◌^◌, ◌≤◌, ◌<◌, bit_and, ◌≡◌, refl, ap, inl, inr, Bool, true, Option,
  none, some, arith, Option-cases,
}
use moon_os.Memory.Pmm.{BitmapAllocator, page_size, alloc_frame}
use moon_os.Memory.Pmm.Frames.{used, count_free, count_free-update, free_unit, IsValid}
use moon_os.Memory.Pmm.Alloc.{Allocates, full, got, alloc_lem}
use moon_os.Memory.Paging.{
  Machine, take_frame, zero_frame, write_entry, follow, fresh_table, next_table, map_in, flag_user,
  invalidate, table_entry, leaf_entry,
}

-- There are at least `n` free frames.
pub record Supplies (n : ℕ) (s : Machine) : Type 0 where
  pub allocator : BitmapAllocator
  pub initialised : s.frames ≡ some allocator
  pub valid : IsValid allocator
  pub enough : n ≤ count_free (used allocator) allocator.frame_count

count_free-full : (u : ℕ → Bool) (n : ℕ) → ((f : ℕ) → f < n → u f ≡ true) → count_free u n ≡ 0
unfolding count_free
count_free-full u zero all = refl
count_free-full u (suc n) all =
    rw (all n (omega arith)) (omega (arith, count_free-full u n (λ f h. all f (omega arith))))

-- A frame is found, and one less is left.
record Found (n : ℕ) (r : Option ℕ) (b : BitmapAllocator) : Type 0 where
  frame : ℕ
  is_it : r ≡ some frame
  valid : IsValid b
  enough : n ≤ count_free (used b) b.frame_count

Allocates-Found :
    (n : ℕ) (a : BitmapAllocator) (r : Option ℕ) (b : BitmapAllocator)
    → Allocates a r b
    → suc n ≤ count_free (used a) a.frame_count
    → Found n r b
Allocates-Found n a none b (full all) enough =
    absurd (omega (arith, count_free-full (used a) a.frame_count all))
Allocates-Found n a (some phys) b (got f h e view counter same valid) enough =
    let counted = count_free-update (used a) (used b) f true view a.frame_count h in
    let was_free = ap free_unit e in
    record {
      frame = f * page_size;
      is_it = refl;
      valid = valid;
      enough = omega (arith, counted, was_free, enough, ap (λ (m : ℕ). count_free (used b) m) same);
    }

take_frame-Supplies :
    (n : ℕ) (s : Machine)
    → Supplies (suc n) s
    → (f : ℕ) × (s1 : Machine) × (take_frame s ≡ some (f, s1)) × Supplies n s1
unfolding take_frame alloc_frame
take_frame-Supplies n s has =
    let (r, b, eq, allocates) = alloc_lem has.allocator has.valid in
    let found = Allocates-Found n has.allocator r b allocates has.enough in
    (
      found.frame,
      record s { frames = some b },
      rw (has.initialised, eq, found.is_it) refl,
      record { allocator = b; initialised = refl; valid = found.valid; enough = found.enough },
    )

next_table-Supplies :
    (n t i extra : ℕ) (s : Machine)
    → Supplies (suc n) s
    → (u : ℕ) × (s1 : Machine) × (next_table t i extra s ≡ some (u, s1)) × Supplies n s1
unfolding next_table fresh_table zero_frame write_entry
next_table-Supplies n t i extra s has = elim (Option-cases (follow s.tables t i)) [
  | inr (u, there) ↦ (
    u,
    s,
    rw (there, next_table) refl,
    record {
      allocator = has.allocator;
      initialised = has.initialised;
      valid = has.valid;
      enough = omega (arith, has.enough);
    },
  )
  | inl missing ↦
      let (f, s1, eq, left) = take_frame-Supplies n s has in
      (
        f,
        write_entry t i (table_entry f extra) (zero_frame f s1),
        rw (missing, next_table) (rw (eq, fresh_table) refl),
        record {
          allocator = left.allocator;
          initialised = left.initialised;
          valid = left.valid;
          enough = left.enough;
        },
      )
]

-- With three free frames, as many tables as one page can need, `map_in` returns: it does not panic,
-- whatever the tables are.
pub map_in-returns :
    (root virt phys flags : ℕ) (s : Machine)
    → Supplies 3 s
    → (s' : Machine) × (map_in root virt phys flags s ≡ some s')
unfolding map_in invalidate write_entry
map_in-returns root virt phys flags s has =
    let (pdpt, s1, e1, h1) =
      next_table-Supplies 2 root (virt / 2 ^ 39 % 512) (bit_and flags flag_user) s has in
    let (pd, s2, e2, h2) =
      next_table-Supplies 1 pdpt (virt / 2 ^ 30 % 512) (bit_and flags flag_user) s1 h1 in
    let (pt, s3, e3, h3) =
      next_table-Supplies 0 pd (virt / 2 ^ 21 % 512) (bit_and flags flag_user) s2 h2 in
    (
      invalidate root virt (write_entry pt (virt / 2 ^ 12 % 512) (leaf_entry phys flags) s3),
      rw (e1, e2, e3) refl,
    )
