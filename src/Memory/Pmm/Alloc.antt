-- ===== src/Memory/Pmm/Alloc.antt =====
-- `alloc`, `free` and the range operations of pmm.rs, against the view of frame by frame.
use moon_os.Common.{
  ℕ, zero, suc, ◌+◌, ◌-◌, ◌*◌, ◌/◌, ◌%◌, ◌^◌, ◌<◌, ◌≡◌, refl, sym, ◌∙◌, subst, inl, inr, true,
  false, Option, none, some, arith, dec_le, ℕ_discrete, ◌==◌, if◌then◌else◌, Bool-cases, length,
}
use native.Mathlib.Nat.{mod-lt, mod-eq_of_lt, add-mod_right}
use moon_os.Memory.Pmm.{BitmapAllocator, alloc_from, alloc, free, add_u64, page_size, take_frame}
use moon_os.Memory.Pmm.Frames.{used, IsValid, is_free_lem, mark_lem}

-- What `alloc` promises.
pub data Allocates (a : BitmapAllocator) : Option ℕ → BitmapAllocator → Type 0 where
  full : ((f : ℕ) → f < a.frame_count → used a f ≡ true) → Allocates a none a
  got :
      {b : BitmapAllocator} (f : ℕ)
      → f < a.frame_count
      → used a f ≡ false
      → ((j : ℕ) → used b j ≡ (if j == f then true else used a j))
      → b.free_frames + 1 ≡ a.free_frames
      → b.frame_count ≡ a.frame_count
      → IsValid b
      → Allocates a (some (f * page_size)) b

-- The frame that round `offset` of the loop looks at.
abbrev probe : BitmapAllocator → ℕ → ℕ
probe a offset = add_u64 a.next_hint offset % a.frame_count

probe-lt : (a : BitmapAllocator) (k : ℕ) → IsValid a → k < a.frame_count → probe a k < a.frame_count
probe-lt a k v h = mod-lt _ (omega arith)

-- Every frame is looked at.
probe_onto :
    (a : BitmapAllocator) (f : ℕ)
    → IsValid a
    → f < a.frame_count
    → (k : ℕ) × (k < a.frame_count) × (probe a k ≡ f)
probe_onto a f v h = elim (dec_le a.next_hint f) [
  | yes le ↦ (
    f - a.next_hint,
    omega arith,
    rw (no_wrap (f - a.next_hint) f (omega arith) (omega (arith, v.room, v.small)))
        (mod-eq_of_lt h),
  )
  | no nle ↦ (
    f + a.frame_count - a.next_hint,
    omega arith,
    rw
        (no_wrap (f + a.frame_count - a.next_hint) (f + a.frame_count) (omega (arith, v.hint))
          (omega (arith, v.room, v.small)))
        (add-mod_right f a.frame_count ∙ mod-eq_of_lt h),
  )
]
  where
    no_wrap : (k s : ℕ) → a.next_hint + k ≡ s → s < 2 ^ 64 → add_u64 a.next_hint k ≡ s
    no_wrap k s e lt = omega arith

-- A free frame is taken.
take_frame_lem :
    (a : BitmapAllocator) (f : ℕ)
    → IsValid a
    → f < a.frame_count
    → used a f ≡ false
    → (b : BitmapAllocator) × (take_frame a f ≡ some (some (f * page_size), b))
      × Allocates a (some (f * page_size)) b
unfolding take_frame
take_frame_lem a f v h e =
    let (b, eq, m) = mark_lem a f true v (omega (arith, v.room)) in
    (
      record b { next_hint = f + 1 },
      rw eq,
      got f h e m.view (ground (arith, m.counter)) m.frames (record {
        bytes = m.valid.bytes;
        counted = m.valid.counted;
        small = m.valid.small;
        room = m.valid.room;
        hint = omega (arith, m.frames);
      }),
    )

alloc_from_lem :
    (n k : ℕ) (a : BitmapAllocator)
    → IsValid a
    → n + k ≡ a.frame_count
    → ((i : ℕ) → i < k → used a (probe a i) ≡ true)
    → (r : Option ℕ) × (b : BitmapAllocator) × (alloc_from n k a ≡ some (r, b)) × Allocates a r b
unfolding alloc_from
alloc_from_lem zero k a v e seen = (
  none,
  a,
  refl,
  full λ f h.
      let (i, lt, eq) = probe_onto a f v h in
      subst (λ t. used a t ≡ true) eq (seen i (omega arith)),
)
alloc_from_lem (suc n) k a v e seen = elim (Bool-cases (used a (probe a k))) [
  | inl u ↦
      rw (is_free_lem a (probe a k) in_bitmap, u)
        (alloc_from_lem n (k + 1) a v (omega arith) λ i lt. elim (ℕ_discrete i k) [
          | yes eq ↦ subst (λ t. used a (probe a t) ≡ true) (sym eq) u
          | no ne ↦ seen i (omega arith)
        ])
  | inr u ↦
      let (b, eq, al) = take_frame_lem a (probe a k) v (probe-lt a k v (omega arith)) u in
      (some (probe a k * page_size), b, rw (is_free_lem a (probe a k) in_bitmap, u) eq, al)
]
  where
    in_bitmap : probe a k < 8 * length a.bitmap
    in_bitmap = omega (arith, probe-lt a k v (omega arith), v.room)

-- `alloc` of a valid allocator does not panic. It returns `none` only if every frame is used, and
-- otherwise the address of a frame that was free: then exactly that frame becomes used, the counter
-- falls by one, and the allocator stays valid.
pub alloc_lem :
    (a : BitmapAllocator)
    → IsValid a
    → (r : Option ℕ) × (b : BitmapAllocator) × (alloc a ≡ some (r, b)) × Allocates a r b
unfolding alloc
alloc_lem a v = alloc_from_lem a.frame_count 0 a v (omega arith) (λ i h. elim h [ ])

-- In a valid allocator, `free` of an address inside a frame in use does not panic, makes exactly
-- that frame free, raises the counter by one, and keeps the allocator valid.
free_lem :
    (a : BitmapAllocator) (phys : ℕ)
    → IsValid a
    → phys / page_size < a.frame_count
    → used a (phys / page_size) ≡ true
    → (b : BitmapAllocator) × (free a phys ≡ some b)
      × IsValid b
      × ((j : ℕ) → used b j ≡ (if j == phys / page_size then false else used a j))
      × (b.free_frames ≡ a.free_frames + 1)
unfolding free
free_lem a phys v h u =
    let (b, eq, m) = mark_lem a (phys / page_size) false v (omega (arith, v.room)) in
    (b, eq, m.valid, m.view, ground (arith, m.counter))
