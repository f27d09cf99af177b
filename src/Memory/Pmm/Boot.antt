-- ===== src/Memory/Pmm/Boot.antt =====
-- `init` of pmm.rs: which frames are free after boot.
use moon_os.Common.{
  ℕ, zero, suc, ◌+◌, ◌-◌, ◌*◌, ◌/◌, ◌%◌, ◌^◌, ◌≤◌, ◌<◌, max, ◌≡◌, refl, sym, ap, ◌∙◌, subst, inl,
  inr, Bool, true, false, ◌&&◌, ◌||◌, not, some, List, [], ◌∷◌, arith, dec_le, ltb, leb,
  if◌then◌else◌, true≢false, Bool-cases, length, get_or, replicate, length-replicate, All,
}
use moon_os.Common.Bits.{test_bit, all_below, all_below_sound}
use moon_os.Memory.Pmm.{
  BitmapAllocator, MemmapEntry, max_addr, find_bitmap, free_usable, init, mark_range_free,
  mark_range_used, add_u64, div_ceil, page_size,
}
use moon_os.Memory.Pmm.Frames.{used, used_in, count_free, IsValid}
use moon_os.Memory.Pmm.Range.{Ranged, mark_frames_lem}

-- Limine's promise for a usable entry: page-aligned, and inside the address space.
pub record IsAligned (e : MemmapEntry) : Type 0 where
  pub base : e.usable ≡ true → e.base % page_size ≡ 0
  pub length : e.usable ≡ true → e.length % page_size ≡ 0
  pub top : e.usable ≡ true → e.base + e.length < 2 ^ 60

-- Frame `f` lies in a usable entry.
abbrev pub in_usable : List MemmapEntry → ℕ → Bool
in_usable [] f = false
in_usable (e ∷ es) f =
    (e.usable && (leb (e.base / page_size) f && ltb f ((e.base + e.length) / page_size)))
    || in_usable es f

-- The frames that hold the bitmap itself.
abbrev pub in_bitmap : ℕ → ℕ → ℕ → Bool
in_bitmap phys bytes f = leb (phys / page_size) f && ltb f (div_ceil (phys + bytes) page_size)

-- The end of every usable entry is at most `top`.
abbrev Below : ℕ → List MemmapEntry → Type 0
Below top es = All (λ e. e.usable ≡ true → e.base + e.length ≤ top) es

abbrev next_top : (acc : ℕ) (e : MemmapEntry) → ℕ
next_top acc e = if e.usable then max acc (add_u64 e.base e.length) else acc

next_top_laws :
    (acc : ℕ) (e : MemmapEntry)
    → IsAligned e
    → acc % page_size ≡ 0
    → acc < 2 ^ 60
    → (acc ≤ next_top acc e)
      × (e.usable ≡ true → e.base + e.length ≤ next_top acc e)
      × (next_top acc e % page_size ≡ 0)
      × (next_top acc e < 2 ^ 60)
next_top_laws acc e h m lt = elim (Bool-cases e.usable) [
  | inl u ↦ rw u (omega arith, λ _. omega (arith, h.top u), aligned_max u, omega (arith, h.top u))
  | inr u ↦ rw u (omega arith, λ q. absurd (true≢false (sym q)), m, lt)
]
  where
    aligned_max : e.usable ≡ true → max acc (add_u64 e.base e.length) % page_size ≡ 0
    aligned_max u = elim (dec_le acc (e.base + e.length)) [
      | yes le ↦ omega (arith, h.top u, h.base u, h.length u)
      | no nle ↦ omega (arith, h.top u)
    ]

record TopLaws (acc : ℕ) (es : List MemmapEntry) : Type 0 where
  above : acc ≤ max_addr acc es
  below : Below (max_addr acc es) es
  whole : max_addr acc es % page_size ≡ 0
  fits : max_addr acc es < 2 ^ 60

max_addr-TopLaws :
    (es : List MemmapEntry) (acc : ℕ)
    → All IsAligned es
    → acc % page_size ≡ 0
    → acc < 2 ^ 60
    → TopLaws acc es
unfolding max_addr
max_addr-TopLaws [] acc h m lt = record { above = omega arith; below = tt; whole = m; fits = lt }
max_addr-TopLaws (e ∷ es) acc h m lt =
    let n = next_top_laws acc e h.0 m lt in
    let t = max_addr-TopLaws es (next_top acc e) h.1 n.2 n.3 in
    record {
      above = omega (arith, n.0, t.above);
      below = (λ u. omega (arith, n.1 u, t.above), t.below);
      whole = t.whole;
      fits = t.fits;
    }

replicate-get_or : (n i : ℕ) → ◌≡◌ {A = ℕ} (get_or (replicate n 255) i 255) 255
replicate-get_or zero i = refl
replicate-get_or (suc n) zero = refl
replicate-get_or (suc n) (suc i) = replicate-get_or n i

ones_table : all_below 8 (λ k. test_bit 255 k) ≡ true
unfolding all_below
ones_table = refl

replicate-used : (n f : ℕ) → used_in (replicate n 255) f ≡ true
replicate-used n f =
    rw (replicate-get_or n (f / 8))
      (all_below_sound 8 (λ k. test_bit 255 k) (f % 8) ones_table (omega arith))

-- A usable entry's frames, marked free.
mark_range_free_lem :
    (a : BitmapAllocator) (e : MemmapEntry)
    → IsValid a
    → e.base + e.length < 2 ^ 60
    → e.base + e.length ≤ a.frame_count * page_size
    → (b : BitmapAllocator) × (mark_range_free a e.base e.length ≡ some b)
      × Ranged a b (e.base / page_size) ((e.base + e.length) / page_size) false
unfolding mark_range_free
mark_range_free_lem a e v h t = rw wide (
    mark_frames_lem ((e.base + e.length) / page_size - e.base / page_size) (e.base / page_size)
      ((e.base + e.length) / page_size) false a v (omega arith) (omega (arith, v.room)))
  where
    wide : add_u64 e.base e.length ≡ e.base + e.length
    wide = omega arith

-- The frames of the bytes from `base`, marked used.
mark_range_used_lem :
    (a : BitmapAllocator) (base len : ℕ)
    → IsValid a
    → base + len < 2 ^ 60
    → div_ceil (base + len) page_size ≤ 8 * length a.bitmap
    → (b : BitmapAllocator) × (mark_range_used a base len ≡ some b)
      × Ranged a b (base / page_size) (div_ceil (base + len) page_size) true
unfolding mark_range_used
mark_range_used_lem a base len v h t = rw wide (
    mark_frames_lem (div_ceil (base + len) page_size - base / page_size) (base / page_size)
      (div_ceil (base + len) page_size) true a v (ground arith) t)
  where
    wide : add_u64 base len ≡ base + len
    wide = omega arith

free_usable_lem :
    (es : List MemmapEntry) (a : BitmapAllocator)
    → IsValid a
    → All IsAligned es
    → Below (a.frame_count * page_size) es
    → (b : BitmapAllocator) × (free_usable es a ≡ some b)
      × IsValid b
      × ((j : ℕ) → used b j ≡ (not (in_usable es j) && used a j))
      × (b.frame_count ≡ a.frame_count)
      × (length b.bitmap ≡ length a.bitmap)
unfolding free_usable
free_usable_lem [] a v h t = (a, refl, v, λ j. refl, refl, refl)
free_usable_lem (e ∷ es) a v h t = elim (Bool-cases e.usable) [
  | inr u ↦ rw u (free_usable_lem es a v h.1 t.1)
  | inl u ↦
      let (c, eq, r) = mark_range_free_lem a e v (h.0.top u) (t.0 u) in
      let (b, eq', v', view, fr, sz) =
        free_usable_lem es c r.valid h.1
          (subst (λ n. Below (n * page_size) es) (sym r.frames) t.1) in
      (
        b,
        rw (u, eq) eq',
        v',
        λ j. rw u (ground (arith, view j, r.view j)),
        fr ∙ r.frames,
        sz ∙ r.size,
      )
]

find_bitmap_lem :
    (bytes phys top : ℕ) (es : List MemmapEntry)
    → Below top es
    → find_bitmap bytes es ≡ some phys
    → phys + bytes ≤ top
unfolding find_bitmap
find_bitmap_lem bytes phys top [] t e = cc
find_bitmap_lem bytes phys top (x ∷ es) t e =
    ground (arith, t.0, find_bitmap_lem bytes phys top es t.1)

fresh : ℕ → ℕ → BitmapAllocator
fresh frame_count bytes = record {
  bitmap = replicate bytes 255;
  frame_count = frame_count;
  free_frames = 0;
  next_hint = 0;
}

all_used_count : (n bytes : ℕ) → count_free (used_in (replicate bytes 255)) n ≡ 0
unfolding count_free
all_used_count zero bytes = refl
all_used_count (suc n) bytes = rw (replicate-used bytes n) (omega (arith, all_used_count n bytes))

All-replicate : (n : ℕ) → All (λ b. b < 256) (replicate n 255)
All-replicate zero = tt
All-replicate (suc n) = (omega arith, All-replicate n)

fresh-IsValid : (n bytes : ℕ) → n ≤ 8 * bytes → bytes ≤ 2 ^ 56 → IsValid (fresh n bytes)
unfolding fresh
fresh-IsValid n bytes room small = record {
  bytes = All-replicate bytes;
  counted = sym (all_used_count (8 * length (replicate bytes 255)) bytes);
  small = rw (length-replicate {A = ℕ} bytes 255) small;
  room = rw (length-replicate {A = ℕ} bytes 255) room;
  hint = omega arith;
}

-- The frames that the boot leaves free, at the sizes that `init` computes.
abbrev boot_frames : List MemmapEntry → ℕ
boot_frames memmap = max_addr 0 memmap / page_size

abbrev pub boot_bytes : List MemmapEntry → ℕ
boot_bytes memmap = div_ceil (boot_frames memmap) 8

-- If some usable entry of a page-aligned memory map can hold the bitmap, `init` does not panic, the
-- allocator is valid, and a frame is free exactly if it lies in a usable entry and does not hold the
-- bitmap.
pub init_lem :
    (memmap : List MemmapEntry) (phys : ℕ)
    → All IsAligned memmap
    → find_bitmap (boot_bytes memmap) memmap ≡ some phys
    → (a : BitmapAllocator) × (init memmap ≡ some a)
      × IsValid a
      × ((f : ℕ) → used a f ≡ (in_bitmap phys (boot_bytes memmap) f || not (in_usable memmap f)))
unfolding init fresh
init_lem memmap phys h e =
    let (b, eq, v, view, fr, sz) =
      free_usable_lem memmap (fresh (boot_frames memmap) (boot_bytes memmap)) valid h below in
    let (c, eq', r) =
      mark_range_used_lem b phys (boot_bytes memmap) v (omega (arith, held, top.fits))
        (omega (arith, end_in, reach, sz, length-replicate {A = ℕ} (boot_bytes memmap) 255)) in
    (
      c,
      rw (e, eq) eq',
      r.valid,
      λ f.
          join_views (leb (phys / page_size) f && ltb f end) (in_usable memmap f) (r.view f) (
            view f
            ∙ ap (λ u. not (in_usable memmap f) && u) (replicate-used (boot_bytes memmap) f)),
    )
  where
    end : ℕ
    end = div_ceil (phys + boot_bytes memmap) page_size

    top : TopLaws 0 memmap
    top = max_addr-TopLaws memmap 0 h refl (omega arith)

    whole : boot_frames memmap * page_size ≡ max_addr 0 memmap
    whole = omega (arith, top.whole)

    held : phys + boot_bytes memmap ≤ max_addr 0 memmap
    held = find_bitmap_lem (boot_bytes memmap) phys (max_addr 0 memmap) memmap top.below e

    size : 8 * boot_bytes memmap < boot_frames memmap + 8
    size = ground arith

    reach : boot_frames memmap ≤ 8 * boot_bytes memmap
    reach = ground arith

    end_in : end ≤ boot_frames memmap
    end_in = ground (arith, whole, held)

    join_views :
        (held usable : Bool) {x y : Bool}
        → x ≡ (if held then true else y)
        → y ≡ (not usable && true)
        → x ≡ (held || not usable)
    join_views true usable p q = p
    join_views false true p q = p ∙ q
    join_views false false p q = p ∙ q

    valid : IsValid (fresh (boot_frames memmap) (boot_bytes memmap))
    valid =
        fresh-IsValid (boot_frames memmap) (boot_bytes memmap) reach (omega (arith, size, top.fits))

    below : Below (boot_frames memmap * page_size) memmap
    below = subst (λ n. Below n memmap) (sym whole) top.below
