-- ===== src/Memory/Pmm.antt =====
-- kernel/src/memory/pmm.rs, the bitmap allocator of physical frames. A result `none` is a panic: an
-- index out of bounds, or a failed `expect`. Words are u64, and their arithmetic wraps.
pub mod Frames
pub mod Alloc
pub mod Range
pub mod Boot
mod Tests
use moon_os.Common.{
  ℕ, zero, suc, ◌+◌, ◌-◌, ◌*◌, ◌/◌, ◌%◌, ◌^◌, max, Bool, true, false, ◌&&◌, not, Option, none, some,
  List, [], ◌∷◌, leb, ◌==◌, if◌then◌else◌, ◌>>=◌, get_elem?, set, replicate,
}
use moon_os.Common.Bits.{test_bit, set_bit, clear_bit}

abbrev pub page_size : ℕ
page_size = 4096

pub record BitmapAllocator : Type 0 where
  pub bitmap : List ℕ
  pub frame_count : ℕ
  pub free_frames : ℕ
  pub next_hint : ℕ

abbrev pub add_u64 : ℕ → ℕ → ℕ
add_u64 a b = (a + b) % 2 ^ 64

-- `u64::div_ceil`.
abbrev pub div_ceil : ℕ → ℕ → ℕ
div_ceil n d = n / d + (if n % d == 0 then 0 else 1)

-- The counter's update: `was_used`, then `used`.
pub recount : Bool → Bool → ℕ → ℕ
recount false true n = (n + 2 ^ 64 - 1) % 2 ^ 64
recount true false n = add_u64 n 1
recount _ _ n = n

unfoldable pub mark : BitmapAllocator → ℕ → Bool → Option BitmapAllocator
unfolding recount
mark a frame used = do
  byte ← get_elem? a.bitmap (frame / 8)
  some (record a {
    bitmap =
        set a.bitmap (frame / 8)
          (if used then set_bit byte (frame % 8) else clear_bit byte (frame % 8));
    free_frames = recount (test_bit byte (frame % 8)) used a.free_frames;
  })

unfoldable pub is_free : BitmapAllocator → ℕ → Option Bool
is_free a frame = do byte ← get_elem? a.bitmap (frame / 8); some (not (test_bit byte (frame % 8)))

-- `for frame in start..start + n { self.mark(frame, used) }`.
pub mark_frames : ℕ → ℕ → Bool → BitmapAllocator → Option BitmapAllocator
mark_frames zero start used a = some a
mark_frames (suc n) start used a = mark a start used >>= mark_frames n (start + 1) used

pub mark_range_free : BitmapAllocator → ℕ → ℕ → Option BitmapAllocator
mark_range_free a base length =
    let start = base / page_size in
    let end = add_u64 base length / page_size in mark_frames (end - start) start false a

pub mark_range_used : BitmapAllocator → ℕ → ℕ → Option BitmapAllocator
mark_range_used a base length =
    let start = base / page_size in
    let end = div_ceil (add_u64 base length) page_size in mark_frames (end - start) start true a

-- The body of the loop of `alloc` at a free frame.
pub take_frame : BitmapAllocator → ℕ → Option (Option ℕ × BitmapAllocator)
take_frame a frame = do
  b ← mark a frame true
  some (some (frame * page_size), record b { next_hint = frame + 1 })

-- The loop of `alloc`, with the rounds that are left.
pub alloc_from : ℕ → ℕ → BitmapAllocator → Option (Option ℕ × BitmapAllocator)
unfolding take_frame
alloc_from zero offset a = some (none, a)
alloc_from (suc n) offset a =
    let rest = alloc_from n (offset + 1) a in
    let frame = add_u64 a.next_hint offset % a.frame_count in
    is_free a frame >>= λ free. if free then take_frame a frame else rest

unfoldable pub alloc : BitmapAllocator → Option (Option ℕ × BitmapAllocator)
unfolding alloc_from
alloc a = alloc_from a.frame_count 0 a

-- `if run_start.is_none() { run_start = Some(frame) }`.
pub begin_run : Option ℕ → ℕ → Option ℕ
begin_run none frame = some frame
begin_run (some s) frame = some s

-- The loop of `alloc_contiguous` up to its `return`: the first frame of a free run of `count`.
pub find_run : ℕ → ℕ → Option ℕ → ℕ → ℕ → BitmapAllocator → Option (Option ℕ)
unfolding begin_run
find_run zero frame run_start run_len count a = some none
find_run (suc n) frame run_start run_len count a =
    let start = begin_run run_start frame in
    let longer = find_run n (frame + 1) start (run_len + 1) count a in
    let again = find_run n (frame + 1) none 0 count a in
    is_free a frame >>= λ free.
    if free then (if run_len + 1 == count then some start else longer) else again

pub alloc_contiguous : BitmapAllocator → ℕ → Option (Option ℕ × BitmapAllocator)
unfolding find_run mark_frames
alloc_contiguous a count =
    if count == 0
    then some (none, a)
    else find_run a.frame_count 0 none 0 count a >>= λ found. elim found [
      | none ↦ some (none, a)
      | some start ↦ mark_frames count start true a >>= λ b. some (some (start * page_size), b)
    ]

pub free : BitmapAllocator → ℕ → Option BitmapAllocator
free a phys = mark a (phys / page_size) false

-- An entry of Limine's memory map.
pub record MemmapEntry : Type 0 where
  pub usable : Bool
  pub base : ℕ
  pub length : ℕ

pub max_addr : ℕ → List MemmapEntry → ℕ
max_addr acc [] = acc
max_addr acc (e ∷ es) = max_addr (if e.usable then max acc (add_u64 e.base e.length) else acc) es

pub find_bitmap : ℕ → List MemmapEntry → Option ℕ
find_bitmap bytes [] = none
find_bitmap bytes (e ∷ es) =
    if e.usable && leb bytes e.length then some e.base else find_bitmap bytes es

pub free_usable : List MemmapEntry → BitmapAllocator → Option BitmapAllocator
free_usable [] a = some a
free_usable (e ∷ es) a =
    (if e.usable then mark_range_free a e.base e.length else some a) >>= free_usable es

-- The allocator that `init` leaves in `PMM`. The bitmap is filled with 0xFF in place.
pub init : List MemmapEntry → Option BitmapAllocator
unfolding max_addr find_bitmap free_usable
init memmap = do
  let frame_count = max_addr 0 memmap / page_size
  let bitmap_bytes = div_ceil frame_count 8
  bitmap_phys ← find_bitmap bitmap_bytes memmap
  a ← free_usable memmap (record {
    bitmap = replicate bitmap_bytes 255;
    frame_count = frame_count;
    free_frames = 0;
    next_hint = 0;
  })
  mark_range_used a bitmap_phys bitmap_bytes

record MemoryStats : Type 0 where
  pub total_frames : ℕ
  pub free_frames : ℕ

-- `PMM` is `none` before `init`.
unfoldable pub alloc_frame : Option BitmapAllocator → Option (Option ℕ × Option BitmapAllocator)
alloc_frame none = some (none, none)
alloc_frame (some a) = alloc a >>= λ (r, b). some (r, some b)

free_frame : Option BitmapAllocator → ℕ → Option (Option BitmapAllocator)
free_frame none phys = some none
free_frame (some a) phys = free a phys >>= λ b. some (some b)

stats : Option BitmapAllocator → Option MemoryStats
stats none = none
stats (some a) = some (record { total_frames = a.frame_count; free_frames = a.free_frames })
