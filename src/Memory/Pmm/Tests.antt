-- ===== src/Memory/Pmm/Tests.antt =====
-- pmm.rs at concrete inputs.
use moon_os.Common.{
  ℕ, ◌*◌, ◌≡◌, refl, true, false, ◌||◌, not, Option, some, List, [], ◌∷◌, arith, All,
}
use moon_os.Memory.Pmm.{
  BitmapAllocator, MemmapEntry, mark, is_free, alloc, mark_frames, alloc_contiguous, find_bitmap,
  init, max_addr, mark_range_free, mark_range_used,
}
use moon_os.Memory.Pmm.Frames.{IsValid, used, count_free}
use moon_os.Memory.Pmm.Alloc.{Allocates, alloc_lem}
use moon_os.Memory.Pmm.Range.{AllocatesRun, alloc_contiguous_lem}
use moon_os.Memory.Pmm.Boot.{IsAligned, boot_bytes, in_bitmap, in_usable, init_lem}

-- Sixteen frames; 0, 1, 2 and 5 are in use, and so are the last eight.
abbrev sixteen : BitmapAllocator
sixteen = record { bitmap = 0x27 ∷ 0xff ∷ []; frame_count = 16; free_frames = 4; next_hint = 6 }

sixteen-IsValid : IsValid sixteen
unfolding count_free
sixteen-IsValid = record {
  bytes = (omega arith, (omega arith, tt));
  counted = refl;
  small = omega arith;
  room = omega arith;
  hint = omega arith;
}

-- The hint is 6, which is free.
alloc-sixteen :
    alloc sixteen
    ≡ some (
      some (6 * 4096),
      record { bitmap = 0x67 ∷ 0xff ∷ []; frame_count = 16; free_frames = 3; next_hint = 7 },
    )
unfolding alloc is_free mark
alloc-sixteen = refl

alloc_pair :
    alloc_contiguous sixteen 2
    ≡ some (
      some (3 * 4096),
      record { bitmap = 0x3f ∷ 0xff ∷ []; frame_count = 16; free_frames = 2; next_hint = 6 },
    )
unfolding alloc_contiguous is_free mark
alloc_pair = refl

alloc_lem_example :
    (r : Option ℕ) × (b : BitmapAllocator) × (alloc sixteen ≡ some (r, b)) × Allocates sixteen r b
alloc_lem_example = alloc_lem sixteen sixteen-IsValid

alloc_contiguous_lem_example :
    (r : Option ℕ) × (b : BitmapAllocator) × (alloc_contiguous sixteen 2 ≡ some (r, b))
    × AllocatesRun sixteen 2 r b
alloc_contiguous_lem_example = alloc_contiguous_lem sixteen 2 sixteen-IsValid (omega arith)

-- A reserved page, then eleven usable pages.
abbrev twelve : List MemmapEntry
twelve =
    record { usable = false; base = 0; length = 4096 }
    ∷ record { usable = true; base = 4096; length = 11 * 4096 }
    ∷ []

twelve-IsAligned : All IsAligned twelve
twelve-IsAligned = (
  record { base = λ u. refl; length = λ u. refl; top = λ u. omega arith },
  (record { base = λ u. refl; length = λ u. refl; top = λ u. omega arith }, tt),
)

init-twelve :
    init twelve
    ≡ some (record { bitmap = 0x03 ∷ 0xf0 ∷ []; frame_count = 12; free_frames = 10; next_hint = 0 })
unfolding init mark_range_free mark_range_used mark_frames mark
init-twelve = refl

init_lem_example :
    (a : BitmapAllocator) × (init twelve ≡ some a)
    × IsValid a
    × ((f : ℕ) → used a f ≡ (in_bitmap 4096 (boot_bytes twelve) f || not (in_usable twelve f)))
unfolding max_addr find_bitmap
init_lem_example = init_lem twelve 4096 twelve-IsAligned refl
