-- ===== src/Memory/Heap/Tests.antt =====
-- heap.rs at concrete inputs.
use moon_os.Common.{ℕ, ◌+◌, ◌-◌, ◌^◌, ◌≡◌, refl, ◌⊎◌, inl, none, some, [], ◌∷◌, arith, All}
use moon_os.Memory.Heap.{FreeList, alloc, align_up, region_fits, global_alloc}
use moon_os.Memory.Heap.Fit.{Fits}
use moon_os.Memory.Heap.Safety.{IsHeap, IsBlockSize, Allocated, heap_alloc_lem}
use moon_os.Memory.Heap.Blocks.{Heap, allocates, Reach, here, next, IsSafe, Reach-IsSafe}

abbrev base : ℕ
base = 0xffff_ffff_9000_0000

-- Two free regions, the first too small for most blocks.
abbrev two_regions : FreeList
two_regions = record { addr = base; size = 32 } ∷ record { addr = base + 72; size = 4096 } ∷ []

two_regions-IsHeap : IsHeap two_regions
two_regions-IsHeap = record {
  nodes = (
    record { top = omega arith; holds = omega arith; place = refl; whole = refl },
    (record { top = omega arith; holds = omega arith; place = refl; whole = refl }, tt),
  );
  apart = ((inl (omega arith), tt), (tt, tt));
}

-- A block of 64 bytes at an alignment of 64 starts at the next multiple, and the space before it is
-- in no region any more.
alloc_aligned :
    alloc two_regions 64 64
    ≡ some (
      base + 128,
      record { addr = base + 192; size = 3976 } ∷ record { addr = base; size = 32 } ∷ [],
    )
unfolding alloc region_fits align_up
alloc_aligned = refl

block_size : IsBlockSize 64
block_size = record { holds = omega arith; whole = refl }

heap_alloc_lem_example :
    ((alloc two_regions 64 (2 ^ 6) ≡ none) × All (λ n. (s : ℕ) → ¬ Fits n 64 6 s) two_regions)
    ⊎ ((p : ℕ) × (h : FreeList) × (alloc two_regions 64 (2 ^ 6) ≡ some (p, h))
        × Allocated two_regions 64 6 p h)
heap_alloc_lem_example =
    heap_alloc_lem two_regions 64 6 two_regions-IsHeap block_size (omega arith) (omega arith)

abbrev boot_heap : Heap
boot_heap = record { chain = record { addr = base; size = 0x200_0000 } ∷ []; live = [] }

boot_heap-IsSafe : IsSafe boot_heap
boot_heap-IsSafe = record {
  heap = record {
    nodes = (record { top = omega arith; holds = omega arith; place = refl; whole = refl }, tt);
    apart = (tt, tt);
  };
  blocks = tt;
  apart = tt;
  clear = tt;
}

abbrev one_block : Heap
one_block = record {
  chain = record { addr = base + 104; size = 0x200_0000 - 104 } ∷ [];
  live = record { addr = base; size = 104 } ∷ [];
}

first_step : Reach boot_heap one_block
unfolding global_alloc alloc region_fits align_up
first_step = next here (
    allocates {k = 0} {size = 104} {align = 8} {p = base}
      {chain = record { addr = base + 104; size = 0x200_0000 - 104 } ∷ []}
      (record { size = 100; align = 1 }) refl (omega arith) refl refl)

Reach-IsSafe_example : IsSafe one_block
Reach-IsSafe_example = Reach-IsSafe boot_heap-IsSafe first_step
