-- ===== src/Memory/Heap.antt =====
-- kernel/src/memory/heap.rs, the first-fit free list behind the kernel's allocator. The nodes lie in
-- the free memory itself; the model keeps the chain from `head.next` as a list of nodes with their
-- addresses, first node first. A null pointer is `none`. Words are usize of 64 bits.
pub mod Align
pub mod Fit
pub mod Safety
pub mod Blocks
mod Tests
use moon_os.Common.{
  ℕ, ◌+◌, ◌-◌, ◌*◌, ◌/◌, ◌%◌, ◌^◌, max, bit_and, ◌&&◌, not, Option, none, some, List, [], ◌∷◌, ltb,
  ◌==◌, if◌then◌else◌, ◌>>=◌,
}

abbrev pub node_size : ℕ
node_size = 16

abbrev pub node_align : ℕ
node_align = 8

pub record FreeNode : Type 0 where
  pub addr : ℕ
  pub size : ℕ

abbrev pub FreeList : Type 0
FreeList = List FreeNode

abbrev pub add_usize : ℕ → ℕ → ℕ
add_usize a b = (a + b) % 2 ^ 64

abbrev pub sub_usize : ℕ → ℕ → ℕ
sub_usize a b = (a + 2 ^ 64 - b) % 2 ^ 64

-- `!a`.
abbrev pub not_usize : ℕ → ℕ
not_usize a = 2 ^ 64 - 1 - a

pub checked_add : ℕ → ℕ → Option ℕ
checked_add a b = if ltb (a + b) (2 ^ 64) then some (a + b) else none

pub align_up : ℕ → ℕ → ℕ
align_up addr align = bit_and (sub_usize (add_usize addr align) 1) (not_usize (sub_usize align 1))

-- A region that cannot hold a node is dropped.
pub add_free_region : FreeList → ℕ → ℕ → FreeList
add_free_region h addr size =
    if ltb size node_size then h else record { addr = addr; size = size } ∷ h

-- The test of the end of a candidate block against the end of its region.
pub fits_end : ℕ → ℕ → ℕ → Option ℕ
fits_end alloc_start alloc_end region_end =
    if ltb region_end alloc_end
    then none
    else (let excess = sub_usize region_end alloc_end in
        if not (excess == 0) && ltb excess node_size then none else some alloc_start)

pub region_fits : ℕ → ℕ → ℕ → ℕ → Option ℕ
unfolding checked_add fits_end
region_fits addr size region_size align = do
  let alloc_start = align_up addr align
  alloc_end ← checked_add alloc_start size
  fits_end alloc_start alloc_end (add_usize addr region_size)

-- The search along the chain: the block's start, the node that is unlinked, and the chain without it.
pub first_fit : ℕ → ℕ → FreeList → Option (ℕ × FreeNode × FreeList)
first_fit size align [] = none
first_fit size align (n ∷ ns) =
    let rest = first_fit size align ns in
    elim (region_fits n.addr size n.size align) [
      | some alloc_start ↦ some (alloc_start, n, ns)
      | none ↦ rest >>= λ (s, m, ms). some (s, m, n ∷ ms)
    ]

-- What is left behind the block goes to the head of the chain.
pub split_region : ℕ → ℕ × FreeNode × FreeList → ℕ × FreeList
unfolding add_free_region
split_region size (alloc_start, n, ns) =
    let alloc_end = add_usize alloc_start size in
    let excess = sub_usize (add_usize n.addr n.size) alloc_end in
    (alloc_start, if ltb 0 excess then add_free_region ns alloc_end excess else ns)

pub alloc : FreeList → ℕ → ℕ → Option (ℕ × FreeList)
unfolding first_fit split_region
alloc h size align = first_fit size align h >>= λ r. some (split_region size r)

pub dealloc : FreeList → ℕ → ℕ → FreeList
unfolding add_free_region
dealloc h ptr size = add_free_region h ptr size

pub record Layout : Type 0 where
  pub size : ℕ
  pub align : ℕ

-- `Layout::align_to` fails if the padded size would exceed `isize::MAX`; `pad_to_align` rounds up.
pub size_align : Layout → Option (ℕ × ℕ)
size_align layout =
    let align = max layout.align node_align in
    if ltb (2 ^ 63 - align) layout.size
    then none
    else some (max ((layout.size + align - 1) / align * align) node_size, align)

-- `GlobalAlloc` for `LockedHeap`; the outer `none` is the panic of `expect`.
pub global_alloc : FreeList → Layout → Option (Option (ℕ × FreeList))
unfolding size_align
global_alloc h layout = size_align layout >>= λ (size, align). some (alloc h size align)

pub global_dealloc : FreeList → ℕ → Layout → Option FreeList
unfolding size_align
global_dealloc h ptr layout = size_align layout >>= λ (size, align). some (dealloc h ptr size)
