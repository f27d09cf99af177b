-- ===== src/Memory/Heap/Safety.antt =====
-- What one `alloc` of heap.rs promises: the block, the regions that are left, and whatever else is
-- apart from the free regions.
use moon_os.Common.{
  ℕ, ◌+◌, ◌-◌, ◌%◌, ◌^◌, ◌≤◌, ◌≡◌, refl, sym, ◌∙◌, ap, ◌⊎◌, inl, inr, none, some, List, [], ◌∷◌,
  arith, All,
}
use moon_os.Memory.Heap.{
  FreeNode, FreeList, node_size, add_usize, sub_usize, region_fits, add_free_region, split_region,
  alloc,
}
use moon_os.Memory.Heap.Fit.{
  heap_end, max_align, IsNode, Disjoint, Inside, Fits, region_fits-Fits, Fits-region_fits, FirstFit,
  first_fit-FirstFit, here as here_fit, there as there_fit,
}
use moon_os.Memory.Heap.Align.{mod_eight}

-- Pairwise disjoint.
abbrev pub Apart : List FreeNode → Type 0
Apart [] = Unit
Apart (n ∷ ns) = All (Disjoint n) ns × Apart ns

-- What the padded size of a layout is like.
pub record IsBlockSize (size : ℕ) : Type 0 where
  pub holds : node_size ≤ size
  pub whole : size % 8 ≡ 0

pub record IsHeap (h : FreeList) : Type 0 where
  pub nodes : All IsNode h
  pub apart : Apart h

-- The space behind the block, if there is any.
data Rest (n : FreeNode) (stop : ℕ) (ms : FreeList) : FreeList → Type 0 where
  nothing : stop ≡ n.addr + n.size → Rest n stop ms ms
  region :
      {m : FreeNode}
      → m.addr ≡ stop
      → stop + m.size ≡ n.addr + n.size
      → node_size ≤ m.size
      → Rest n stop ms (m ∷ ms)

split_region-Rest :
    (n : FreeNode) (size k s : ℕ) (ms : FreeList)
    → IsNode n
    → Fits n size k s
    → (h : FreeList) × (split_region size (s, n, ms) ≡ (s, h)) × Rest n (s + size) ms h
unfolding split_region add_free_region
split_region-Rest n size k s ms v f = elim f.rest [
  | inl e ↦ (ms, rw (excess, start) (ground arith), nothing e)
  | inr le ↦ (
    record { addr = s + size; size = n.addr + n.size - (s + size) } ∷ ms,
    rw (excess, start) (ground arith),
    region refl (omega (arith, f.high)) (omega arith),
  )
]
  where
    start : add_usize s size ≡ s + size
    start = omega (arith, f.high, v.top)

    excess : sub_usize (add_usize n.addr n.size) (add_usize s size) ≡ n.addr + n.size - (s + size)
    excess = omega (arith, f.high, v.top)

-- What unlinking the first node that fits does to facts about all nodes.
module _ (size align : ℕ) where
  FirstFit-All {ℓ} :
      (P : FreeNode → Type ℓ) {h ms : FreeList} {s : ℕ} {n : FreeNode}
      → FirstFit size align h s n ms
      → All P h
      → P n × All P ms
  FirstFit-All P (here_fit e) a = a
  FirstFit-All P (there_fit e f) a = let (p, q) = FirstFit-All P f a.1 in (p, (a.0, q))

  FirstFit-Apart :
      {h ms : FreeList} {s : ℕ} {n : FreeNode}
      → FirstFit size align h s n ms
      → Apart h
      → All (Disjoint n) ms × Apart ms
  FirstFit-Apart (here_fit e) a = a
  FirstFit-Apart {n = n} (there_fit {n = x} e f) a =
      let (p, q) = FirstFit-Apart f a.1 in
      let (d, ds) = FirstFit-All (Disjoint x) f a.0 in ((swap d, p), (ds, q))
    where
      swap : Disjoint x n → Disjoint n x
      swap d = omega arith

  FirstFit-fit :
      {h ms : FreeList} {s : ℕ} {n : FreeNode}
      → FirstFit size align h s n ms
      → region_fits n.addr size n.size align ≡ some s
  FirstFit-fit (here_fit e) = e
  FirstFit-fit (there_fit e f) = FirstFit-fit f

-- What `alloc` promises of the block at `p` and the chain that is left.
pub record Allocated (h : FreeList) (size k p : ℕ) (h' : FreeList) : Type 0 where
  pub aligned : p % 2 ^ k ≡ 0
  pub top : p + size ≤ heap_end
  pub heap : IsHeap h'
  pub clear : All (Disjoint (record { addr = p; size = size })) h'
  -- Whatever was apart from the free regions is apart from the block and from those that are left.
  pub frame :
      (x : FreeNode)
      → All (Disjoint x) h
      → Disjoint x (record { addr = p; size = size }) × All (Disjoint x) h'

-- The parts put together, once the node `n` is unlinked and split.
All-Disjoint :
    (n x : FreeNode) (ms : FreeList) → Inside x n → All (Disjoint n) ms → All (Disjoint x) ms
All-Disjoint n x [] i d = tt
All-Disjoint n x (m ∷ ms) i d = (omega arith, All-Disjoint n x ms i d.1)

allocated :
    (h : FreeList) (size k s : ℕ) (n : FreeNode) (ms h' : FreeList)
    → 3 ≤ k
    → IsBlockSize size
    → Fits n size k s
    → IsNode n
    → All IsNode ms
    → All (Disjoint n) ms
    → Apart ms
    → ((x : FreeNode) → All (Disjoint x) h → Disjoint x n × All (Disjoint x) ms)
    → Rest n (s + size) ms h'
    → Allocated h size k s h'
allocated h size k s n ms h' lo b f v nodes clear apart keep (nothing e) = record {
  aligned = f.aligned;
  top = omega (arith, f.high, v.top);
  heap = record { nodes = nodes; apart = apart };
  clear = All-Disjoint n (record { addr = s; size = size }) ms (f.low, f.high) clear;
  frame = λ x d. let (p, q) = keep x d in (omega (arith, f.low, f.high, p), q);
}
allocated h size k s n ms h' lo b f v nodes clear apart keep (region {m = m} a e holds) = record {
  aligned = f.aligned;
  top = omega (arith, f.high, v.top);
  heap = record { nodes = (node, nodes); apart = (All-Disjoint n m ms inside clear, apart) };
  clear = (omega arith, All-Disjoint n (record { addr = s; size = size }) ms (f.low, f.high) clear);
  frame = λ x d.
      let (p, q) = keep x d in (omega (arith, f.low, f.high, p), (omega (arith, inside, p), q));
}
  where
    inside : Inside m n
    inside = omega (arith, f.low)

    node : IsNode m
    node = record {
      top = omega (arith, v.top);
      holds = holds;
      place = omega (arith, mod_eight s k lo f.aligned, b.whole);
      whole = omega (arith, mod_eight s k lo f.aligned, b.whole, v.place, v.whole);
    }

none-unfit :
    (h : FreeList) (size k : ℕ)
    → k ≤ max_align
    → All IsNode h
    → All (λ n. region_fits n.addr size n.size (2 ^ k) ≡ none) h
    → All (λ n. (s : ℕ) → ¬ Fits n size k s) h
none-unfit [] size k hi nodes e = tt
none-unfit (n ∷ h) size k hi nodes e = (
  λ s f. cc (sym e.0 ∙ Fits-region_fits n size k s nodes.0 hi f),
  none-unfit h size k hi nodes.1 e.1,
)

-- `alloc` at a power of two from 8 up to 2 ^ 30 returns `none` only if the block has no place in any
-- region: none that is aligned, less than the alignment behind the region's start, and such that the
-- block ends with the region or leaves room for a node in it. Otherwise the block is aligned, inside
-- the heap, apart from every region that is left, and apart from whatever was apart from the free
-- regions; and the free regions stay well-formed.
pub heap_alloc_lem :
    (h : FreeList) (size k : ℕ)
    → IsHeap h
    → IsBlockSize size
    → 3 ≤ k
    → k ≤ max_align
    → ((alloc h size (2 ^ k) ≡ none) × All (λ n. (s : ℕ) → ¬ Fits n size k s) h)
      ⊎ ((p : ℕ) × (h' : FreeList) × (alloc h size (2 ^ k) ≡ some (p, h'))
          × Allocated h size k p h')
unfolding alloc
heap_alloc_lem h size k v b lo hi = elim (first_fit-FirstFit size (2 ^ k) h) [
  | inl (e, all) ↦ inl (rw e, none-unfit h size k hi v.nodes all)
  | inr (s, n, ms, e, f) ↦
      let (node, nodes) = FirstFit-All size (2 ^ k) IsNode f v.nodes in
      let (clear, apart) = FirstFit-Apart size (2 ^ k) f v.apart in
      let fits = region_fits-Fits n size k s node hi (FirstFit-fit size (2 ^ k) f) in
      let (h', e', r) = split_region-Rest n size k s ms node fits in
      inr (
        s,
        h',
        rw e (ap some e'),
        allocated h size k s n ms h' lo b fits node nodes clear apart
            (λ x. FirstFit-All size (2 ^ k) (Disjoint x) f) r,
      )
]
