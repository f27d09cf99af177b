-- ===== src/Memory/Heap/Blocks.antt =====
-- The kernel heap of heap.rs over any sequence of allocations and releases: live blocks and free
-- regions stay apart.
use mathlib.Core.Option.{some-injective}
use native.Mathlib.Nat.{mul-mod_left}
use moon_os.Common.{
  ℕ, ◌+◌, ◌-◌, ◌*◌, ◌/◌, ◌%◌, ◌^◌, ◌≤◌, max, ◌≡◌, sym, ◌∙◌, subst, inl, inr, some, List, [], ◌∷◌,
  arith, ltb-ge, All,
}
use moon_os.Memory.Heap.{
  FreeNode, FreeList, Layout, node_size, node_align, alloc, dealloc, size_align, global_alloc,
  global_dealloc,
}
use moon_os.Memory.Heap.Fit.{max_align, IsNode, Disjoint}
use moon_os.Memory.Heap.Align.{mod_eight, max_eight}
use moon_os.Memory.Heap.Safety.{Apart, IsHeap, IsBlockSize, Allocated, heap_alloc_lem}

-- The heap's state: the chain, and the blocks that are live, with their padded sizes.
pub record Heap : Type 0 where
  pub chain : FreeList
  pub live : List FreeNode

-- One block taken out of the live ones.
pub data Removed : FreeNode → List FreeNode → List FreeNode → Type 0 where
  first : {b : FreeNode} {bs : List FreeNode} → Removed b (b ∷ bs) bs
  later : {b c : FreeNode} {bs cs : List FreeNode} → Removed b bs cs → Removed b (c ∷ bs) (c ∷ cs)

-- A caller allocates by a layout, and releases a live block by a layout of that block's size.
pub data Step (h : Heap) : Heap → Type 0 where
  allocates :
      {k size align p : ℕ} {chain : FreeList} (l : Layout)
      → l.align ≡ 2 ^ k
      → k ≤ max_align
      → size_align l ≡ some (size, align)
      → global_alloc h.chain l ≡ some (some (p, chain))
      → Step h (record { chain = chain; live = record { addr = p; size = size } ∷ h.live })
  releases :
      {b : FreeNode} {live : List FreeNode} {chain : FreeList} {align : ℕ} (l : Layout)
      → Removed b h.live live
      → size_align l ≡ some (b.size, align)
      → global_dealloc h.chain b.addr l ≡ some chain
      → Step h (record { chain = chain; live = live })

pub data Reach (h : Heap) : Heap → Type 0 where
  here : Reach h h
  next : {g k : Heap} → Reach h g → Step g k → Reach h k

-- Live blocks lie in the heap, apart from one another and from every free region.
pub record IsSafe (h : Heap) : Type 0 where
  pub heap : IsHeap h.chain
  pub blocks : All IsNode h.live
  pub apart : Apart h.live
  pub clear : All (λ b. All (Disjoint b) h.chain) h.live

-- The padded size and alignment of a layout.
size_align-IsBlockSize :
    (l : Layout) (k size align : ℕ)
    → l.align ≡ 2 ^ k
    → k ≤ max_align
    → size_align l ≡ some (size, align)
    → IsBlockSize size × (align ≡ 2 ^ max k 3)
unfolding size_align
size_align-IsBlockSize l k size align e hi h =
    let parts = fields in
    (
      record { holds = omega (arith, parts.0); whole = omega (arith, parts.0, multiple) },
      parts.1 ∙ wide,
    )
  where
    wide : max l.align node_align ≡ 2 ^ max k 3
    wide = rw e (max_eight k hi)

    rounded : ℕ
    rounded =
        (l.size + max l.align node_align - 1) / max l.align node_align * max l.align node_align

    fields : (size ≡ max rounded node_size) × (align ≡ max l.align node_align)
    fields = ground arith

    multiple : rounded % 8 ≡ 0
    multiple = mod_eight rounded (max k 3) (omega arith) (rw wide (mul-mod_left _ (2 ^ max k 3)))

alloc-Allocated :
    (h : FreeList) (size k p : ℕ) (chain : FreeList)
    → IsHeap h
    → IsBlockSize size
    → 3 ≤ k
    → k ≤ max_align
    → alloc h size (2 ^ k) ≡ some (p, chain)
    → Allocated h size k p chain
alloc-Allocated h size k p chain v b lo hi e = elim (heap_alloc_lem h size k v b lo hi) [
  | inl (q, _) ↦ absurd (cc)
  | inr (p', h', q, a) ↦
      subst (λ (r : ℕ × FreeList). Allocated h size k r.0 r.1)
        (some-injective (p', h') (p, chain) (sym q ∙ e)) a
]

Removed-All {ℓ} :
    (P : FreeNode → Type ℓ) {b : FreeNode} {bs cs : List FreeNode}
    → Removed b bs cs
    → All P bs
    → P b × All P cs
Removed-All P first a = a
Removed-All P (later r) a = let (p, q) = Removed-All P r a.1 in (p, (a.0, q))

Removed-Apart :
    {b : FreeNode} {bs cs : List FreeNode}
    → Removed b bs cs
    → Apart bs
    → All (Disjoint b) cs × Apart cs
Removed-Apart first a = a
Removed-Apart {b} (later {c = c} r) a =
    let (p, q) = Removed-Apart r a.1 in
    let (d, ds) = Removed-All (Disjoint c) r a.0 in ((flip c b d, p), (ds, q))
  where
    flip : (x y : FreeNode) → Disjoint x y → Disjoint y x
    flip x y d = omega arith

-- A live block is apart from the block and the chain that an allocation gives.
keep_live :
    (b : FreeNode) (chain chain' : FreeList) (live : List FreeNode)
    → ((x : FreeNode) → All (Disjoint x) chain → Disjoint x b × All (Disjoint x) chain')
    → All (λ x. All (Disjoint x) chain) live
    → All (Disjoint b) live × All (λ x. All (Disjoint x) chain') live
keep_live b chain chain' [] frame a = (tt, tt)
keep_live b chain chain' (x ∷ live) frame a =
    let (p, q) = frame x a.0 in
    let (ps, qs) = keep_live b chain chain' live frame a.1 in ((omega arith, ps), (q, qs))

-- The live blocks that stay, apart from the released one too.
release_live :
    (b : FreeNode) (chain : FreeList) (live : List FreeNode)
    → All (Disjoint b) live
    → All (λ x. All (Disjoint x) chain) live
    → All (λ x. All (Disjoint x) (b ∷ chain)) live
release_live b chain [] d a = tt
release_live b chain (x ∷ live) d a = ((omega arith, a.0), release_live b chain live d.1 a.1)

-- Every allocation and every release keeps live blocks and free regions apart.
Step-IsSafe : {h g : Heap} → Step h g → IsSafe h → IsSafe g
unfolding global_alloc global_dealloc dealloc
Step-IsSafe {h} (allocates {k} {size} {align} {p} {chain} l ea hi e q) v =
    let (b, wide) = size_align-IsBlockSize l k size align ea hi e in
    let a = alloc-Allocated h.chain size (max k 3) p chain v.heap b (omega arith) (omega arith) (
      some-injective _ _ (
        subst (λ n. some (alloc h.chain size n) ≡ some (some (p, chain))) wide
          (rw (e, global_alloc) at q))) in
    let (apart, clear) =
      keep_live (record { addr = p; size = size }) h.chain chain h.live a.frame v.clear in
    record {
      heap = a.heap;
      blocks = (
        record {
          top = a.top;
          holds = b.holds;
          place = mod_eight p (max k 3) (omega arith) a.aligned;
          whole = b.whole;
        },
        v.blocks,
      );
      apart = (apart, v.apart);
      clear = (a.clear, clear);
    }
Step-IsSafe {h} (releases {b} {live} {chain} {align} l r e q) v =
    let (node, blocks) = Removed-All IsNode r v.blocks in
    let (d, apart) = Removed-Apart r v.apart in
    let (clear, others) = Removed-All (λ x. All (Disjoint x) h.chain) r v.clear in
    subst (λ c. IsSafe (record { chain = c; live = live })) (dealloc_lem node)
      (record {
        heap = record { nodes = (node, v.heap.nodes); apart = (clear, v.heap.apart) };
        blocks = blocks;
        apart = apart;
        clear = release_live b h.chain live d others;
      })
  where
    dealloc_lem : IsNode b → (b ∷ h.chain) ≡ chain
    dealloc_lem node =
        some-injective _ _
          (rw (ltb-ge b.size node_size node.holds, dealloc) at (rw (e, global_dealloc) at q))

-- From a safe heap, any history of allocations with alignments up to 2 ^ 30 and of deallocations of
-- live blocks leaves a safe heap: the live blocks are apart from one another and from every free
-- region, and the free regions stay well-formed.
pub Reach-IsSafe : {h g : Heap} → IsSafe h → Reach h g → IsSafe g
Reach-IsSafe v here = v
Reach-IsSafe v (next r s) = Step-IsSafe s (Reach-IsSafe v r)
