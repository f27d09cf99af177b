-- ===== src/Memory/Heap/Fit.antt =====
-- One allocation of heap.rs: which node `first_fit` takes, and where the block and the rest of its
-- region lie.
use moon_os.Common.{
  ℕ, ◌+◌, ◌%◌, ◌^◌, ◌≤◌, ◌<◌, ◌≡◌, refl, subst, ◌⊎◌, inl, inr, none, some, [], ◌∷◌, arith,
  Option-cases, ◌>>=◌, All,
}
use moon_os.Memory.Heap.{
  FreeNode, FreeList, node_size, align_up, checked_add, fits_end, region_fits, first_fit,
}
use moon_os.Memory.Heap.Align.{align_up_bounds, pow_thirty, multiple_eq}

-- The end of the address range that the kernel heap uses, and the largest alignment's exponent: their
-- sum stays inside 64 bits.
abbrev pub heap_end : ℕ
heap_end = 0xffff_ffff_9200_0000

abbrev pub max_align : ℕ
max_align = 30

-- A node's region: inside the heap, large enough for a node, and aligned for one.
pub record IsNode (n : FreeNode) : Type 0 where
  pub top : n.addr + n.size ≤ heap_end
  pub holds : node_size ≤ n.size
  pub place : n.addr % 8 ≡ 0
  pub whole : n.size % 8 ≡ 0

abbrev pub Disjoint : FreeNode → FreeNode → Type 0
Disjoint x y = (x.addr + x.size ≤ y.addr) ⊎ (y.addr + y.size ≤ x.addr)

-- `y` lies in `x`.
abbrev pub Inside : FreeNode → FreeNode → Type 0
Inside y x = (x.addr ≤ y.addr) × (y.addr + y.size ≤ x.addr + x.size)

Disjoint-Inside : (x y z : FreeNode) → Inside z y → Disjoint x y → Disjoint x z
Disjoint-Inside x y z i d = omega arith

pub record Fits (n : FreeNode) (size k s : ℕ) : Type 0 where
  pub aligned : s % 2 ^ k ≡ 0
  pub low : n.addr ≤ s
  pub near : s < n.addr + 2 ^ k
  pub high : s + size ≤ n.addr + n.size
  pub rest : (s + size ≡ n.addr + n.size) ⊎ (s + size + node_size ≤ n.addr + n.size)

end_lem :
    (t size e s : ℕ)
    → e < 2 ^ 64
    → (checked_add t size >>= λ alloc_end. fits_end t alloc_end e) ≡ some s
    → (s ≡ t) × (t + size ≤ e) × ((t + size ≡ e) ⊎ (t + size + node_size ≤ e))
unfolding checked_add fits_end
end_lem t size e s small h = ground arith

-- What `region_fits` accepts.
pub region_fits-Fits :
    (n : FreeNode) (size k s : ℕ)
    → IsNode n
    → k ≤ max_align
    → region_fits n.addr size n.size (2 ^ k) ≡ some s
    → Fits n size k s
unfolding region_fits
region_fits-Fits n size k s v h e = record {
  aligned = rw found bounds.0;
  low = rw found bounds.1;
  near = rw found bounds.2;
  high = rw found last.1;
  rest = rw found last.2;
}
  where
    bounds :
        (align_up n.addr (2 ^ k) % 2 ^ k ≡ 0)
        × (n.addr ≤ align_up n.addr (2 ^ k))
        × (align_up n.addr (2 ^ k) < n.addr + 2 ^ k)
    bounds = align_up_bounds n.addr k (omega arith) (omega (arith, v.top, pow_thirty k h))

    last :
        (s ≡ align_up n.addr (2 ^ k))
        × (align_up n.addr (2 ^ k) + size ≤ n.addr + n.size)
        × ((align_up n.addr (2 ^ k) + size ≡ n.addr + n.size)
            ⊎ (align_up n.addr (2 ^ k) + size + node_size ≤ n.addr + n.size))
    last = end_lem (align_up n.addr (2 ^ k)) size (n.addr + n.size) s (omega (arith, v.top)) (
        subst
          (λ end.
            (checked_add (align_up n.addr (2 ^ k)) size >>= λ alloc_end.
            fits_end (align_up n.addr (2 ^ k)) alloc_end end)
            ≡ some s)
          (omega (arith, v.top)) e)

    found : s ≡ align_up n.addr (2 ^ k)
    found = last.0

end_some :
    (t size e : ℕ)
    → e < 2 ^ 64
    → t + size ≤ e
    → ((t + size ≡ e) ⊎ (t + size + node_size ≤ e))
    → (checked_add t size >>= λ alloc_end. fits_end t alloc_end e) ≡ some t
unfolding checked_add fits_end
end_some t size e small h rest = ground arith

-- A region into which a block fits is accepted.
pub Fits-region_fits :
    (n : FreeNode) (size k s : ℕ)
    → IsNode n
    → k ≤ max_align
    → Fits n size k s
    → region_fits n.addr size n.size (2 ^ k) ≡ some s
unfolding region_fits
Fits-region_fits n size k s v h f =
    subst (λ t. region_fits n.addr size n.size (2 ^ k) ≡ some t) same
      (subst
        (λ end. (checked_add start size >>= λ alloc_end. fits_end start alloc_end end) ≡ some start)
        (omega (arith, v.top))
        (end_some start size (n.addr + n.size) (omega (arith, v.top)) (omega (arith, f.high, same))
          (elim f.rest [
            | inl exact ↦ inl (omega (arith, exact, same))
            | inr room ↦ inr (omega (arith, room, same))
          ])))
  where
    start : ℕ
    start = align_up n.addr (2 ^ k)

    bounds :
        (align_up n.addr (2 ^ k) % 2 ^ k ≡ 0)
        × (n.addr ≤ align_up n.addr (2 ^ k))
        × (align_up n.addr (2 ^ k) < n.addr + 2 ^ k)
    bounds = align_up_bounds n.addr k (omega arith) (omega (arith, v.top, pow_thirty k h))

    same : start ≡ s
    same =
        multiple_eq start s (2 ^ k) (omega (arith, bounds.1, bounds.2)) bounds.0 f.aligned
          (omega (arith, bounds.2, f.low)) (omega (arith, bounds.1, f.near))

-- `first_fit` in rules: nodes that do not fit are passed over, and the first that fits is unlinked.
pub data FirstFit (size align : ℕ) : FreeList → ℕ → FreeNode → FreeList → Type 0 where
  here :
      {n : FreeNode} {ns : FreeList} {s : ℕ}
      → region_fits n.addr size n.size align ≡ some s
      → FirstFit size align (n ∷ ns) s n ns
  there :
      {n m : FreeNode} {ns ms : FreeList} {s : ℕ}
      → region_fits n.addr size n.size align ≡ none
      → FirstFit size align ns s m ms
      → FirstFit size align (n ∷ ns) s m (n ∷ ms)

pub first_fit-FirstFit :
    (size align : ℕ) (h : FreeList)
    → ((first_fit size align h ≡ none) × All (λ n. region_fits n.addr size n.size align ≡ none) h)
      ⊎ ((s : ℕ) × (n : FreeNode) × (ms : FreeList) × (first_fit size align h ≡ some (s, n, ms))
          × FirstFit size align h s n ms)
unfolding first_fit
first_fit-FirstFit size align [] = inl (refl, tt)
first_fit-FirstFit size align (n ∷ ns) =
    elim (Option-cases (region_fits n.addr size n.size align)) [
      | inr (s, e) ↦ inr (s, n, ns, rw (e, first_fit), here e)
      | inl e ↦ elim (first_fit-FirstFit size align ns) [
        | inl (q, all) ↦ inl (rw (e, q, first_fit), (e, all))
        | inr (s, m, ms, q, f) ↦ inr (s, m, n ∷ ms, rw (e, q, first_fit), there e f)
      ]
    ]
