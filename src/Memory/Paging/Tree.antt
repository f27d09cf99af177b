-- ===== src/Memory/Paging/Tree.antt =====
-- The page tables of paging.rs as a tree: a label gives each table the indices that lead to it, the
-- last one first. Tables are never frames that the allocator still has.
use moon_os.Common.{
  ℕ, ◌*◌, ◌^◌, ◌≤◌, ◌<◌, ◌≡◌, refl, sym, ◌∙◌, subst, Bool, true, false, Option, none, some, List,
  ◌∷◌, arith, ◌==◌, if◌then◌else◌, ◌>>=◌, length,
}
use mathlib.Core.Option.{some-injective}
use moon_os.Memory.Pmm.{BitmapAllocator, alloc}
use moon_os.Memory.Pmm.Frames.{used, IsValid}
use moon_os.Memory.Pmm.Alloc.{Allocates, full, got, alloc_lem}
use moon_os.Memory.Paging.{Machine, take_frame, follow}
use moon_os.Memory.Paging.Entries.{IsFrame}

abbrev pub Label : Type 0
Label = ℕ → Option (List ℕ)

-- The allocator is sound, holds frames that entries can name, and no free frame has a label.
pub record HasFrames (s : Machine) (label : Label) : Type 0 where
  pub allocator : BitmapAllocator
  pub here : s.frames ≡ some allocator
  pub valid : IsValid allocator
  pub small : allocator.frame_count ≤ 2 ^ 40
  pub unlabelled :
      (f : ℕ) → f < allocator.frame_count → used allocator f ≡ false → label (f * 4096) ≡ none

pub record IsTree (s : Machine) (label : Label) : Type 0 where
  pub has : HasFrames s label
  pub linked :
      (t : ℕ) (p : List ℕ) (i u : ℕ)
      → label t ≡ some p
      → length p < 3
      → follow s.tables t i ≡ some u
      → label u ≡ some (i ∷ p)

-- What a frame taken from the allocator is.
pub record Taken (s : Machine) (label : Label) (f : ℕ) (s' : Machine) : Type 0 where
  pub frame : IsFrame f
  pub unlabelled : label f ≡ none
  pub tables : s'.tables ≡ s.tables
  pub cr3 : s'.cr3 ≡ s.cr3
  pub has : (p : List ℕ) → HasFrames s' (λ x. if x == f then some p else label x)

free_after : (t f k : Bool) → t ≡ (if f then true else k) → t ≡ false → (f ≡ false) × (k ≡ false)
free_after t f k e h = ground arith

frame_times : (j f : ℕ) → (j == f) ≡ false → (j * 4096 == f * 4096) ≡ false
frame_times j f h = ground arith

take_frame_eq :
    (s : Machine) (a b : BitmapAllocator) (r : Option ℕ)
    → s.frames ≡ some a
    → alloc a ≡ some (r, b)
    → take_frame s ≡ (r >>= λ f. some (f, record s { frames = some b }))
unfolding take_frame
take_frame_eq s a b r here e = rw (here, e) refl

taken_now :
    (s : Machine) (label : Label) (h : HasFrames s label) (g : ℕ) (b : BitmapAllocator)
    → g < h.allocator.frame_count
    → used h.allocator g ≡ false
    → ((j : ℕ) → used b j ≡ (if j == g then true else used h.allocator j))
    → b.frame_count ≡ h.allocator.frame_count
    → IsValid b
    → Taken s label (g * 4096) (record s { frames = some b })
taken_now s label h g b below free view count valid = record {
  frame = (omega arith, omega (arith, h.small));
  unlabelled = h.unlabelled g below free;
  tables = refl;
  cr3 = refl;
  has = λ p. record {
    allocator = b;
    here = refl;
    valid = valid;
    small = omega (arith, h.small);
    unlabelled = λ j lt unused.
        let (other, was) = free_after _ (j == g) _ (view j) unused in
        rw (frame_times j g other) (h.unlabelled j (omega arith) was);
  };
}

take_found :
    (s : Machine) (label : Label) (h : HasFrames s label) (f : ℕ) (s' : Machine) (r : Option ℕ)
    (b : BitmapAllocator)
    → take_frame s ≡ (r >>= λ x. some (x, record s { frames = some b }))
    → Allocates h.allocator r b
    → take_frame s ≡ some (f, s')
    → Taken s label f s'
take_found s label h f s' r b a (full all) e = cc
take_found s label h f s' r b a (got g below free view counter count valid) e =
    subst (λ (found : ℕ × Machine). Taken s label (found.0) (found.1))
      (some-injective _ _ (sym a ∙ e)) (taken_now s label h g b below free view count valid)

pub take_frame_lem :
    (s : Machine) (label : Label) (f : ℕ) (s' : Machine)
    → HasFrames s label
    → take_frame s ≡ some (f, s')
    → Taken s label f s'
take_frame_lem s label f s' h e =
    let (r, b, a, spec) = alloc_lem h.allocator h.valid in
    take_found s label h f s' r b (take_frame_eq s h.allocator b r h.here a) spec e
