-- ===== src/Memory/Paging/Small.antt =====
-- A machine of eight frames for the tests of paging.rs and of the loaders: frames 0 to 2 are in use,
-- and the PML4 in frame 1 is empty.
use moon_os.Common.{
  ℕ, zero, suc, ◌*◌, ◌<◌, ◌≡◌, refl, false, Option, none, some, [], ◌∷◌, arith, ◌==◌, if◌then◌else◌,
}
use moon_os.Memory.Paging.Supply.{Supplies}
use moon_os.Memory.Paging.Spaces.{IsSpace}
use moon_os.Memory.Paging.Tree.{Label}
use moon_os.Memory.Pmm.{BitmapAllocator}
use moon_os.Memory.Paging.{Machine, follow}
use moon_os.Memory.Pmm.Frames.{count_free, used, IsValid}

abbrev eight : BitmapAllocator
eight = record { bitmap = 0x07 ∷ []; frame_count = 8; free_frames = 5; next_hint = 0 }

abbrev pub small : Machine
small = record { frames = some eight; tables = λ t i. 0; bytes = λ p. 0; cr3 = 4096; flushed = [] }

abbrev small_label : Label
small_label t = if t == 4096 then some [] else none

unused_frame : (f : ℕ) → f < 8 → used eight f ≡ false → small_label (f * 4096) ≡ none
unused_frame zero h free = refl
unused_frame (suc zero) h free = cc
unused_frame (suc (suc f)) h free = ground arith

empty_entry : (t i u : ℕ) → follow (λ t i. 0) t i ≡ some u → ⊥
unfolding follow
empty_entry t i u h = cc

eight-IsValid : IsValid eight
unfolding count_free
eight-IsValid = record {
  bytes = (omega arith, tt);
  counted = refl;
  small = omega arith;
  room = omega arith;
  hint = omega arith;
}

pub small-IsSpace : IsSpace small 4096
small-IsSpace = record {
  label = small_label;
  tree = record {
    has = record {
      allocator = eight;
      here = refl;
      valid = eight-IsValid;
      small = omega arith;
      unlabelled = λ f h free. unused_frame f h free;
    };
    linked = λ t p i u lab len now. absurd (empty_entry t i u now);
  };
  rooted = refl;
}

pub small-Supplies : Supplies 3 small
unfolding count_free
small-Supplies = record {
  allocator = eight;
  initialised = refl;
  valid = eight-IsValid;
  enough = omega arith;
}

-- The machine in a result, or another one.
abbrev pub machine_or : Machine → Option Machine → Machine
machine_or s none = s
machine_or s (some t) = t
