-- ===== src/Loaders/Elf/Segments.antt =====
-- What the mapping loop and `load_segment` of elf.rs do to an address space.
use moon_os.Common.{
  ℕ, zero, suc, ◌+◌, ◌*◌, ◌%◌, bit_and, ◌≡◌, refl, sym, ap, ◌∙◌, subst, ◌≢◌, ◌⊎◌, inl, inr, Bool,
  true, false, ◌||◌, Option, none, some, List, [], arith, ◌==◌, if◌then◌else◌, Bool-cases, ◌>>=◌,
}
use moon_os.Memory.Paging.Walk.{lookup_local, follow_same}
use moon_os.Memory.Pmm.{BitmapAllocator, alloc_frame}
use moon_os.Memory.Paging.Tree.{Taken, take_frame_lem}
use moon_os.Loaders.Outcome.{
  done, LoadError, alloc_frame_or, map_or_panic, take_frame_or, Outcome, and_then-done,
}
use moon_os.Memory.Paging.{
  Machine, take_frame, addr_mask, page_indices, zero_frame, translate_in, map_in,
}
use moon_os.Memory.Paging.Spaces.{
  same_page, IsSpace, translate_in-walk, translate_in-map_in, map_in-IsSpace,
}
use moon_os.Loaders.Elf.{map_pages}

-- The pages of the mapping loop.
abbrev pub covers : ℕ → ℕ → ℕ → Bool
covers zero page v = false
covers (suc n) page v = same_page v page || covers n (page + 4096) v

-- A loop keeps the tree, gives each of its pages a frame, and leaves the other pages alone.
pub record Covers (s : Machine) (root n page : ℕ) (s' : Machine) : Type 0 where
  pub space : IsSpace s' root
  pub inside : (v : ℕ) → covers n page v ≡ true → translate_in root v s' ≢ none
  pub outside : (v : ℕ) → covers n page v ≡ false → translate_in root v s' ≡ translate_in root v s

pair_done :
    (e : LoadError) (s : Machine) (o : Option (Option ℕ × Option BitmapAllocator)) (f : ℕ)
    (s' : Machine)
    → take_frame_or e o s ≡ done f s'
    → (o >>= λ (r : Option ℕ × Option BitmapAllocator). r.0 >>= λ (frame : ℕ).
        ◌>>=◌ {B = ℕ × Machine} (some frame) (λ g. some (g, record s { frames = r.1 })))
      ≡ some (f, s')
unfolding take_frame_or
pair_done e s none f s' h = cc
pair_done e s (some (none, frames)) f s' h = cc
pair_done e s (some (some g, frames)) f s' h = ground arith

alloc_frame_or-take_frame :
    (e : LoadError) (s : Machine) (f : ℕ) (s' : Machine)
    → alloc_frame_or e s ≡ done f s'
    → take_frame s ≡ some (f, s')
unfolding alloc_frame_or take_frame
alloc_frame_or-take_frame e s f s' h = pair_done e s (alloc_frame s.frames) f s' h

unlabelled_before :
    (b : Bool) (p : List ℕ) (l : Option (List ℕ)) → (if b then some p else l) ≡ none → l ≡ none
unlabelled_before b p l h = ground arith

-- A frame for data is no table: taking and zeroing one changes no translation.
module _ (s : Machine) (root f : ℕ) (s1 : Machine) (space : IsSpace s root)
    (got : take_frame s ≡ some (f, s1)) where
  fresh : Taken s space.label f s1
  fresh = take_frame_lem s space.label f s1 space.tree.has got

  zeroed :
      (x : ℕ) (q : List ℕ) (j : ℕ)
      → space.label x ≡ some q
      → (zero_frame f s1).tables x j ≡ s.tables x j
  unfolding zero_frame
  zeroed x q j lab =
      ground (arith, fresh.unlabelled, ap (λ (tables : ℕ → ℕ → ℕ). tables x j) fresh.tables)

  zeroed-IsSpace : IsSpace (zero_frame f s1) root
  unfolding zero_frame
  zeroed-IsSpace =
      let h = fresh.has [] in
      record {
        label = space.label;
        tree = record {
          has = record {
            allocator = h.allocator;
            here = h.here;
            valid = h.valid;
            small = h.small;
            unlabelled =
                λ j lt free. unlabelled_before (j * 4096 == f) [] _ (h.unlabelled j lt free);
          };
          linked = λ t p i u lab len now.
              space.tree.linked t p i u lab len
                (sym (follow_same (zero_frame f s1).tables s.tables t i (zeroed t p i lab)) ∙ now);
        };
        rooted = space.rooted;
      }

  translate_in-zeroed : (v : ℕ) → translate_in root v (zero_frame f s1) ≡ translate_in root v s
  translate_in-zeroed v =
      translate_in-walk root v (zero_frame f s1)
      ∙ ap (λ (o : Option ℕ). o >>= λ frame. some (frame + v % 4096))
          (lookup_local s space.label (zero_frame f s1).tables root [] (page_indices v) space.tree
            space.rooted (omega arith) (λ x q j lab under. zeroed x q j lab))
      ∙ sym (translate_in-walk root v s)

map_or_panic-done : (o : Option Machine) (s' : Machine) → map_or_panic o ≡ done tt s' → o ≡ some s'
unfolding map_or_panic
map_or_panic-done none s' h = cc
map_or_panic-done (some s) s' h = ground arith

-- One round, then the others.
Covers-step :
    (s : Machine) (root n page f flags : ℕ) (s1 s2 s' : Machine)
    → IsSpace s root
    → bit_and flags addr_mask ≡ 0
    → take_frame s ≡ some (f, s1)
    → map_in root page f flags (zero_frame f s1) ≡ some s2
    → Covers s2 root n (page + 4096) s'
    → Covers s root (suc n) page s'
Covers-step s root n page f flags s1 s2 s' space clean got mapped rest = record {
  space = rest.space;
  inside = λ v here none_now. first v here (Bool-cases (covers n (page + 4096) v)) none_now;
  outside = λ v away.
      rest.outside v (ground arith)
      ∙ now v
      ∙ rw (page_apart v away) (translate_in-zeroed s root f s1 space got v);
}
  where
    now :
        (v : ℕ)
        → translate_in root v s2 ≡ (
            if same_page v page
            then some (bit_and f addr_mask + v % 4096)
            else translate_in root v (zero_frame f s1))
    now v =
        translate_in-map_in (zero_frame f s1) s2 root page f flags
          (zeroed-IsSpace s root f s1 space got) mapped clean v

    page_apart : (v : ℕ) → covers (suc n) page v ≡ false → same_page v page ≡ false
    page_apart v away = ground arith

    first :
        (v : ℕ)
        → covers (suc n) page v ≡ true
        → (covers n (page + 4096) v ≡ true) ⊎ (covers n (page + 4096) v ≡ false)
        → translate_in root v s' ≢ none
    first v here (inl later) none_now = rest.inside v later none_now
    first v here (inr only) none_now = cc (rest.outside v only, now v, none_now, own)
      where
        own : same_page v page ≡ true
        own = ground arith

same_machine : (s s' : Machine) → ◌≡◌ {A = Outcome (Unit {0})} (done tt s) (done tt s') → s ≡ s'
same_machine s s' h = ground arith

pub map_pages_lem :
    (n root page flags : ℕ) (e : LoadError) (s s' : Machine)
    → IsSpace s root
    → bit_and flags addr_mask ≡ 0
    → map_pages n root page flags e s ≡ done tt s'
    → Covers s root n page s'
unfolding map_pages
map_pages_lem zero root page flags e s s' space clean h =
    subst (λ (m : Machine). Covers s root zero page m) (same_machine s s' h)
      (record { space = space; inside = λ v here. absurd (cc here); outside = λ v away. refl })
map_pages_lem (suc n) root page flags e s s' space clean h =
    let (f, s1, taken, rest) = and_then-done _ _ _ _ h in
    let (unit, s2, mapped, last) =
      and_then-done (map_or_panic (map_in root page f flags (zero_frame f s1)))
        (λ (u : Unit {0}). map_pages n root (page + 4096) flags e) tt s' rest in
    let got = alloc_frame_or-take_frame e s f s1 taken in
    let there = map_or_panic-done (map_in root page f flags (zero_frame f s1)) s2 mapped in
    Covers-step s root n page f flags s1 s2 s' space clean got there (
      map_pages_lem n root (page + 4096) flags e s2 s'
        (map_in-IsSpace (zero_frame f s1) s2 root page f flags
          (zeroed-IsSpace s root f s1 space got) there)
        clean last)
