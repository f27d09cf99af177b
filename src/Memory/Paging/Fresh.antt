-- ===== src/Memory/Paging/Fresh.antt =====
-- `AddressSpace::new` of paging.rs: the upper half is the boot space's, and the lower half is empty.
use moon_os.Common.{
  ℕ, zero, suc, ◌+◌, ◌/◌, ◌%◌, ◌^◌, ◌<◌, ◌≡◌, refl, sym, ap, ◌∙◌, subst, ◌≢◌, inl, inr, Bool, true,
  false, ◌&&◌, Option, none, some, List, [], ◌∷◌, arith, ltb, leb, ◌==◌, if◌then◌else◌, lt→ltb,
  ==_iff, Bool-cases, ◌>>=◌, >>=-eq-some, length,
}
use mathlib.Core.Option.{some-injective}
use moon_os.Memory.Paging.Walk.{follow_same, bind_same, lookup_local}
use moon_os.Memory.Paging.Unmap.{zero_entry}
use moon_os.Memory.Paging.Tree.{Taken, Label, IsTree, take_frame_lem}
use moon_os.Memory.Paging.Spaces.{walk, translate_in-walk, IsSpace}
use moon_os.Memory.Paging.{
  copy_entries, write_entry, Machine, zero_frame, follow, translate_in, page_indices, new_space,
  read_cr3,
}

copy_entries_tables :
    (n i boot root : ℕ) (s : Machine) (x j : ℕ)
    → boot ≢ root
    → (copy_entries n i boot root s).tables x j
      ≡ (if x == root && (leb i j && ltb j (i + n)) then s.tables boot j else s.tables x j)
unfolding copy_entries write_entry
copy_entries_tables zero i boot root s x j apart = ground arith
copy_entries_tables (suc n) i boot root s x j apart =
    ground
      (arith, copy_entries_tables n (i + 1) boot root (write_entry root i (s.tables boot i) s) x j)

copy_entries_frames :
    (n i boot root : ℕ) (s : Machine) → (copy_entries n i boot root s).frames ≡ s.frames
unfolding copy_entries write_entry
copy_entries_frames zero i boot root s = refl
copy_entries_frames (suc n) i boot root s =
    copy_entries_frames n (i + 1) boot root (write_entry root i (s.tables boot i) s)

-- The half of a page that the processes share.
abbrev is_higher : ℕ → Bool
is_higher v = leb 256 (v / 2 ^ 39 % 512)

from_entry :
    (tables tables' : ℕ → ℕ → ℕ) (t t' i : ℕ)
    → tables t i ≡ tables' t' i
    → follow tables t i ≡ follow tables' t' i
unfolding follow
from_entry tables tables' t t' i e = rw e refl

root_label :
    (b : Bool) (l : Option (List ℕ)) (p : List ℕ)
    → b ≡ true
    → (if b then some [] else l) ≡ some p
    → p ≡ []
root_label b l p e lab = ground arith

other_label :
    (b : Bool) (l : Option (List ℕ)) (p : List ℕ)
    → b ≡ false
    → (if b then some [] else l) ≡ some p
    → l ≡ some p
other_label b l p e lab = ground arith

module _ (s : Machine) (label : Label) (boot root : ℕ) (tree : IsTree s label)
    (rooted : label boot ≡ some []) (s1 : Machine) (taken : Taken s label root s1) where
  created : Machine
  created = copy_entries 256 256 boot root (zero_frame root s1)

  boot_apart : boot ≢ root
  boot_apart e = cc (ap label e, rooted, taken.unlabelled)

  created_tables :
      (x j : ℕ)
      → created.tables x j ≡ (
          if x == root
          then (if leb 256 j && ltb j 512 then s.tables boot j else 0)
          else s.tables x j)
  unfolding created zero_frame
  created_tables x j =
      copy_entries_tables 256 256 boot root (zero_frame root s1) x j boot_apart
      ∙ ground (
        arith,
        boot_apart,
        ap (λ (tables : ℕ → ℕ → ℕ). tables x j) taken.tables,
        ap (λ (tables : ℕ → ℕ → ℕ). tables boot j) taken.tables,
      )

  created_label : Label
  created_label x = if x == root then some [] else label x

  kept : (x : ℕ) (q : List ℕ) (j : ℕ) → label x ≡ some q → created.tables x j ≡ s.tables x j
  kept x q j lab = created_tables x j ∙ ground (arith, taken.unlabelled)

  still : (x : ℕ) (q : List ℕ) → label x ≡ some q → created_label x ≡ some q
  unfolding created_label
  still x q lab = ground (arith, taken.unlabelled)

  root_upper :
      (j : ℕ) → leb 256 j ≡ true → j < 512 → follow created.tables root j ≡ follow s.tables boot j
  root_upper j high small =
      from_entry created.tables s.tables root boot j
        (created_tables root j ∙ ground (arith, lt→ltb j 512 small))

  root_lower : (j : ℕ) → leb 256 j ≡ false → follow created.tables root j ≡ none
  root_lower j low = zero_entry created.tables root j (created_tables root j ∙ ground arith)

  -- Indices are below 512 in the entries that the processor reads; the model's others are empty.
  root_follow : (j u : ℕ) → follow created.tables root j ≡ some u → follow s.tables boot j ≡ some u
  root_follow j u now = elim (Bool-cases (leb 256 j && ltb j 512)) [
    | inl within ↦
        sym (from_entry created.tables s.tables root boot j (created_tables root j ∙ ground arith))
        ∙ now
    | inr outside ↦
        cc (zero_entry created.tables root j (created_tables root j ∙ ground arith), now)
  ]

  created_linked :
      (x : ℕ) (p : List ℕ) (j u : ℕ)
      → created_label x ≡ some p
      → length p < 3
      → follow created.tables x j ≡ some u
      → created_label u ≡ some (j ∷ p)
  unfolding created_label
  created_linked x p j u lab short now = elim (Bool-cases (x == root)) [
    | inl self ↦ rw (root_label (x == root) (label x) p self lab) (
        still u (j ∷ []) (
          tree.linked boot [] j u rooted (omega arith)
            (root_follow j u (rw ((==_iff x root).0 self) at now))))
    | inr other ↦ still u (j ∷ p) (
        tree.linked x p j u (other_label (x == root) (label x) p other lab) short (
          sym (follow_same created.tables s.tables x j (created_tables x j ∙ rw other refl)) ∙ now))
  ]

  created-IsTree : IsTree created created_label
  unfolding created zero_frame created_label
  created-IsTree =
      let h = taken.has [] in
      record {
        has = record {
          allocator = h.allocator;
          here = copy_entries_frames 256 256 boot root (zero_frame root s1) ∙ h.here;
          valid = h.valid;
          small = h.small;
          unlabelled = h.unlabelled;
        };
        linked = created_linked;
      }

  translate_in-boot : (v : ℕ) → translate_in boot v created ≡ translate_in boot v s
  translate_in-boot v =
      translate_in-walk boot v created
      ∙ ap (λ (o : Option ℕ). o >>= λ frame. some (frame + v % 4096))
          (lookup_local s label created.tables boot [] (page_indices v) tree rooted (omega arith)
            (λ x q j lab under. kept x q j lab))
      ∙ sym (translate_in-walk boot v s)

  walk_root :
      (v : ℕ) → walk created.tables root v ≡ (if is_higher v then walk s.tables boot v else none)
  walk_root v = elim (Bool-cases (is_higher v)) [
    | inl high ↦ rw high (
        bind_same _ _ _ _ (root_upper _ high (omega arith)) (λ w to.
          lookup_local s label created.tables w ((v / 2 ^ 39 % 512) ∷ [])
            ((v / 2 ^ 30 % 512) ∷ (v / 2 ^ 21 % 512) ∷ (v / 2 ^ 12 % 512) ∷ []) tree
            (tree.linked boot [] _ w rooted (omega arith) to) (omega arith)
            (λ x q j lab under. kept x q j lab)))
    | inr low ↦ rw (low, root_lower (v / 2 ^ 39 % 512) low) refl
  ]

  high_walk : (v : ℕ) → is_higher v ≡ true → walk created.tables root v ≡ walk s.tables boot v
  high_walk v high = walk_root v ∙ rw high refl

  low_walk : (v : ℕ) → is_higher v ≡ false → walk created.tables root v ≡ none
  low_walk v low = walk_root v ∙ rw low refl

  translate_in-root :
      (v : ℕ) → translate_in root v created ≡ (if is_higher v then translate_in boot v s else none)
  translate_in-root v = elim (Bool-cases (is_higher v)) [
    | inl high ↦
        translate_in-walk root v created
        ∙ rw (high_walk v high, high) (sym (translate_in-walk boot v s))
    | inr low ↦ translate_in-walk root v created ∙ rw (low_walk v low, low) refl
  ]

zeroed_cr3 : (s s1 : Machine) (f : ℕ) → s1.cr3 ≡ s.cr3 → read_cr3 (zero_frame f s1) ≡ read_cr3 s
unfolding read_cr3 zero_frame
zeroed_cr3 s s1 f e = rw e refl

new_space_parts :
    (s s' : Machine) (label : Label) (root : ℕ)
    → IsTree s label
    → new_space s ≡ some (root, s')
    → (s1 : Machine) × Taken s label root s1
      × (copy_entries 256 256 (read_cr3 s) root (zero_frame root s1) ≡ s')
unfolding new_space
new_space_parts s s' label root tree made =
    let ((f, s1), got, e) = >>=-eq-some _ _ made in
    let taken = take_frame_lem s label f s1 tree.has got in
    let pair = some-injective _ _ e in
    let same : f ≡ root = ap (λ (r : ℕ × Machine). r.0) pair in
    (
      s1,
      subst (λ (x : ℕ). Taken s label x s1) same taken,
      subst (λ (x : ℕ). copy_entries 256 256 (read_cr3 s) x (zero_frame x s1) ≡ s') same
          (ap (λ (boot : ℕ). copy_entries 256 256 boot f (zero_frame f s1))
              (sym (zeroed_cr3 s s1 f taken.cr3))
            ∙ ap (λ (r : ℕ × Machine). r.1) pair),
    )

-- What a new address space is to the boot space it is copied from.
pub record Opens (s : Machine) (boot root : ℕ) (s' : Machine) : Type 0 where
  pub space : IsSpace s' root
  pub boot_space : IsSpace s' boot
  pub upper : (v : ℕ) → is_higher v ≡ true → translate_in root v s' ≡ translate_in boot v s
  pub lower : (v : ℕ) → is_higher v ≡ false → translate_in root v s' ≡ none
  pub boot_same : (v : ℕ) → translate_in boot v s' ≡ translate_in boot v s

-- When the running space's tables are a tree and `AddressSpace::new` finds a frame, then the new
-- space's tables and the old ones are trees that the mapping functions may go on with, an address in
-- the upper half translates as in the running space, one in the lower half to nothing, and the
-- running space translates every address as before.
pub new_space_lem :
    (s s' : Machine) (root : ℕ)
    → IsSpace s (read_cr3 s)
    → new_space s ≡ some (root, s')
    → Opens s (read_cr3 s) root s'
unfolding created created_label
new_space_lem s s' root space made =
    let (s1, taken, e) = new_space_parts s s' space.label root space.tree made in
    let boot = read_cr3 s in
    subst (λ (m : Machine). Opens s (read_cr3 s) root m) e
      (record {
        space = record {
          label = created_label s space.label boot root space.tree space.rooted s1 taken;
          tree = created-IsTree s space.label boot root space.tree space.rooted s1 taken;
          rooted = ground arith;
        };
        boot_space = record {
          label = created_label s space.label boot root space.tree space.rooted s1 taken;
          tree = created-IsTree s space.label boot root space.tree space.rooted s1 taken;
          rooted =
              still s space.label boot root space.tree space.rooted s1 taken boot [] space.rooted;
        };
        upper = λ v high.
            translate_in-root s space.label boot root space.tree space.rooted s1 taken v
            ∙ rw high refl;
        lower = λ v low.
            translate_in-root s space.label boot root space.tree space.rooted s1 taken v
            ∙ rw low refl;
        boot_same =
            λ v. translate_in-boot s space.label boot root space.tree space.rooted s1 taken v;
      })
