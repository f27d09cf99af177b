-- ===== src/Memory/Paging/Spaces.antt =====
-- `map_in`, `unmap_in` and `translate_in` of paging.rs against the view of an address space as a
-- function from pages to frames.
use moon_os.Common.{
  ℕ, ◌+◌, ◌/◌, ◌%◌, ◌^◌, bit_and, ◌≡◌, refl, sym, ap, ap₂, ◌∙◌, subst, ◌≢◌, ◌⊎◌, inl, inr, Bool,
  true, false, Option, some, List, [], ◌∷◌, arith, ◌==◌, if◌then◌else◌, ==_iff, Bool-cases, ◌>>=◌,
  >>=-eq-some, >>=_assoc, get_or,
}
use mathlib.Core.Option.{some-injective}
use moon_os.Memory.Paging.Entries.{leaf_entry-address, leaf_entry-present}
use moon_os.Memory.Paging.{
  Machine, read_cr3, follow, invalidate, leaf_entry, map_in, translate_in, addr_mask, page_indices,
}
use moon_os.Memory.Paging.Tree.{Label, IsTree}
use moon_os.Memory.Paging.Walk.{lookup, install, Installed, install_lem}

-- The tables below `root` are a tree.
pub record IsSpace (s : Machine) (root : ℕ) : Type 0 where
  pub label : Label
  pub tree : IsTree s label
  pub rooted : label root ≡ some []

-- What `translate_in` reads.
abbrev pub walk : (ℕ → ℕ → ℕ) → ℕ → ℕ → Option ℕ
walk tables root virt = lookup tables root (page_indices virt)

pub translate_in-walk :
    (root virt : ℕ) (s : Machine)
    → translate_in root virt s ≡ (walk s.tables root virt >>= λ frame. some (frame + virt % 4096))
unfolding translate_in
translate_in-walk root virt s = simp (>>=_assoc) (refl)

-- The canonical lower or upper half, as 48 bits.
abbrev pub same_page : ℕ → ℕ → Bool
same_page v w = v / 4096 % 2 ^ 36 == w / 4096 % 2 ^ 36

pub same_indices : (v w : ℕ) → same_page v w ≡ true → page_indices v ≡ page_indices w
same_indices v w h =
    ap₂ (λ (a : ℕ) (l : List ℕ). a ∷ l) (omega (arith, e))
      (ap₂ (λ (a : ℕ) (l : List ℕ). a ∷ l) (omega (arith, e))
        (ap₂ (λ (a : ℕ) (l : List ℕ). a ∷ l) (omega (arith, e))
          (ap (λ (a : ℕ). a ∷ []) (omega (arith, e)))))
  where
    e : v / 4096 % 2 ^ 36 ≡ w / 4096 % 2 ^ 36
    e = (==_iff _ _).0 h

other_indices : (v w : ℕ) → same_page v w ≡ false → page_indices v ≢ page_indices w
other_indices v w h e = cc ((==_iff _ _).1 same, h)
  where
    same : v / 4096 % 2 ^ 36 ≡ w / 4096 % 2 ^ 36
    same = omega (
      arith,
      ap (λ (l : List ℕ). get_or l 0 0) e,
      ap (λ (l : List ℕ). get_or l 1 0) e,
      ap (λ (l : List ℕ). get_or l 2 0) e,
      ap (λ (l : List ℕ). get_or l 3 0) e,
    )

map_in-install :
    (root virt phys flags : ℕ) (s : Machine)
    → map_in root virt phys flags s ≡ (
        install
          (leaf_entry phys flags)
          flags
          root
          (virt / 2 ^ 39 % 512)
          ((virt / 2 ^ 30 % 512) ∷ (virt / 2 ^ 21 % 512) ∷ (virt / 2 ^ 12 % 512) ∷ [])
          s
        >>= λ s'. some (invalidate root virt s'))
unfolding map_in
map_in-install root virt phys flags s = simp (>>=_assoc) (refl)

pub invalidate_keeps :
    (root virt : ℕ) (s : Machine)
    → ((invalidate root virt s).tables ≡ s.tables) × ((invalidate root virt s).frames ≡ s.frames)
unfolding invalidate
invalidate_keeps root virt s = elim (Bool-cases (root == read_cr3 s)) [
  | inl e ↦ (rw e refl, rw e refl)
  | inr e ↦ (rw e refl, rw e refl)
]

pub IsTree-of :
    (s s' : Machine) (label : Label)
    → (s'.tables ≡ s.tables) × (s'.frames ≡ s.frames)
    → IsTree s label
    → IsTree s' label
IsTree-of s s' label (tables, frames) tree = record {
  has = record {
    allocator = tree.has.allocator;
    here = frames ∙ tree.has.here;
    valid = tree.has.valid;
    small = tree.has.small;
    unlabelled = tree.has.unlabelled;
  };
  linked = λ t p i u lab len now.
      tree.linked t p i u lab len (ap (λ (view : ℕ → ℕ → ℕ). follow view t i) (sym tables) ∙ now);
}

pub translate_in-of :
    (s s' : Machine) (root v : ℕ)
    → s'.tables ≡ s.tables
    → translate_in root v s' ≡ translate_in root v s
translate_in-of s s' root v e =
    translate_in-walk root v s'
    ∙ ap (λ (view : ℕ → ℕ → ℕ). walk view root v >>= λ frame. some (frame + v % 4096)) e
    ∙ sym (translate_in-walk root v s)

module _ (s s' : Machine) (root virt phys flags : ℕ) (space : IsSpace s root)
    (mapped : map_in root virt phys flags s ≡ some s') where
  parts :
      (s1 : Machine) × Installed s space.label
        (leaf_entry phys flags)
        root
        (virt / 2 ^ 39 % 512)
        ((virt / 2 ^ 30 % 512) ∷ (virt / 2 ^ 21 % 512) ∷ (virt / 2 ^ 12 % 512) ∷ [])
        []
        s1
      × (invalidate root virt s1 ≡ s')
  parts =
      let (s1, installed, e) =
        >>=-eq-some _ _ (sym (map_in-install root virt phys flags s) ∙ mapped) in
      (
        s1,
        install_lem (leaf_entry phys flags) flags (leaf_entry-present phys flags) root _ _ [] s s1
            space.label space.tree space.rooted refl installed,
        some-injective _ _ e,
      )

  -- `map_in` keeps the tables below the space's root a tree of tables that are not free frames.
  pub map_in-IsSpace : IsSpace s' root
  map_in-IsSpace =
      let (s1, done, e) = parts in
      record {
        label = done.relabel;
        tree =
            subst (λ (m : Machine). IsTree m done.relabel) e
              (IsTree-of s1 (invalidate root virt s1) done.relabel (invalidate_keeps root virt s1)
                done.tree);
        rooted = done.extends root [] space.rooted;
      }

  mapped_walk :
      bit_and flags addr_mask ≡ 0
      → (v : ℕ) (s1 : Machine)
      → Installed s space.label
          (leaf_entry phys flags)
          root
          (virt / 2 ^ 39 % 512)
          ((virt / 2 ^ 30 % 512) ∷ (virt / 2 ^ 21 % 512) ∷ (virt / 2 ^ 12 % 512) ∷ [])
          []
          s1
      → (same_page v virt ≡ true) ⊎ (same_page v virt ≡ false)
      → (walk s1.tables root v >>= λ frame. some (frame + v % 4096)) ≡ (
          if same_page v virt
          then some (bit_and phys addr_mask + v % 4096)
          else translate_in root v s)
  mapped_walk clean v s1 done (inl here) =
      ap (λ (is : List ℕ). lookup s1.tables root is >>= λ frame. some (frame + v % 4096))
        (same_indices v virt here)
      ∙ ap (λ (o : Option ℕ). o >>= λ frame. some (frame + v % 4096)) done.found
      ∙ rw (here, leaf_entry-address phys flags clean) refl
  mapped_walk clean v s1 done (inr away) =
      ap (λ (o : Option ℕ). o >>= λ frame. some (frame + v % 4096))
        (done.others _ _ refl (other_indices v virt away))
      ∙ sym (translate_in-walk root v s)
      ∙ rw away refl

  -- If `map_in` returns in a space whose tables are a tree, and the flags have no address bits, then
  -- every address in the mapped page translates to its place in the frame, and every address
  -- outside the page translates as before.
  pub translate_in-map_in :
      bit_and flags addr_mask ≡ 0
      → (v : ℕ)
      → translate_in root v s' ≡ (
          if same_page v virt
          then some (bit_and phys addr_mask + v % 4096)
          else translate_in root v s)
  translate_in-map_in clean v =
      let (s1, done, e) = parts in
      let same = (invalidate_keeps root virt s1).0 in
      ap (λ (m : Machine). translate_in root v m) (sym e)
      ∙ translate_in-of s1 (invalidate root virt s1) root v same
      ∙ translate_in-walk root v s1
      ∙ mapped_walk clean v s1 done (Bool-cases (same_page v virt))
