-- ===== src/Memory/Paging/Unmap.antt =====
-- `unmap_in` of paging.rs against the view of an address space.
use moon_os.Common.{
  ℕ, ◌+◌, ◌/◌, ◌%◌, ◌^◌, ◌<◌, ◌≡◌, refl, sym, ap, ◌∙◌, ◌≢◌, ◌⊎◌, inl, inr, true, false, Option,
  none, some, List, [], ◌∷◌, arith, if◌then◌else◌, ==_iff, Bool-cases, Option-cases, ◌>>=◌,
  >>=-eq-some, >>=_assoc, >>=-some, length, get_or,
}
use moon_os.Memory.Paging.Walk.{bind_same, follow_same, unwritten, same_label, lookup}
use moon_os.Memory.Paging.Tree.{Label, IsTree}
use moon_os.Memory.Paging.Spaces.{
  same_page, IsSpace, translate_in-of, walk, IsTree-of, translate_in-walk, invalidate_keeps,
  same_indices,
}
use moon_os.Memory.Paging.{
  Machine, follow, page_table, write_entry, unmap_in, translate_in, invalidate,
}

IsSpace-of :
    (s s' : Machine) (root : ℕ)
    → (s'.tables ≡ s.tables) × (s'.frames ≡ s.frames)
    → IsSpace s root
    → IsSpace s' root
IsSpace-of s s' root same space = record {
  label = space.label;
  tree = IsTree-of s s' space.label same space.tree;
  rooted = space.rooted;
}

-- The tables to a page table are above the level that `unmap_in` writes.
page_table_same :
    (s : Machine) (label : Label) (tables : ℕ → ℕ → ℕ) (root v : ℕ)
    → IsTree s label
    → label root ≡ some []
    → ((x : ℕ) (q : List ℕ) (j : ℕ) → label x ≡ some q → length q < 3 → tables x j ≡ s.tables x j)
    → page_table tables root v ≡ page_table s.tables root v
unfolding page_table
page_table_same s label tables root v tree rooted same =
    bind_same _ _ _ _ (follow_same tables s.tables root _ (same root [] _ rooted (omega arith)))
      (λ a at_a.
        let label_a = tree.linked root [] _ a rooted (omega arith) at_a in
        bind_same _ _ _ _ (follow_same tables s.tables a _ (same a _ _ label_a (omega arith)))
          (λ b at_b.
            let label_b = tree.linked a _ _ b label_a (omega arith) at_b in
            follow_same tables s.tables b _ (same b _ _ label_b (omega arith))))

abbrev path_of : ℕ → List ℕ
path_of v = (v / 2 ^ 21 % 512) ∷ (v / 2 ^ 30 % 512) ∷ (v / 2 ^ 39 % 512) ∷ []

page_table-label :
    (s : Machine) (label : Label) (root v pt : ℕ)
    → IsTree s label
    → label root ≡ some []
    → page_table s.tables root v ≡ some pt
    → label pt ≡ some (path_of v)
unfolding page_table
page_table-label s label root v pt tree rooted e =
    let (a, at_a, rest) = >>=-eq-some _ _ e in
    let (b, at_b, last) = >>=-eq-some _ _ rest in
    tree.linked b _ _ pt
      (tree.linked a _ _ b (tree.linked root [] _ a rooted (omega arith) at_a) (omega arith) at_b)
      (omega arith) last

pub zero_entry : (tables : ℕ → ℕ → ℕ) (t i : ℕ) → tables t i ≡ 0 → follow tables t i ≡ none
unfolding follow
zero_entry tables t i e = rw e refl

apart_path :
    (v w : ℕ) → same_page v w ≡ false → path_of v ≡ path_of w → v / 2 ^ 12 % 512 ≢ w / 2 ^ 12 % 512
apart_path v w h e last = cc ((==_iff _ _).1 same, h)
  where
    same : v / 4096 % 2 ^ 36 ≡ w / 4096 % 2 ^ 36
    same = omega (
      arith,
      ap (λ (l : List ℕ). get_or l 0 0) e,
      ap (λ (l : List ℕ). get_or l 1 0) e,
      ap (λ (l : List ℕ). get_or l 2 0) e,
    )

walk-page_table :
    (tables : ℕ → ℕ → ℕ) (root v : ℕ)
    → walk tables root v ≡ (page_table tables root v >>= λ pt. follow tables pt (v / 2 ^ 12 % 512))
unfolding page_table
walk-page_table tables root v = simp (>>=_assoc, >>=-some) (refl)

untranslated :
    (s : Machine) (root v virt : ℕ)
    → same_page v virt ≡ true
    → (page_table s.tables root virt >>= λ pt. follow s.tables pt (virt / 2 ^ 12 % 512)) ≡ none
    → translate_in root v s ≡ none
untranslated s root v virt here missing =
    translate_in-walk root v s
    ∙ ap (λ (is : List ℕ). lookup s.tables root is >>= λ frame. some (frame + v % 4096))
        (same_indices v virt here)
    ∙ ap (λ (o : Option ℕ). o >>= λ frame. some (frame + v % 4096))
        (walk-page_table s.tables root virt ∙ missing)

module _ (s : Machine) (root virt : ℕ) (space : IsSpace s root) where
  module _ (pt : ℕ) (at_pt : page_table s.tables root virt ≡ some pt) where
    pt_label : space.label pt ≡ some (path_of virt)
    pt_label = page_table-label s space.label root virt pt space.tree space.rooted at_pt

    cleared : Machine
    cleared = write_entry pt (virt / 2 ^ 12 % 512) 0 s

    above :
        (x : ℕ) (q : List ℕ) (j : ℕ)
        → space.label x ≡ some q
        → length q < 3
        → cleared.tables x j ≡ s.tables x j
    unfolding cleared write_entry
    above x q j lab short = unwritten (s.tables x j) 0 x pt j (virt / 2 ^ 12 % 512) (λ e. absurd (
        omega (
          arith,
          ap (λ (l : List ℕ). length l)
              (same_label space.label x pt (path_of virt) q pt_label lab e),
        )))

    cleared-IsSpace : IsSpace cleared root
    unfolding cleared write_entry
    cleared-IsSpace = record {
      label = space.label;
      tree = record {
        has = record {
          allocator = space.tree.has.allocator;
          here = space.tree.has.here;
          valid = space.tree.has.valid;
          small = space.tree.has.small;
          unlabelled = space.tree.has.unlabelled;
        };
        linked = λ t p i u lab len now.
            space.tree.linked t p i u lab len
              (sym (follow_same cleared.tables s.tables t i (above t p i lab len)) ∙ now);
      };
      rooted = space.rooted;
    }

    same_tables : (v : ℕ) → page_table cleared.tables root v ≡ page_table s.tables root v
    same_tables v =
        page_table_same s space.label cleared.tables root v space.tree space.rooted above

    cleared_self : follow cleared.tables pt (virt / 2 ^ 12 % 512) ≡ none
    unfolding cleared write_entry
    cleared_self = zero_entry cleared.tables pt (virt / 2 ^ 12 % 512) (ground arith)

    cleared_other :
        (v w : ℕ)
        → same_page v virt ≡ false
        → page_table s.tables root v ≡ some w
        → follow cleared.tables w (v / 2 ^ 12 % 512) ≡ follow s.tables w (v / 2 ^ 12 % 512)
    unfolding cleared write_entry
    cleared_other v w away at_w = follow_same cleared.tables s.tables w (v / 2 ^ 12 % 512) (
        unwritten (s.tables w (v / 2 ^ 12 % 512)) 0 w pt (v / 2 ^ 12 % 512) (virt / 2 ^ 12 % 512)
          (λ e. apart_path v virt away (
            same_label space.label w pt (path_of virt) (path_of v) pt_label
              (page_table-label s space.label root v w space.tree space.rooted at_w) e)))

    translate_in-cleared :
        (v : ℕ)
        → (same_page v virt ≡ true) ⊎ (same_page v virt ≡ false)
        → translate_in root v cleared ≡ (if same_page v virt then none else translate_in root v s)
    unfolding translate_in
    translate_in-cleared v (inl here) =
        untranslated cleared root v virt here (rw (same_tables virt ∙ at_pt) cleared_self)
        ∙ rw here refl
    translate_in-cleared v (inr away) =
        bind_same _ _ _ _ (same_tables v) (λ w at_w.
          ap (λ (o : Option ℕ). o >>= λ frame. some (frame + v % 4096))
            (cleared_other v w away at_w))
        ∙ rw away refl

  unmapped :
      (v : ℕ)
      → page_table s.tables root virt ≡ none
      → (same_page v virt ≡ true) ⊎ (same_page v virt ≡ false)
      → translate_in root v s ≡ (if same_page v virt then none else translate_in root v s)
  unmapped v missing (inl here) = untranslated s root v virt here (rw missing refl) ∙ rw here refl
  unmapped v missing (inr away) = rw away refl

  -- `unmap_in` keeps the tables below the space's root a tree of tables that are not free frames.
  pub unmap_in-IsSpace : IsSpace (unmap_in root virt s) root
  unfolding unmap_in cleared
  unmap_in-IsSpace = elim (Option-cases (page_table s.tables root virt)) [
    | inl missing ↦ rw (missing, unmap_in) space
    | inr (pt, found) ↦
        rw (found, unmap_in)
          (IsSpace-of (cleared pt found) (invalidate root virt (cleared pt found)) root
            (invalidate_keeps root virt (cleared pt found)) (cleared-IsSpace pt found))
  ]

  -- After `unmap_in` in a space whose tables are a tree, no address in the page translates, and
  -- every address outside the page translates as before.
  pub translate_in-unmap_in :
      (v : ℕ)
      → translate_in root v (unmap_in root virt s)
        ≡ (if same_page v virt then none else translate_in root v s)
  unfolding unmap_in cleared
  translate_in-unmap_in v = elim (Option-cases (page_table s.tables root virt)) [
    | inl missing ↦ rw (missing, unmap_in) (unmapped v missing (Bool-cases (same_page v virt)))
    | inr (pt, found) ↦
        rw (found, unmap_in)
          (translate_in-of (cleared pt found) (invalidate root virt (cleared pt found)) root v
              (invalidate_keeps root virt (cleared pt found)).0
            ∙ translate_in-cleared pt found v (Bool-cases (same_page v virt)))
  ]
