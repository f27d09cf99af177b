-- ===== src/Memory/Paging/Next.antt =====
-- `next_table` of paging.rs keeps the tables a tree, and changes one entry at most.
use moon_os.Common.{
  ℕ, ◌<◌, bit_and, ◌≡◌, refl, sym, ap, ◌∙◌, subst, ◌≢◌, ◌⊎◌, inl, inr, Bool, true, false, ◌&&◌,
  Option, none, some, List, ◌∷◌, arith, ◌==◌, if◌then◌else◌, ==-ne, Bool-cases, Option-cases, ◌>>=◌,
  length,
}
use mathlib.Core.Option.{some-injective}
use moon_os.Memory.Paging.{
  Machine, take_frame, fresh_table, zero_frame, write_entry, follow, next_table, table_entry,
  flag_user, flag_present, addr_mask,
}
use moon_os.Memory.Paging.Entries.{table_entry-present, table_entry-address}
use moon_os.Memory.Paging.Tree.{Label, IsTree, Taken, take_frame_lem}

pub record Next (s : Machine) (label : Label) (t i : ℕ) (p : List ℕ) (u : ℕ) (s' : Machine)
    : Type 0 where
  pub relabel : Label
  pub tree : IsTree s' relabel
  pub linked : follow s'.tables t i ≡ some u
  pub labelled : relabel u ≡ some (i ∷ p)
  pub extends : (x : ℕ) (q : List ℕ) → label x ≡ some q → relabel x ≡ some q
  pub keeps :
      (x : ℕ) (q : List ℕ) (j : ℕ)
      → label x ≡ some q
      → (q ≡ p → j ≢ i)
      → s'.tables x j ≡ s.tables x j
  pub blank : follow s.tables t i ≡ none → (j : ℕ) → follow s'.tables u j ≡ none
  pub same : (w : ℕ) → follow s.tables t i ≡ some w → (w ≡ u) × (s'.tables ≡ s.tables)

-- The tables after `fresh_table`.
abbrev pub after : (ℕ → ℕ → ℕ) → ℕ → ℕ → ℕ → ℕ → ℕ → ℕ → ℕ
after tables t i f entry u j =
    if u == t && j == i then entry else (if u == f then 0 else tables u j)

follow-after :
    (tables : ℕ → ℕ → ℕ) (t i f entry : ℕ)
    → (bit_and entry flag_present == 0) ≡ false
    → bit_and entry addr_mask ≡ f
    → (u j : ℕ)
    → follow (after tables t i f entry) u j
      ≡ (if u == t && j == i then some f else (if u == f then none else follow tables u j))
unfolding follow
follow-after tables t i f entry present address u j = elim (Bool-cases (u == t && j == i)) [
  | inl e ↦ rw (e, present, address) refl
  | inr e ↦ elim (Bool-cases (u == f)) [ inl k ↦ rw (e, k) refl | inr k ↦ rw (e, k) refl ]
]

linked_after :
    (label : Label) (t i f : ℕ) (p : List ℕ) (t' i' u' : ℕ) (p' : List ℕ) (old : Option ℕ)
    → label t ≡ some p
    → label f ≡ none
    → (old ≡ some u' → label t' ≡ some p' → label u' ≡ some (i' ∷ p'))
    → (if t' == f then some (i ∷ p) else label t') ≡ some p'
    → (if t' == t && i' == i then some f else (if t' == f then none else old)) ≡ some u'
    → (if u' == f then some (i ∷ p) else label u') ≡ some (i' ∷ p')
linked_after label t i f p t' i' u' p' old at_t at_f before lab step = ground arith

-- A fresh table holds nothing, since it is another frame than its parent.
blank_after :
    (b c : Bool) (f : ℕ) (old : Option ℕ)
    → b ≡ false
    → (if b && c then some f else (if true then none else old)) ≡ none
blank_after b c f old e = rw e refl

first_entry :
    (old entry : ℕ) (x t j i f : ℕ) (label : Label) (p q : List ℕ)
    → label t ≡ some p
    → label f ≡ none
    → label x ≡ some q
    → (q ≡ p → j ≢ i)
    → (if x == t && j == i then entry else (if x == f then 0 else old)) ≡ old
first_entry old entry x t j i f label p q at_t at_f at_x differs = ground (arith, differs)

kept_label :
    (label : Label) (f x : ℕ) (p q : List ℕ)
    → label f ≡ none
    → label x ≡ some q
    → (if x == f then some p else label x) ≡ some q
kept_label label f x p q at_f at_x = ground arith

module _ (s : Machine) (label : Label) (t i flags : ℕ) (p : List ℕ) (tree : IsTree s label)
    (at_t : label t ≡ some p) (short : length p < 3) where
  Next-fresh :
      (f : ℕ) (s1 : Machine)
      → follow s.tables t i ≡ none
      → Taken s label f s1
      → Next s label t i p f
          (write_entry t i (table_entry f (bit_and flags flag_user)) (zero_frame f s1))
  unfolding write_entry zero_frame
  Next-fresh f s1 missing taken = record {
    relabel = λ x. if x == f then some (i ∷ p) else label x;
    tree = record {
      has =
          let h = taken.has (i ∷ p) in
          record {
            allocator = h.allocator;
            here = h.here;
            valid = h.valid;
            small = h.small;
            unlabelled = h.unlabelled;
          };
      linked = λ t' p' i' u' lab len now.
          linked_after label t i f p t' i' u' p' (follow s.tables t' i') at_t taken.unlabelled
            (λ old at. tree.linked t' p' i' u' at len old) lab (sym (step t' i') ∙ now);
    };
    linked = step t i ∙ rw (self t, self i) refl;
    labelled = rw (self f) refl;
    extends = λ x q at_x. kept_label label f x (i ∷ p) q taken.unlabelled at_x;
    keeps = λ x q j at_x differs.
        first_entry (s1.tables x j) (table_entry f (bit_and flags flag_user)) x t j i f label p q
          at_t taken.unlabelled at_x differs
        ∙ ap (λ (tables : ℕ → ℕ → ℕ). tables x j) taken.tables;
    blank =
        λ _ j. step f j ∙ rw (self f) (blank_after (f == t) (j == i) f (follow s.tables f j) apart);
    same = λ w found. cc;
  }
    where
      self : (x : ℕ) → (x == x) ≡ true
      self x = ground arith

      apart : (f == t) ≡ false
      apart = ==-ne f t (λ e. cc (taken.unlabelled, at_t, ap label e))

      step :
          (x j : ℕ)
          → follow (after s1.tables t i f (table_entry f (bit_and flags flag_user))) x j
            ≡ (if x == t && j == i then some f else (if x == f then none else follow s.tables x j))
      step x j = rw (← taken.tables) (
          follow-after s1.tables t i f (table_entry f (bit_and flags flag_user))
            (table_entry-present f flags) (table_entry-address f flags taken.frame) x j)

  Next-old : (u : ℕ) → follow s.tables t i ≡ some u → Next s label t i p u s
  Next-old u found = record {
    relabel = label;
    tree = tree;
    linked = found;
    labelled = tree.linked t p i u at_t short found;
    extends = λ x q at_x. at_x;
    keeps = λ x q j at_x differs. refl;
    blank = λ missing. cc;
    same = λ w other. (cc, refl);
  }

  next_table-old :
      (u : ℕ)
      → follow s.tables t i ≡ some u
      → next_table t i (bit_and flags flag_user) s ≡ some (u, s)
  unfolding next_table
  next_table-old u found = rw (found, next_table) refl

  next_table-fresh :
      (r : Option (ℕ × Machine))
      → follow s.tables t i ≡ none
      → take_frame s ≡ r
      → next_table t i (bit_and flags flag_user) s ≡ (
          r >>= λ (f, s1).
          some (f, write_entry t i (table_entry f (bit_and flags flag_user)) (zero_frame f s1)))
  unfolding fresh_table next_table
  next_table-fresh r missing e = rw (missing, next_table) (rw e refl)

  pub next_table_lem :
      (u : ℕ) (s' : Machine)
      → next_table t i (bit_and flags flag_user) s ≡ some (u, s')
      → Next s label t i p u s'
  next_table_lem u s' e = elim (Option-cases (follow s.tables t i)) [
    | inl missing ↦ created missing (Option-cases (take_frame s))
    | inr (w, found) ↦
        subst (λ (pair : ℕ × Machine). Next s label t i p (pair.0) (pair.1))
          (some-injective _ _ (sym (next_table-old w found) ∙ e)) (Next-old w found)
  ]
    where
      created :
          follow s.tables t i ≡ none
          → (take_frame s ≡ none) ⊎ ((found : ℕ × Machine) × (take_frame s ≡ some found))
          → Next s label t i p u s'
      created missing (inl out) = absurd (cc (next_table-fresh none missing out, e))
      created missing (inr ((f, s1), got)) =
          subst (λ (pair : ℕ × Machine). Next s label t i p (pair.0) (pair.1))
            (some-injective _ _ (sym (next_table-fresh _ missing got) ∙ e))
            (Next-fresh f s1 missing (take_frame_lem s label f s1 tree.has got))
