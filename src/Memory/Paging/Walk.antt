-- ===== src/Memory/Paging/Walk.antt =====
-- A mapping in the page tables of paging.rs, as one recursion on the indices of a page.
use moon_os.Common.{
  ℕ, suc, ◌+◌, ◌≤◌, ◌<◌, bit_and, ◌≡◌, refl, sym, ap, ap₂, ◌∙◌, subst, ◌≢◌, ◌⊎◌, inl, inr, true,
  false, ◌&&◌, Option, none, some, List, [], ◌∷◌, ◌++◌, append_assoc, arith, ℕ_discrete, ◌==◌,
  if◌then◌else◌, Option-cases, ◌>>=◌, >>=-eq-some, length, drop, length-append, drop-append,
}
use mathlib.Core.Option.{some-injective}
use moon_os.Memory.Paging.{
  Machine, write_entry, follow, next_table, flag_user, flag_present, addr_mask,
}
use moon_os.Memory.Paging.Tree.{Label, IsTree}
use moon_os.Memory.Paging.Next.{Next, next_table_lem}

-- What the tables say of a list of indices.
abbrev pub lookup : (ℕ → ℕ → ℕ) → ℕ → List ℕ → Option ℕ
lookup tables t [] = some t
lookup tables t (i ∷ is) = follow tables t i >>= λ u. lookup tables u is

-- Every table on the way, then the entry of the last one.
abbrev pub install : ℕ → ℕ → ℕ → ℕ → List ℕ → Machine → Option Machine
install entry flags t i [] s = some (write_entry t i entry s)
install entry flags t i (j ∷ js) s =
    next_table t i (bit_and flags flag_user) s >>= λ (u, s'). install entry flags u j js s'

abbrev Under : List ℕ → List ℕ → Type 0
Under p q = (xs : List ℕ) × (q ≡ xs ++ p)

same_head : (xs ys : List ℕ) (i j : ℕ) (p : List ℕ) → xs ++ (i ∷ p) ≡ ys ++ (j ∷ p) → i ≡ j
same_head xs ys i j p e = cc (
  drop-append xs (i ∷ p),
  drop-append ys (j ∷ p),
  ap (λ (l : List ℕ). drop (length xs) l) e,
  ap (λ (n : ℕ). drop n (ys ++ (j ∷ p))) lengths,
)
  where
    lengths : length xs ≡ length ys
    lengths =
        omega (
          arith,
          length-append xs (i ∷ p),
          length-append ys (j ∷ p),
          ap (λ (l : List ℕ). length l) e,
        )

not-Under_self : (i : ℕ) (p : List ℕ) → ¬ Under (i ∷ p) p
not-Under_self i p (xs, e) =
    omega (arith, length-append xs (i ∷ p), ap (λ (l : List ℕ). length l) e)

Under-child : (i j : ℕ) (p q : List ℕ) → Under (j ∷ i ∷ p) q → Under (i ∷ p) q
Under-child i j p q (xs, e) = (xs ++ (j ∷ []), e ∙ sym (append_assoc xs (j ∷ []) (i ∷ p)))

apart-Under : (i j : ℕ) (p q : List ℕ) → j ≢ i → Under (j ∷ p) q → ¬ Under (i ∷ p) q
apart-Under i j p q differ (xs, e) (ys, f) = differ (same_head xs ys j i p (sym e ∙ f))

pub bind_same :
    (m n : Option ℕ) (f g : ℕ → Option ℕ)
    → m ≡ n
    → ((u : ℕ) → n ≡ some u → f u ≡ g u)
    → (m >>= f) ≡ (n >>= g)
bind_same m none f g e h = rw e refl
bind_same m (some u) f g e h = rw e (h u refl)

pub follow_same :
    (tables tables' : ℕ → ℕ → ℕ) (t i : ℕ)
    → tables t i ≡ tables' t i
    → follow tables t i ≡ follow tables' t i
unfolding follow
follow_same tables tables' t i e = rw e refl

-- A walk reads the tables below its start alone.
pub lookup_local :
    (s : Machine) (label : Label) (tables : ℕ → ℕ → ℕ) (t : ℕ) (p : List ℕ) (is : List ℕ)
    → IsTree s label
    → label t ≡ some p
    → length p + length is ≤ 4
    → ((x : ℕ) (q : List ℕ) (j : ℕ) → label x ≡ some q → Under p q → tables x j ≡ s.tables x j)
    → lookup tables t is ≡ lookup s.tables t is
lookup_local s label tables t p [] tree at_t long same = refl
lookup_local s label tables t p (i ∷ []) tree at_t long same =
    bind_same _ _ _ _ (follow_same tables s.tables t i (same t p i at_t ([], refl))) (λ u e. refl)
lookup_local s label tables t p (i ∷ k ∷ ks) tree at_t long same =
    bind_same _ _ _ _ (follow_same tables s.tables t i (same t p i at_t ([], refl))) (λ u e.
      lookup_local s label tables u (i ∷ p) (k ∷ ks) tree (tree.linked t p i u at_t (omega arith) e)
        (omega arith)
        (λ x q j at_x (xs, under).
          same x q j at_x (xs ++ (i ∷ []), under ∙ sym (append_assoc xs (i ∷ []) p))))

-- What a mapping below table `t` does.
pub record Installed (s : Machine) (label : Label) (entry t i : ℕ) (is p : List ℕ) (s' : Machine)
    : Type 0 where
  pub relabel : Label
  pub tree : IsTree s' relabel
  pub extends : (x : ℕ) (q : List ℕ) → label x ≡ some q → relabel x ≡ some q
  pub keeps :
      (x : ℕ) (q : List ℕ) (j : ℕ)
      → label x ≡ some q
      → (q ≡ p → j ≢ i)
      → (Under (i ∷ p) q → ⊥)
      → s'.tables x j ≡ s.tables x j
  pub found : lookup s'.tables t (i ∷ is) ≡ some (bit_and entry addr_mask)
  pub others :
      (j : ℕ) (js : List ℕ)
      → length js ≡ length is
      → j ∷ js ≢ i ∷ is
      → lookup s'.tables t (j ∷ js) ≡ lookup s.tables t (j ∷ js)

-- Another entry than the one written.
pub unwritten :
    (old entry : ℕ) (x t j i : ℕ)
    → (x ≡ t → j ≢ i)
    → (if x == t && j == i then entry else old) ≡ old
unwritten old entry x t j i differs = ground (arith, differs)

pub same_label :
    (label : Label) (x t : ℕ) (p q : List ℕ) → label t ≡ some p → label x ≡ some q → x ≡ t → q ≡ p
same_label label x t p q at_t at_x e = some-injective _ _ (sym at_x ∙ ap label e ∙ at_t)

follow_written :
    (tables : ℕ → ℕ → ℕ) (t i entry : ℕ)
    → (bit_and entry flag_present == 0) ≡ false
    → tables t i ≡ entry
    → follow tables t i ≡ some (bit_and entry addr_mask)
unfolding follow
follow_written tables t i entry present e = rw (e, present) refl

module _ (entry flags : ℕ) (present : (bit_and entry flag_present == 0) ≡ false) where
  install_last :
      (t i : ℕ) (p : List ℕ) (s : Machine) (label : Label)
      → IsTree s label
      → label t ≡ some p
      → length p ≡ 3
      → Installed s label entry t i [] p (write_entry t i entry s)
  unfolding write_entry
  install_last t i p s label tree at_t long = record {
    relabel = label;
    tree = record {
      has = record {
        allocator = tree.has.allocator;
        here = tree.has.here;
        valid = tree.has.valid;
        small = tree.has.small;
        unlabelled = tree.has.unlabelled;
      };
      linked = λ t' p' i' u lab len now. tree.linked t' p' i' u lab len (
          sym (
            follow_same _ s.tables t' i'
              (unwritten _ entry t' t i' i (λ same. absurd (too_long t' p' lab len same))))
          ∙ now);
    };
    extends = λ x q at_x. at_x;
    keeps = λ x q j at_x differs under.
        unwritten _ entry x t j i (λ e. differs (same_label label x t p q at_t at_x e));
    found = rw (follow_written _ t i entry present now) refl;
    others = λ j js len other. last_other j js len other;
  }
    where
      self : (x : ℕ) → (x == x) ≡ true
      self x = ground arith

      now : (write_entry t i entry s).tables t i ≡ entry
      now = rw (self t, self i) refl

      too_long : (x : ℕ) (q : List ℕ) → label x ≡ some q → length q < 3 → x ≡ t → ⊥
      too_long x q lab len e =
          omega (arith, ap (λ (l : List ℕ). length l) (same_label label x t p q at_t lab e))

      last_other :
          (j : ℕ) (js : List ℕ)
          → length js ≡ 0
          → j ∷ js ≢ i ∷ []
          → lookup (write_entry t i entry s).tables t (j ∷ js) ≡ lookup s.tables t (j ∷ js)
      last_other j [] len other =
          rw
            (follow_same _ s.tables t j
              (unwritten _ entry t t j i (λ e f. other (ap (λ (x : ℕ). x ∷ []) f))))
            refl
      last_other j (m ∷ ms) len other = absurd (omega arith)

  install_step :
      (t i k : ℕ) (ks p : List ℕ) (s : Machine) (label : Label) (u : ℕ) (s1 s' : Machine)
      → IsTree s label
      → label t ≡ some p
      → length p + length (i ∷ k ∷ ks) ≡ 4
      → (n : Next s label t i p u s1) → Installed s1 n.relabel entry u k ks (i ∷ p) s'
      → Installed s label entry t i (k ∷ ks) p s'
  install_step t i k ks p s label u s1 s' tree at_t long n r = record {
    relabel = r.relabel;
    tree = r.tree;
    extends = λ x q at_x. r.extends x q (n.extends x q at_x);
    keeps = λ x q j at_x differs under. kept x q j at_x differs under;
    found = rw (child ∙ n.linked) r.found;
    others = λ j js len other. elim (ℕ_discrete j i) [
      | yes e ↦ below j js len e other
      | no ne ↦ aside j js len ne
    ];
  }
    where
      kept :
          (x : ℕ) (q : List ℕ) (j : ℕ)
          → label x ≡ some q
          → (q ≡ p → j ≢ i)
          → (Under (i ∷ p) q → ⊥)
          → s'.tables x j ≡ s.tables x j
      kept x q j at_x differs under =
          r.keeps x q j (n.extends x q at_x) (λ e. absurd (under ([], e)))
            (λ low. under (Under-child i k p q low))
          ∙ n.keeps x q j at_x differs

      unchanged :
          (m : ℕ) (ms : List ℕ)
          → (follow s.tables t i ≡ none) ⊎ ((w : ℕ) × (follow s.tables t i ≡ some w))
          → lookup s1.tables u (m ∷ ms) ≡ lookup s.tables t (i ∷ m ∷ ms)
      unchanged m ms (inl missing) = rw (missing, n.blank missing m) refl
      unchanged m ms (inr (w, found)) =
          rw (found, (n.same w found).0)
            (ap (λ (tables : ℕ → ℕ → ℕ). lookup tables u (m ∷ ms)) (n.same w found).1)

      child : follow s'.tables t i ≡ follow s1.tables t i
      child = follow_same s'.tables s1.tables t i (
          r.keeps t p i (n.extends t p at_t) (λ e. absurd (not-Under_self i p ([], e)))
            (λ low. not-Under_self i p (Under-child i k p p low)))

      below :
          (j : ℕ) (js : List ℕ)
          → length js ≡ suc (length ks)
          → j ≡ i
          → j ∷ js ≢ i ∷ k ∷ ks
          → lookup s'.tables t (j ∷ js) ≡ lookup s.tables t (j ∷ js)
      below j [] len e other = absurd (omega arith)
      below j (m ∷ ms) len e other =
          rw (e, child, n.linked)
            (r.others m ms (omega arith)
                (λ same. other (ap₂ (λ (x : ℕ) (l : List ℕ). x ∷ l) e same))
              ∙ unchanged m ms (Option-cases (follow s.tables t i)))

      aside :
          (j : ℕ) (js : List ℕ)
          → length js ≡ suc (length ks)
          → j ≢ i
          → lookup s'.tables t (j ∷ js) ≡ lookup s.tables t (j ∷ js)
      aside j js len differ =
          bind_same _ _ _ _
            (follow_same s'.tables s.tables t j
              (kept t p j at_t (λ e. differ) (not-Under_self i p)))
            (λ w to.
              lookup_local s label s'.tables w (j ∷ p) js tree
                (tree.linked t p j w at_t (omega arith) to) (omega arith)
                (λ x q y at_x under.
                  kept x q y at_x (λ e. absurd (not-Under_self j p (subst (Under (j ∷ p)) e under)))
                    (apart-Under i j p q differ under)))

  pub install_lem :
      (t i : ℕ) (is p : List ℕ) (s s' : Machine) (label : Label)
      → IsTree s label
      → label t ≡ some p
      → length p + length (i ∷ is) ≡ 4
      → install entry flags t i is s ≡ some s'
      → Installed s label entry t i is p s'
  install_lem t i [] p s s' label tree at_t long e =
      subst (λ (m : Machine). Installed s label entry t i [] p m) (some-injective _ _ e)
        (install_last t i p s label tree at_t (omega arith))
  install_lem t i (k ∷ ks) p s s' label tree at_t long e =
      let ((u, s1), stepped, rest) = >>=-eq-some _ _ e in
      let n = next_table_lem s label t i flags p tree at_t (omega arith) u s1 stepped in
      install_step t i k ks p s label u s1 s' tree at_t long n
        (install_lem u k ks (i ∷ p) s1 s' n.relabel n.tree n.labelled (omega arith) rest)
