-- ===== src/Fs/RamFs/Parents.antt =====
-- The directories of ramfs.rs: every path has its parents.
use mathlib.Core.Option.{some-injective}
use moon_os.Common.{
  ℕ, zero, suc, ◌≤◌, ◌<◌, ◌≡◌, sym, ap, ◌∙◌, subst, ◌≢◌, ◌⊎◌, inl, inr, true, ◌||◌, some, [], ◌∷◌,
  arith, true≢false, Bool-cases, Option-cases, length, length-take,
}
use moon_os.Common.Bytes.{Bytes, bytes_eq, bytes_eq_iff}
use moon_os.Common.Dict.{Dict, insert, get-insert}
use moon_os.Fs.RamFs.{RamFs, slash, contains, rfind, parent, ensure_from, ensure_parents}

-- Every directory of `dirs` has the next one of the recursion in `dirs`.
abbrev pub HasParents : Dict (Unit {0}) → Type 0
HasParents dirs =
    (p q : Bytes) → contains p dirs ≡ true → parent p ≡ some q → contains q dirs ≡ true

-- The parent of `path`, if it has one below the root, is in `dirs`.
abbrev pub HasParent : Bytes → Dict (Unit {0}) → Type 0
HasParent path dirs = (q : Bytes) → parent path ≡ some q → contains q dirs ≡ true

pub contains-insert :
    (p q : Bytes) (dirs : Dict (Unit {0}))
    → contains p (insert q tt dirs) ≡ (bytes_eq q p || contains p dirs)
unfolding contains
contains-insert p q dirs = ground (arith, get-insert p q tt dirs)

pub rfind-lt : (c : ℕ) (xs : Bytes) (i : ℕ) → rfind c xs ≡ some i → i < length xs
unfolding rfind
rfind-lt c [] i h = cc
rfind-lt c (x ∷ xs) i h = elim (Option-cases (rfind c xs)) [
  | inl e ↦ ground arith
  | inr (j, e) ↦ ground (arith, rfind-lt c xs j e)
]

pub length-parent : (path p : Bytes) → parent path ≡ some p → length p < length path
unfolding parent
length-parent path p h = elim (Option-cases (rfind slash path)) [
  | inl e ↦ ground arith
  | inr (i, e) ↦ ground (arith, rfind-lt slash path i e, length-take i path)
]

-- Closed but for the directory `path`, whose parent the recursion has still to add.
abbrev pub ClosedBut : Bytes → Dict (Unit {0}) → Type 0
ClosedBut path dirs =
    (p q : Bytes) → contains p dirs ≡ true → p ≢ path → parent p ≡ some q → contains q dirs ≡ true

-- A path's directory chain: each next path is the parent of the one before.
pub data Above : Bytes → Bytes → Type 0 where
  direct : {path p : Bytes} → parent path ≡ some p → Above path p
  further : {path p q : Bytes} → parent path ≡ some p → Above p q → Above path q

-- What `ensure_parents` gives for `path`: no directory is lost.
pub record Ensured (path : Bytes) (dirs out : Dict (Unit {0})) : Type 0 where
  pub closed : HasParents out
  pub up : HasParent path out
  pub keeps : (p : Bytes) → contains p dirs ≡ true → contains p out ≡ true
  pub only : (p : Bytes) → contains p out ≡ true → (contains p dirs ≡ true) ⊎ Above path p

pub done :
    (path : Bytes) (dirs : Dict (Unit {0}))
    → ClosedBut path dirs
    → HasParent path dirs
    → Ensured path dirs dirs
done path dirs c h = record {
  closed = λ p q t e. elim (Bool-cases (bytes_eq p path)) [
    | inl same ↦ h q (ap parent (sym ((bytes_eq_iff p path).0 same)) ∙ e)
    | inr other ↦ c p q t (λ same. true≢false (sym ((bytes_eq_iff p path).1 same) ∙ other)) e
  ];
  up = h;
  keeps = λ p t. t;
  only = λ p t. inl t;
}

pub grow :
    (path p : Bytes) (dirs : Dict (Unit {0}))
    → parent path ≡ some p
    → ClosedBut path dirs
    → ClosedBut p (insert p tt dirs)
grow path p dirs e c r s t ne q = elim (Bool-cases (bytes_eq r path)) [
  | inl same ↦
      ground (
        arith,
        contains-insert s p dirs,
        bytes_eq_iff p s,
        ap parent ((bytes_eq_iff r path).0 same),
      )
  | inr other ↦ ground (
    arith,
    contains-insert s p dirs,
    contains-insert r p dirs,
    bytes_eq_iff p r,
    bytes_eq_iff r path,
    c r s,
  )
]

-- The length of the path is fuel enough for `ensure_from`.
pub ensure_from-Ensured :
    (n : ℕ) (path : Bytes) (dirs : Dict (Unit {0}))
    → length path ≤ n
    → ClosedBut path dirs
    → Ensured path dirs (ensure_from n path dirs)
unfolding ensure_from
ensure_from-Ensured zero path dirs h c =
    done path dirs c (λ q e. absurd (omega (arith, length-parent path q e)))
ensure_from-Ensured (suc n) path dirs h c = elim (Option-cases (parent path)) [
  | inl e ↦ rw (e, ensure_from) (done path dirs c (λ q e'. cc))
  | inr (p, e) ↦ elim (Bool-cases (contains p dirs)) [
    | inl t ↦
        rw (e, t, ensure_from)
          (done path dirs c
            (λ q e'. subst (λ r. contains r dirs ≡ true) (some-injective p q (sym e ∙ e')) t))
    | inr f ↦
        let r =
          ensure_from-Ensured n p (insert p tt dirs) (omega (arith, length-parent path p e))
            (grow path p dirs e c) in
        rw (e, f, ensure_from)
          (record {
            closed = r.closed;
            up = λ q e'.
                subst (λ x. contains x (ensure_from n p (insert p tt dirs)) ≡ true)
                  (some-injective p q (sym e ∙ e'))
                  (r.keeps p (ground (arith, contains-insert p p dirs, bytes_eq_iff p p)));
            keeps = λ q t. r.keeps q (ground (arith, contains-insert q p dirs));
            only = λ q t. elim (r.only q t) [
              | inl there ↦ elim (Bool-cases (bytes_eq p q)) [
                | inl same ↦ inr (subst (λ x. Above path x) ((bytes_eq_iff p q).0 same) (direct e))
                | inr other ↦ inl (ground (arith, contains-insert q p dirs))
              ]
              | inr higher ↦ inr (further e higher)
            ];
          })
  ]
]

pub ensure_parents-Ensured :
    (fs : RamFs) (path : Bytes)
    → HasParents fs.dirs
    → Ensured path fs.dirs (ensure_parents fs path).dirs
unfolding ensure_parents
ensure_parents-Ensured fs path c =
    ensure_from-Ensured (length path) path fs.dirs (omega arith) (λ p q t ne e. c p q t e)

pub Above-contains :
    (dirs : Dict (Unit {0})) {path q : Bytes}
    → HasParents dirs
    → HasParent path dirs
    → Above path q
    → contains q dirs ≡ true
Above-contains dirs c h (direct e) = h _ e
Above-contains dirs c h (further e a) = Above-contains dirs c (λ q e'. c _ q (h _ e) e') a
