-- ===== src/Fs/RamFs/Ancestors.antt =====
-- The directories of ramfs.rs in terms of the paths' text: the paths above a path end before a slash.
use moon_os.Common.{
  ℕ, zero, suc, ◌+◌, ◌≤◌, ◌≡◌, refl, sym, ap, ◌∙◌, subst, ◌≢◌, ◌↔◌, ◌⊎◌, inl, inr, true, none, some,
  [], ◌∷◌, ◌++◌, append-nil, append_assoc, arith, ◌==◌, if◌then◌else◌, Bool-cases, Option-cases,
  length, take, drop,
}
use moon_os.Common.Bytes.{Bytes, bytes_eq, bytes_eq_iff}
use mathlib.Core.Option.{some-injective}
use moon_os.Common.Dict.{Dict}
use moon_os.Fs.RamFs.{RamFs, slash, contains, rfind, parent, write, put, mkdir, ensure_parents}
use moon_os.Fs.RamFs.Parents.{
  HasParents, Above, direct, further, Above-contains, ensure_parents-Ensured, length-parent,
  contains-insert,
}

-- `q` is what stands before some slash of `path`, if that is not the root's.
abbrev pub IsAncestor : Bytes → Bytes → Type 0
IsAncestor q path = (q ≢ []) × (rest : Bytes) × (path ≡ q ++ slash ∷ rest)

-- Every directory has all its ancestors.
abbrev pub IsClosed : Dict (Unit {0}) → Type 0
IsClosed dirs = (p q : Bytes) → contains p dirs ≡ true → IsAncestor q p → contains q dirs ≡ true

rfind-front :
    (c : ℕ) (rest : Bytes)
    → (rfind c (c ∷ rest) ≡ some 0) ⊎ ((k : ℕ) × (rfind c (c ∷ rest) ≡ some (suc k)))
unfolding rfind
rfind-front c rest = elim (Option-cases (rfind c rest)) [
  | inl e ↦ inl (rw (e, rfind) (ground arith))
  | inr (j, e) ↦ inr (j, rw (e, rfind) (ap some (omega arith)))
]

rfind-append :
    (c : ℕ) (q ys : Bytes) (k : ℕ) → rfind c ys ≡ some k → rfind c (q ++ ys) ≡ some (length q + k)
unfolding rfind
rfind-append c [] ys k e = e ∙ ap some (omega arith)
rfind-append c (x ∷ q) ys k e = rw (rfind-append c q ys k e, rfind) (ap some (omega arith))

take_over : (q ys : Bytes) (k n : ℕ) → n ≡ length q + k → take n (q ++ ys) ≡ q ++ take k ys
take_over [] ys k n e = ap (λ (m : ℕ). take m ys) (omega arith)
take_over (x ∷ q) ys k zero e = absurd (omega arith)
take_over (x ∷ q) ys k (suc n) e = ap (λ (l : Bytes). x ∷ l) (take_over q ys k n (omega arith))

parent-at :
    (path : Bytes) (i : ℕ)
    → rfind slash path ≡ some (suc i)
    → parent path ≡ some (take (suc i) path)
unfolding parent
parent-at path i e = rw (e, parent) (ground arith)

-- The recursion goes to an ancestor, or past it.
parent-append :
    (q rest : Bytes)
    → q ≢ []
    → (p : Bytes) × (parent (q ++ slash ∷ rest) ≡ some p) × ((p ≡ q) ⊎ IsAncestor q p)
parent-append [] rest some_byte = absurd (some_byte refl)
parent-append (x ∷ q) rest some_byte = elim (rfind-front slash rest) [
  | inl e ↦ (
    take (suc (length q)) (x ∷ (q ++ slash ∷ rest)),
    parent-at _ (length q) (rfind-append slash (x ∷ q) (slash ∷ rest) 0 e ∙ ap some (omega arith)),
    inl (take_over (x ∷ q) (slash ∷ rest) 0 (suc (length q)) (omega arith) ∙ append-nil (x ∷ q)),
  )
  | inr (k, e) ↦ (
    take (suc (length q + suc k)) (x ∷ (q ++ slash ∷ rest)),
    parent-at _ (length q + suc k)
        (rfind-append slash (x ∷ q) (slash ∷ rest) (suc k) e ∙ ap some (omega arith)),
    inr (
      some_byte,
      take k rest,
      take_over (x ∷ q) (slash ∷ rest) (suc k) (suc (length q + suc k)) (omega arith),
    ),
  )
]

IsAncestor-parent :
    (path q : Bytes)
    → IsAncestor q path
    → (p : Bytes) × (parent path ≡ some p) × ((p ≡ q) ⊎ IsAncestor q p)
IsAncestor-parent path q (some_byte, rest, e) =
    let (p, up, place) = parent-append q rest some_byte in (p, ap parent e ∙ up, place)

IsAncestor-Above : (n : ℕ) (path q : Bytes) → length path ≤ n → IsAncestor q path → Above path q
IsAncestor-Above zero path q h higher =
    let (p, up, place) = IsAncestor-parent path q higher in
    absurd (omega (arith, length-parent path p up))
IsAncestor-Above (suc n) path q h higher =
    let (p, up, place) = IsAncestor-parent path q higher in
    elim place [
      | inl same ↦ direct (up ∙ ap some same)
      | inr above ↦
          further up (IsAncestor-Above n p q (omega (arith, length-parent path p up)) above)
    ]

rfind-missing :
    (c x : ℕ) (xs : Bytes)
    → rfind c xs ≡ none
    → rfind c (x ∷ xs) ≡ (if x == c then some 0 else none)
unfolding rfind
rfind-missing c x xs e = rw (e, rfind) refl

rfind-found : (c x : ℕ) (xs : Bytes) (j : ℕ) → rfind c xs ≡ some j → rfind c (x ∷ xs) ≡ some (suc j)
unfolding rfind
rfind-found c x xs j e = rw (e, rfind) (ap some (omega arith))

-- The text is split at the place that is found.
abbrev Split : ℕ → Bytes → ℕ → Type 0
Split c xs i = xs ≡ take i xs ++ c ∷ drop (suc i) xs

Split-cons :
    (c x : ℕ) (xs : Bytes) (i : ℕ) → (if x == c then some 0 else none) ≡ some i → Split c (x ∷ xs) i
Split-cons c x xs zero e = ground arith
Split-cons c x xs (suc i) e = absurd (ground arith)

rfind-Split : (c : ℕ) (xs : Bytes) (i : ℕ) → rfind c xs ≡ some i → Split c xs i
unfolding rfind
rfind-Split c [] i e = cc e
rfind-Split c (x ∷ xs) i e = elim (Option-cases (rfind c xs)) [
  | inl missing ↦ Split-cons c x xs i (sym (rfind-missing c x xs missing) ∙ e)
  | inr (j, found) ↦
      subst (λ (m : ℕ). Split c (x ∷ xs) m)
        (some-injective _ _ (sym (rfind-found c x xs j found) ∙ e))
        (ap (λ (l : Bytes). x ∷ l) (rfind-Split c xs j found))
]

parent-missing : (path : Bytes) → rfind slash path ≡ none → parent path ≡ none
unfolding parent
parent-missing path e = rw (e, parent) refl

parent-found :
    (path : Bytes) (i : ℕ)
    → rfind slash path ≡ some i
    → parent path ≡ (if i == 0 then none else some (take i path))
unfolding parent
parent-found path i e = rw (e, parent) refl

cut-IsAncestor :
    (path p : Bytes) (i : ℕ)
    → Split slash path i
    → (if i == 0 then none else some (take i path)) ≡ some p
    → IsAncestor p path
cut-IsAncestor path p zero split e = cc e
cut-IsAncestor [] p (suc i) split e = cc split
cut-IsAncestor (x ∷ path) p (suc i) split e =
    let same : (x ∷ take i path) ≡ p = some-injective _ _ (ground arith) in
    (
      λ nothing. cc (same ∙ nothing),
      drop (suc i) path,
      split ∙ ap (λ (l : Bytes). l ++ slash ∷ drop (suc i) path) same,
    )

parent-IsAncestor : (path p : Bytes) → parent path ≡ some p → IsAncestor p path
parent-IsAncestor path p up = elim (Option-cases (rfind slash path)) [
  | inl missing ↦ cc (sym (parent-missing path missing) ∙ up)
  | inr (i, found) ↦
      cut-IsAncestor path p i (rfind-Split slash path i found)
        (sym (parent-found path i found) ∙ up)
]

IsAncestor-trans : (q p path : Bytes) → IsAncestor q p → IsAncestor p path → IsAncestor q path
IsAncestor-trans q p path (some_byte, r, e) (_, r', e') = (
  some_byte,
  r ++ slash ∷ r',
  e' ∙ ap (λ (l : Bytes). l ++ slash ∷ r') e ∙ append_assoc q (slash ∷ r) (slash ∷ r'),
)

Above-IsAncestor : {path q : Bytes} → Above path q → IsAncestor q path
Above-IsAncestor (direct up) = parent-IsAncestor _ _ up
Above-IsAncestor (further up above) =
    IsAncestor-trans _ _ _ (Above-IsAncestor above) (parent-IsAncestor _ _ up)

IsClosed-HasParents : (dirs : Dict (Unit {0})) → IsClosed dirs → HasParents dirs
IsClosed-HasParents dirs closed p q there up = closed p q there (parent-IsAncestor p q up)

HasParents-IsClosed : (dirs : Dict (Unit {0})) → HasParents dirs → IsClosed dirs
HasParents-IsClosed dirs has p q there higher =
    Above-contains dirs has (λ x up. has p x there up)
      (IsAncestor-Above (length p) p q (omega arith) higher)

-- In a tree where every directory has all its ancestors, `write` keeps that so, and the directories
-- afterwards are exactly those before and the ancestors of the new file: what stands before a slash
-- in its path, the root aside.
pub write-IsClosed :
    (fs : RamFs) (path contents : Bytes)
    → IsClosed fs.dirs
    → IsClosed (write fs path contents).dirs
      × ((p : Bytes)
          → (contains p (write fs path contents).dirs ≡ true)
            ↔ ((contains p fs.dirs ≡ true) ⊎ IsAncestor p path))
unfolding write put
write-IsClosed fs path contents closed =
    let r = ensure_parents-Ensured fs path (IsClosed-HasParents _ closed) in
    (
      HasParents-IsClosed _ r.closed,
      λ p. (
        λ t. elim (r.only p t) [ inl old ↦ inl old | inr above ↦ inr (Above-IsAncestor above) ],
        λ t. elim t [
          | inl old ↦ r.keeps p old
          | inr higher ↦
              Above-contains _ r.closed r.up
                (IsAncestor-Above (length path) path p (omega arith) higher)
        ],
      ),
    )

-- In a tree where every directory has all its ancestors, `mkdir` keeps that so, and makes the path a
-- directory.
mkdir-IsClosed :
    (fs : RamFs) (path : Bytes)
    → IsClosed fs.dirs
    → IsClosed (mkdir fs path).dirs × (contains path (mkdir fs path).dirs ≡ true)
unfolding mkdir
mkdir-IsClosed fs path closed =
    let r = ensure_parents-Ensured fs path (IsClosed-HasParents _ closed) in
    let dirs = (ensure_parents fs path).dirs in
    let all = HasParents-IsClosed dirs r.closed in
    (
      λ p q t higher. elim (Bool-cases (bytes_eq path p)) [
        | inl same ↦
            let here : contains q dirs ≡ true = Above-contains dirs r.closed r.up (
              IsAncestor-Above (length path) path q (omega arith)
                (subst (λ x. IsAncestor q x) (sym ((bytes_eq_iff path p).0 same)) higher)) in
            ground (arith, contains-insert q path dirs)
        | inr other ↦
            let here = all p q (ground (arith, contains-insert p path dirs)) higher in
            ground (arith, contains-insert q path dirs)
      ],
      ground (arith, contains-insert path path dirs, bytes_eq_iff path path),
    )
