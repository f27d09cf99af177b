-- ===== src/Net/Dns/Views.antt =====
-- What stands in a byte string from an index on.
use moon_os.Common.{
  ℕ, zero, suc, ◌+◌, ◌-◌, ◌≡◌, refl, sym, ap, ◌∙◌, some, List, [], ◌∷◌, arith, length, get_elem?,
  get_or, drop, length-drop,
}

module _ {A : Type 0} where
  pub get_elem?-view :
      (xs ys : List A) (i : ℕ) (y : A) → drop i xs ≡ y ∷ ys → get_elem? xs i ≡ some y
  get_elem?-view [] ys zero y e = cc e
  get_elem?-view [] ys (suc i) y e = cc e
  get_elem?-view (x ∷ xs) ys zero y e = ap some (head_same x y xs ys e)
    where
      head_same : (x y : A) (xs ys : List A) → (x ∷ xs) ≡ (y ∷ ys) → x ≡ y
      head_same x y xs ys e = cc
  get_elem?-view (x ∷ xs) ys (suc i) y e = get_elem?-view xs ys i y e

  pub get_or-view : (xs ys : List A) (i : ℕ) (y d : A) → drop i xs ≡ y ∷ ys → get_or xs i d ≡ y
  get_or-view [] ys zero y d e = cc e
  get_or-view [] ys (suc i) y d e = cc e
  get_or-view (x ∷ xs) ys zero y d e = cc
  get_or-view (x ∷ xs) ys (suc i) y d e = get_or-view xs ys i y d e

  pub drop_view : (xs ys : List A) (i n k : ℕ) → k ≡ i + n → drop i xs ≡ ys → drop k xs ≡ drop n ys
  drop_view xs ys zero n k h e = rw (sym e) (ap (λ (m : ℕ). drop m xs) (omega arith))
  drop_view [] ys (suc i) n zero h e = absurd (omega arith)
  drop_view [] ys (suc i) zero (suc k) h e = e
  drop_view [] ys (suc i) (suc n) (suc k) h e = rw (sym e) refl
  drop_view (x ∷ xs) ys (suc i) n zero h e = absurd (omega arith)
  drop_view (x ∷ xs) ys (suc i) n (suc k) h e = drop_view xs ys i n k (omega arith) e

  pub length-view : (xs ys : List A) (i : ℕ) → drop i xs ≡ ys → length ys ≡ length xs - i
  length-view xs ys i e = ap length (sym e) ∙ length-drop i xs
