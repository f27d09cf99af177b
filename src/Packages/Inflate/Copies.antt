-- ===== src/Packages/Inflate/Copies.antt =====
-- inflate.rs: the copy of a back reference, which may overlap what it writes.
use moon_os.Common.{
  ℕ, zero, suc, ◌+◌, ◌-◌, ◌≤◌, ◌<◌, ◌≡◌, refl, sym, ap, ◌∙◌, some, [], ◌∷◌, ◌++◌, arith, length,
  length-append,
}
use moon_os.Common.Bytes.{Bytes}
use moon_os.Packages.Inflate.{at}
use moon_os.Packages.Inflate.Blocks.{copy_from, back_reference}

at-append : (xs ys : Bytes) (i : ℕ) → i < length xs → at (xs ++ ys) i ≡ at xs i
at-append [] ys i h = absurd (omega arith)
at-append (x ∷ xs) ys zero h = refl
at-append (x ∷ xs) ys (suc i) h = at-append xs ys i (omega arith)

at-append_last : (xs : Bytes) (y : ℕ) → at (xs ++ (y ∷ [])) (length xs) ≡ y
at-append_last [] y = refl
at-append_last (x ∷ xs) y = at-append_last xs y

length-copy_from : (n start : ℕ) (out : Bytes) → length (copy_from n start out) ≡ length out + n
unfolding copy_from
length-copy_from zero start out = omega arith
length-copy_from (suc n) start out = omega (
  arith,
  length-copy_from n (suc start) (out ++ (at out start ∷ [])),
  length-append out (at out start ∷ []),
)

at-copy_from_old :
    (n start : ℕ) (out : Bytes) (i : ℕ) → i < length out → at (copy_from n start out) i ≡ at out i
unfolding copy_from
at-copy_from_old zero start out i h = refl
at-copy_from_old (suc n) start out i h =
    at-copy_from_old n (suc start) (out ++ (at out start ∷ [])) i
      (omega (arith, length-append out (at out start ∷ [])))
    ∙ at-append out (at out start ∷ []) i h

at-copy_from_new :
    (n start : ℕ) (out : Bytes) (k i j : ℕ)
    → start < length out
    → k < n
    → i ≡ length out + k
    → j ≡ start + k
    → at (copy_from n start out) i ≡ at (copy_from n start out) j
unfolding copy_from
at-copy_from_new zero start out k i j hs hk ei ej = absurd (omega arith)
at-copy_from_new (suc n) start out zero i j hs hk ei ej =
    ap (λ (m : ℕ). at copied m) here
    ∙ at-copy_from_old n (suc start) longer (length out) (omega (arith, grown))
    ∙ at-append_last out (at out start)
    ∙ sym (at-append out (at out start ∷ []) start hs)
    ∙ sym (at-copy_from_old n (suc start) longer start (omega (arith, grown)))
    ∙ ap (λ (m : ℕ). at copied m) there
  where
    longer : Bytes
    longer = out ++ (at out start ∷ [])

    copied : Bytes
    copied = copy_from n (suc start) longer

    grown : length longer ≡ length out + 1
    grown = length-append out (at out start ∷ [])

    here : i ≡ length out
    here = omega arith

    there : start ≡ j
    there = omega arith
at-copy_from_new (suc n) start out (suc k) i j hs hk ei ej =
    at-copy_from_new n (suc start) (out ++ (at out start ∷ [])) k i j
      (omega (arith, length-append out (at out start ∷ []))) (omega arith)
      (omega (arith, length-append out (at out start ∷ []))) (omega arith)

-- A back reference with a positive distance within the output keeps what was there and adds exactly
-- its length, and each new byte is the byte that stands its distance before it, also where that
-- byte is itself new.
pub back_reference_lem :
    (len distance : ℕ) (out : Bytes) (i k : ℕ)
    → 0 < distance
    → distance ≤ length out
    → i < length out
    → k < len
    → (result : Bytes) × (back_reference len distance out ≡ some result)
      × (length result ≡ length out + len)
      × (at result i ≡ at out i)
      × (at result (length out + k) ≡ at result (length out + k - distance))
back_reference_lem len distance out i k pos within hi hk = (
  copy_from len (length out - distance) out,
  ground arith,
  length-copy_from len (length out - distance) out,
  at-copy_from_old len (length out - distance) out i hi,
  at-copy_from_new len (length out - distance) out k (length out + k) (length out + k - distance)
      (omega arith) hk refl (omega arith),
)
