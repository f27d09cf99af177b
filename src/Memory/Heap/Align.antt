-- ===== src/Memory/Heap/Align.antt =====
-- `align_up` and `size_align` of heap.rs in plain arithmetic.
use native.Mathlib.Nat.{one-le-pow, pow-suc, mod-eq_of_lt, mod-lt, div-add-mod', mul-mod_left}
use moon_os.Common.{
  ℕ, suc, ◌+◌, ◌-◌, ◌*◌, ◌/◌, ◌%◌, ◌^◌, ◌≤◌, ◌<◌, max, ◌≡◌, refl, ap, ◌∙◌, Bool, true, ◌&&◌, arith,
  leb, ◌==◌, leb→le, ==_iff,
}
use moon_os.Common.Bits.{bit_and_high, all_below, all_below_sound, and_left, and_right}
use moon_os.Memory.Heap.{align_up, add_usize, sub_usize, not_usize}

-- Exponents of alignments are below 63, so these are checked one by one.
abbrev power_row : ℕ → Bool
power_row k =
    not_usize (sub_usize (2 ^ k) 1) == (2 ^ (64 - k) - 1) * 2 ^ k
    && (2 ^ (64 - k) * 2 ^ k == 2 ^ 64 && leb (2 ^ k) (2 ^ 62))

power_table : all_below 63 power_row ≡ true
unfolding all_below
power_table = refl

power_laws :
    (k : ℕ)
    → k < 63
    → (not_usize (sub_usize (2 ^ k) 1) ≡ (2 ^ (64 - k) - 1) * 2 ^ k)
      × (2 ^ (64 - k) * 2 ^ k ≡ 2 ^ 64)
      × (2 ^ k ≤ 2 ^ 62)
power_laws k h =
    let row = all_below_sound 63 power_row k power_table h in
    (
      (==_iff _ _).0 (and_left _ _ row),
      (==_iff _ _).0 (and_left _ _ (and_right _ _ row)),
      leb→le _ _ (and_right _ _ (and_right _ _ row)),
    )

pow_pos : (k : ℕ) → 0 < 2 ^ k
pow_pos k = one-le-pow k 2 (omega arith)

pow_small : (k : ℕ) → k < 63 → 2 ^ k ≤ 2 ^ 62
pow_small k h = (power_laws k h).2

thirty_table : all_below 31 (λ k. leb (2 ^ k) (2 ^ 30)) ≡ true
unfolding all_below
thirty_table = refl

pub pow_thirty : (k : ℕ) → k ≤ 30 → 2 ^ k ≤ 2 ^ 30
pow_thirty k h =
    leb→le _ _ (all_below_sound 31 (λ k. leb (2 ^ k) (2 ^ 30)) k thirty_table (omega arith))

eight_table : all_below 31 (λ k. max (2 ^ k) 8 == 2 ^ max k 3) ≡ true
unfolding all_below
eight_table = refl

pub max_eight : (k : ℕ) → k ≤ 30 → max (2 ^ k) 8 ≡ 2 ^ max k 3
max_eight k h =
    (==_iff _ _).0
      (all_below_sound 31 (λ k. max (2 ^ k) 8 == 2 ^ max k 3) k eight_table (omega arith))

quotient_fits : (x p q : ℕ) → 0 < p → x < q * p → x / p < q
quotient_fits x p q pos h = grind arith

-- For a power of two, `align_up` is the next multiple, unless the sum leaves the address space.
align_up_lem :
    (addr k : ℕ)
    → k < 63
    → addr + 2 ^ k ≤ 2 ^ 64
    → align_up addr (2 ^ k) ≡ (addr + 2 ^ k - 1) / 2 ^ k * 2 ^ k
unfolding align_up
align_up_lem addr k h lt =
    rw (sum, (power_laws k h).0, bit_and_high k (64 - k) (addr + 2 ^ k - 1), mod-eq_of_lt small)
  where
    sum : sub_usize (add_usize addr (2 ^ k)) 1 ≡ addr + 2 ^ k - 1
    sum = omega (arith, pow_pos k)

    small : (addr + 2 ^ k - 1) / 2 ^ k < 2 ^ (64 - k)
    small =
        quotient_fits (addr + 2 ^ k - 1) (2 ^ k) (2 ^ (64 - k)) (pow_pos k)
          (omega (arith, (power_laws k h).1, pow_pos k))

-- So it is aligned, not below the address, and less than the alignment above it.
pub align_up_bounds :
    (addr k : ℕ)
    → k < 63
    → addr + 2 ^ k ≤ 2 ^ 64
    → (align_up addr (2 ^ k) % 2 ^ k ≡ 0)
      × (addr ≤ align_up addr (2 ^ k))
      × (align_up addr (2 ^ k) < addr + 2 ^ k)
align_up_bounds addr k h lt = rw (align_up_lem addr k h lt) (
  mul-mod_left ((addr + 2 ^ k - 1) / 2 ^ k) (2 ^ k),
  omega (
    arith,
    pow_pos k,
    div-add-mod' (addr + 2 ^ k - 1) (2 ^ k),
    mod-lt (addr + 2 ^ k - 1) (pow_pos k),
  ),
  omega (arith, pow_pos k, div-add-mod' (addr + 2 ^ k - 1) (2 ^ k)),
)

eights : (k : ℕ) → 3 ≤ k → 2 ^ k ≡ 2 ^ (k - 3) * 8
eights k h =
    let e : k ≡ suc (suc (suc (k - 3))) = omega arith in
    ap (λ (n : ℕ). 2 ^ n) e
    ∙ rw (pow-suc 2 (suc (suc (k - 3))), pow-suc 2 (suc (k - 3)), pow-suc 2 (k - 3)) (omega arith)

-- A multiple of an alignment of at least 8 is a multiple of 8.
pub mod_eight : (x k : ℕ) → 3 ≤ k → x % 2 ^ k ≡ 0 → x % 8 ≡ 0
mod_eight x k h e =
    let d = div-add-mod' x (2 ^ k) in
    let m = ap (λ (n : ℕ). x / 2 ^ k * n) (eights k h) in omega (arith, d, m, e)

quotient_step : (a b m : ℕ) → a * m < b * m + m → b * m < a * m + m → 0 < m → a ≡ b
quotient_step a b m h1 h2 pos = grind arith

-- Two multiples that are less than one step apart are the same.
pub multiple_eq : (s t m : ℕ) → 0 < m → s % m ≡ 0 → t % m ≡ 0 → s < t + m → t < s + m → s ≡ t
multiple_eq s t m pos hs ht h1 h2 =
    let ds = div-add-mod' s m in
    let dt = div-add-mod' t m in
    let same =
      quotient_step (s / m) (t / m) m (omega (arith, ds, dt)) (omega (arith, ds, dt)) pos in
    let whole : s / m * m ≡ t / m * m = ap (λ (q : ℕ). q * m) same in omega (arith, ds, dt, whole)
