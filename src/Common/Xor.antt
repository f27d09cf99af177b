-- ===== src/Common/Xor.antt =====
-- `bit_xor` at variables: it undoes itself, and two numbers are equal if it gives 0.
use moon_os.Common.Bits.{settled, bit_or_halve}
use Prim.Native.Nat.{
  ℕ, zero, suc, ◌+◌, ◌-◌, ◌*◌, ◌/◌, ◌%◌, ◌≤◌, bit_or, bit_xor, differ, bit_xor-bitwise,
}
use mathlib.Core.Path.{◌≡◌, refl, sym, ap, ◌∙◌}
use native.Mathlib.Omega.{arith}
use native.Mathlib.Nat.{le_refl}

differ_lem : (x y : ℕ) → differ x y ≡ (x - y) + (y - x)
differ_lem zero y = omega arith
differ_lem (suc x) zero = omega arith
differ_lem (suc x) (suc y) = omega (arith, differ_lem x y)

zero-bit_xor : (y : ℕ) → bit_xor 0 y ≡ y
zero-bit_xor y = simp bit_xor-bitwise refl

bit_xor_halve :
    (x y : ℕ) → bit_xor x y ≡ (x % 2 - y % 2) + (y % 2 - x % 2) + 2 * bit_xor (x / 2) (y / 2)
bit_xor_halve zero y = omega (arith, zero-bit_xor y, zero-bit_xor (y / 2))
bit_xor_halve (suc x) y = simp bit_xor-bitwise (
    omega (
      arith,
      settled (λ t. t) differ x x (suc x / 2) (y / 2) (le_refl x) (omega arith),
      differ_lem (suc x % 2) (y % 2),
    ))

bit_xor_half : (x y : ℕ) → bit_xor x y / 2 ≡ bit_xor (x / 2) (y / 2)
bit_xor_half x y = omega (arith, bit_xor_halve x y)

undone_below : (limit x y : ℕ) → x ≤ limit → y ≤ limit → bit_xor (bit_xor x y) y ≡ x
undone_below zero zero zero hx hy = refl
undone_below zero (suc x) y hx hy = absurd (omega arith)
undone_below zero zero (suc y) hx hy = absurd (omega arith)
undone_below (suc limit) x y hx hy = omega (
  arith,
  bit_xor_halve x y,
  bit_xor_halve (bit_xor x y) y,
  ap (λ (t : ℕ). bit_xor t (y / 2)) (bit_xor_half x y),
  undone_below limit (x / 2) (y / 2) (omega arith) (omega arith),
)

-- `x ^ y ^ y` is `x`.
pub bit_xor_undone : (x y : ℕ) → bit_xor (bit_xor x y) y ≡ x
bit_xor_undone x y = undone_below (x + y) x y (omega arith) (omega arith)

self_below : (limit x : ℕ) → x ≤ limit → bit_xor x x ≡ 0
self_below zero zero h = refl
self_below zero (suc x) h = absurd (omega arith)
self_below (suc limit) x h =
    omega (arith, bit_xor_halve x x, self_below limit (x / 2) (omega arith))

pub bit_xor_self : (x : ℕ) → bit_xor x x ≡ 0
bit_xor_self x = self_below x x (le_refl x)

pub bit_xor-eq_zero : (x y : ℕ) → bit_xor x y ≡ 0 → x ≡ y
bit_xor-eq_zero x y h = sym (bit_xor_undone x y) ∙ ap (λ (t : ℕ). bit_xor t y) h ∙ zero-bit_xor y

or_below : (limit x y : ℕ) → x ≤ limit → y ≤ limit → bit_or x y ≡ 0 → (x ≡ 0) × (y ≡ 0)
or_below zero x y hx hy h = (omega arith, omega arith)
or_below (suc limit) x y hx hy h =
    let half : bit_or (x / 2) (y / 2) ≡ 0 = omega (arith, bit_or_halve x y) in
    let (low, high) = or_below limit (x / 2) (y / 2) (omega arith) (omega arith) half in
    (omega (arith, bit_or_halve x y), omega (arith, bit_or_halve x y))

pub bit_or-eq_zero : (x y : ℕ) → bit_or x y ≡ 0 → (x ≡ 0) × (y ≡ 0)
bit_or-eq_zero x y = or_below (x + y) x y (omega arith) (omega arith)
