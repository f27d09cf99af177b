-- ===== src/Common/Bits.antt =====
-- `bit_and` with a mask, and single bits of a byte. The libraries have no laws of these operations
-- at variables; here are the ones that the bitmaps, the page tables and the checksums use.
use Prim.Native.Nat.{
  ℕ, zero, suc, ◌+◌, ◌-◌, ◌*◌, ◌/◌, ◌%◌, ◌^◌, ◌≤◌, ◌<◌, min, max, bit_and, bit_or, digits, bitwise,
  bit_and-bitwise, bit_or-bitwise,
}
use mathlib.Core.Path.{◌≡◌, refl, ap, ap₂}
use mathlib.Core.Bool.{Bool, true, false, ◌&&◌, ◌||◌, not}
use native.Mathlib.Omega.{arith}
use native.Mathlib.Nat.{le_refl, pow-suc, one-le-pow}
use moon_os.Common.Tests.{ltb, ltb→lt, ◌==◌, if◌then◌else◌}

-- Every value below a bound, checked by evaluation.
unfoldable pub all_below : ℕ → (ℕ → Bool) → Bool
all_below zero test = true
all_below (suc bound) test = test 0 && all_below bound (λ i. test (suc i))

pub all_below_sound :
    (n : ℕ) (test : ℕ → Bool) (i : ℕ) → all_below n test ≡ true → i < n → test i ≡ true
unfolding all_below
all_below_sound zero test i passed below = absurd (omega arith)
all_below_sound (suc n) test zero passed below = ground arith
all_below_sound (suc n) test (suc i) passed below =
    ground (arith, all_below_sound n (λ j. test (suc j)) i)

-- The library's `digits` runs on fuel: any fuel from its first number on gives the same result.
pub settled :
    (on_zero : ℕ → ℕ) (combine : ℕ → ℕ → ℕ) (limit fuel x y : ℕ)
    → fuel ≤ limit
    → x ≤ fuel
    → digits on_zero combine fuel x y ≡ bitwise on_zero combine x y
settled on_zero combine limit zero zero y within enough = refl
settled on_zero combine limit zero (suc x) y within enough = absurd (omega arith)
settled on_zero combine limit (suc fuel) zero y within enough = refl
settled on_zero combine zero (suc fuel) (suc x) y within enough = absurd (omega arith)
settled on_zero combine (suc limit) (suc fuel) (suc x) y within enough = omega (
  arith,
  settled on_zero combine limit fuel (suc x / 2) (y / 2) (omega arith) (omega arith),
  settled on_zero combine limit x (suc x / 2) (y / 2) (omega arith) (omega arith),
)

halve :
    (on_zero : ℕ → ℕ) (combine : ℕ → ℕ → ℕ) (x y : ℕ)
    → bitwise on_zero combine (suc x) y
      ≡ combine (suc x % 2) (y % 2) + 2 * bitwise on_zero combine (suc x / 2) (y / 2)
halve on_zero combine x y =
    omega (arith, settled on_zero combine x x (suc x / 2) (y / 2) (le_refl x) (omega arith))

-- Both operations work on the last bits and on the halves.
bit_and_halve : (x y : ℕ) → bit_and x y ≡ min (x % 2) (y % 2) + 2 * bit_and (x / 2) (y / 2)
bit_and_halve zero y = simp bit_and-bitwise (omega arith)
bit_and_halve (suc x) y = simp bit_and-bitwise (halve (λ t. 0) min x y)

pub bit_or_halve : (x y : ℕ) → bit_or x y ≡ max (x % 2) (y % 2) + 2 * bit_or (x / 2) (y / 2)
bit_or_halve zero y = simp bit_or-bitwise (omega arith)
bit_or_halve (suc x) y = simp bit_or-bitwise (halve (λ t. t) max x y)

with_zero : (limit x : ℕ) → x ≤ limit → (bit_and x 0 ≡ 0) × (bit_or x 0 ≡ x)
with_zero limit zero within = (refl, refl)
with_zero zero (suc x) within = absurd (omega arith)
with_zero (suc limit) (suc x) within = (
  omega (arith, bit_and_halve (suc x) 0, (with_zero limit (suc x / 2) (omega arith)).0),
  omega (arith, bit_or_halve (suc x) 0, (with_zero limit (suc x / 2) (omega arith)).1),
)

bit_and-zero : (x : ℕ) → bit_and x 0 ≡ 0
bit_and-zero x = (with_zero x x (le_refl x)).0

pub bit_or-zero : (x : ℕ) → bit_or x 0 ≡ x
bit_or-zero x = (with_zero x x (le_refl x)).1

double_pow : (k high : ℕ) → 2 ^ suc k * high ≡ 2 * (2 ^ k * high)
double_pow k high = omega (arith, ap (λ (power : ℕ). power * high) (pow-suc 2 k))

low_part : (k high low : ℕ) → low < 2 ^ k → bit_and (low + 2 ^ k * high) (2 ^ k - 1) ≡ low
low_part zero high low small = rw bit_and-zero (omega arith)
low_part (suc k) high low small = ground (
  arith,
  low_part k high (low / 2) (omega (arith, pow-suc 2 k)),
  double_pow k high,
  pow-suc 2 k,
  bit_and_halve (low + 2 ^ suc k * high) (2 ^ suc k - 1),
)

-- A mask of `k` low bits is the remainder by `2 ^ k`.
pub bit_and_low : (k a : ℕ) → bit_and a (2 ^ k - 1) ≡ a % 2 ^ k
bit_and_low k a = ground (arith, low_part k (a / 2 ^ k) (a % 2 ^ k), one-le-pow k 2)

high_part :
    (k width high low : ℕ)
    → low < 2 ^ k
    → bit_and (low + 2 ^ k * high) (2 ^ k * (2 ^ width - 1)) ≡ 2 ^ k * (high % 2 ^ width)
high_part zero width high low small = ground (arith, bit_and_low width high)
high_part (suc k) width high low small = ground (
  arith,
  high_part k width high (low / 2) (omega (arith, pow-suc 2 k)),
  double_pow k high,
  double_pow k (2 ^ width - 1),
  double_pow k (high % 2 ^ width),
  bit_and_halve (low + 2 ^ suc k * high) (2 ^ suc k * (2 ^ width - 1)),
)

-- `!(2 ^ k - 1)` on a word of `k + j` bits clears the `k` low bits.
pub bit_and_high : (k j a : ℕ) → bit_and a ((2 ^ j - 1) * 2 ^ k) ≡ a / 2 ^ k % 2 ^ j * 2 ^ k
bit_and_high k j a = ground (arith, high_part k j (a / 2 ^ k) (a % 2 ^ k), one-le-pow k 2)

-- Bit `k` of a byte, as the source tests it.
abbrev pub test_bit : ℕ → ℕ → Bool
test_bit b k = if bit_and b (2 ^ k) == 0 then false else true

-- `b |= 1 << k` and `b &= !(1 << k)` on a byte.
abbrev pub set_bit : ℕ → ℕ → ℕ
set_bit b k = bit_or b (2 ^ k)

abbrev pub clear_bit : ℕ → ℕ → ℕ
clear_bit b k = bit_and b (255 - 2 ^ k)

abbrev same : Bool → Bool → Bool
same true b = b
same false b = not b

abbrev byte_row : ℕ → ℕ → ℕ → Bool
byte_row b k j =
    same (test_bit (set_bit b k) j) (j == k || test_bit b j)
    && same (test_bit (clear_bit b k) j) (not (j == k) && test_bit b j)

abbrev byte_rows : ℕ → ℕ → Bool
byte_rows b k =
    (ltb (set_bit b k) 256 && ltb (clear_bit b k) 256) && all_below 8 (λ j. byte_row b k j)

byte_table : all_below 256 (λ b. all_below 8 (λ k. byte_rows b k)) ≡ true
unfolding all_below
byte_table = refl

pub and_left : (a b : Bool) → (a && b) ≡ true → a ≡ true
and_left true b h = refl
and_left false b h = h

pub and_right : (a b : Bool) → (a && b) ≡ true → b ≡ true
and_right true b h = h
and_right false b h = cc

same→≡ : (a b : Bool) → same a b ≡ true → a ≡ b
same→≡ a b h = ground arith

-- Setting or clearing one bit of a byte stays in a byte, gives that bit, and keeps the others.
pub byte_laws :
    (b k j : ℕ)
    → b < 256
    → k < 8
    → j < 8
    → (set_bit b k < 256)
      × (clear_bit b k < 256)
      × (test_bit (set_bit b k) j ≡ (j == k || test_bit b j))
      × (test_bit (clear_bit b k) j ≡ (not (j == k) && test_bit b j))
byte_laws b k j hb hk hj = (
  ltb→lt _ _ (and_left _ _ (and_left _ _ rows)),
  ltb→lt _ _ (and_right _ _ (and_left _ _ rows)),
  same→≡ _ _ (and_left _ _ row),
  same→≡ _ _ (and_right _ _ row),
)
  where
    fits : Bool
    fits = ltb (set_bit b k) 256 && ltb (clear_bit b k) 256

    rows : byte_rows b k ≡ true
    rows = all_below_sound 8 (byte_rows b) k (all_below_sound 256 _ b byte_table hb) hk

    row : byte_row b k j ≡ true
    row = all_below_sound 8 (byte_row b k) j (and_right fits (all_below 8 (byte_row b k)) rows) hj

zero-bit_and : (m : ℕ) → bit_and 0 m ≡ 0
zero-bit_and m = simp bit_and-bitwise (refl)

pub bit_or_mod : (x y : ℕ) → bit_or x y % 2 ≡ max (x % 2) (y % 2)
bit_or_mod x y = omega (arith, bit_or_halve x y)

bit_or_half : (x y : ℕ) → bit_or x y / 2 ≡ bit_or (x / 2) (y / 2)
bit_or_half x y = omega (arith, bit_or_halve x y)

bit_and_half : (x y : ℕ) → bit_and x y / 2 ≡ bit_and (x / 2) (y / 2)
bit_and_half x y = omega (arith, bit_and_halve x y)

-- `(x | y) & m` is `x & m | y & m`.
and_or_below :
    (limit x y m : ℕ)
    → x ≤ limit
    → y ≤ limit
    → bit_and (bit_or x y) m ≡ bit_or (bit_and x m) (bit_and y m)
and_or_below zero zero zero m hx hy = rw zero-bit_and refl
and_or_below zero (suc x) y m hx hy = absurd (omega arith)
and_or_below zero zero (suc y) m hx hy = absurd (omega arith)
and_or_below (suc limit) x y m hx hy = omega (
  arith,
  bit_or_halve x y,
  bit_and_halve (bit_or x y) m,
  bit_and_halve x m,
  bit_and_halve y m,
  bit_or_halve (bit_and x m) (bit_and y m),
  ap (λ (t : ℕ). bit_and t (m / 2)) (bit_or_half x y),
  ap₂ bit_or (bit_and_half x m) (bit_and_half y m),
  and_or_below limit (x / 2) (y / 2) (m / 2) (omega arith) (omega arith),
)

pub bit_and-bit_or : (x y m : ℕ) → bit_and (bit_or x y) m ≡ bit_or (bit_and x m) (bit_and y m)
bit_and-bit_or x y m = and_or_below (x + y) x y m (omega arith) (omega arith)
