-- ===== src/Wasm/Arith.antt =====
-- The arithmetic of wasm.rs. An i32 is its 32 bits.
use moon_os.Common.{
  ℕ, ◌+◌, ◌-◌, ◌*◌, ◌/◌, ◌%◌, ◌^◌, Bool, ◌&&◌, ◌||◌, not, ltb, leb, ◌==◌, if◌then◌else◌,
}
use moon_os.Wasm.Result.{Result, ok, err, divide_trap}

abbrev pub of_bool : Bool → ℕ
of_bool b = if b then 1 else 0

-- The order of signed numbers.
abbrev pub lt_s : ℕ → ℕ → Bool
lt_s a b = ltb ((a + 2 ^ 31) % 2 ^ 32) ((b + 2 ^ 31) % 2 ^ 32)

abbrev pub add : ℕ → ℕ → ℕ
add a b = (a + b) % 2 ^ 32

abbrev pub sub : ℕ → ℕ → ℕ
sub a b = (a + 2 ^ 32 - b) % 2 ^ 32

abbrev pub mul : ℕ → ℕ → ℕ
mul a b = a * b % 2 ^ 32

abbrev pub is_negative : ℕ → Bool
is_negative a = leb (2 ^ 31) a

abbrev magnitude : ℕ → ℕ
magnitude a = if is_negative a then 2 ^ 32 - a else a

abbrev negate : ℕ → ℕ
negate a = (2 ^ 32 - a) % 2 ^ 32

abbrev pub same_sign : ℕ → ℕ → Bool
same_sign a b = if is_negative a then is_negative b else not (is_negative b)

-- Division is towards zero, and the remainder has the sign of the dividend.
unfoldable pub div_s : ℕ → ℕ → Result ℕ
div_s a b =
    if b == 0 || (a == 2 ^ 31 && b == 2 ^ 32 - 1)
    then err divide_trap
    else if same_sign a b
    then ok (magnitude a / magnitude b)
    else ok (negate (magnitude a / magnitude b))

unfoldable pub div_u : ℕ → ℕ → Result ℕ
div_u a b = if b == 0 then err divide_trap else ok (a / b)

unfoldable pub rem_s : ℕ → ℕ → Result ℕ
rem_s a b =
    if b == 0
    then err divide_trap
    else if b == 2 ^ 32 - 1
    then ok 0
    else if is_negative a
    then ok (negate (magnitude a % magnitude b))
    else ok (a % magnitude b)

unfoldable pub rem_u : ℕ → ℕ → Result ℕ
rem_u a b = if b == 0 then err divide_trap else ok (a % b)

abbrev pub shl : ℕ → ℕ → ℕ
shl a b = a * 2 ^ (b % 32) % 2 ^ 32

-- The sign is shifted in.
abbrev pub shr_s : ℕ → ℕ → ℕ
shr_s a b = if is_negative a then 2 ^ 32 - 1 - (2 ^ 32 - 1 - a) / 2 ^ (b % 32) else a / 2 ^ (b % 32)

abbrev pub shr_u : ℕ → ℕ → ℕ
shr_u a b = a / 2 ^ (b % 32)
