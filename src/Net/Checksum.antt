-- ===== src/Net/Checksum.antt =====
-- net/ipv4.rs, `checksum`: the ones'-complement sum of 16-bit words, which the IPv4, ICMP and TCP
-- headers carry. `sum` is a u32 that wraps around in a release build: adding modulo 2 ^ 32 is adding and then
-- taking the remainder, as the model does.
use moon_os.Common.{
  ℕ, zero, suc, ◌+◌, ◌-◌, ◌*◌, ◌/◌, ◌%◌, ◌^◌, ◌<◌, ◌≡◌, refl, ap, ◌∙◌, [], ◌∷◌, arith, ℕ_discrete,
  ◌==◌, if◌then◌else◌, length, set, get_or,
}
use moon_os.Common.Bytes.{Bytes}

-- The words of `data`, the last of an odd number of bytes padded with zero.
abbrev pub word_sum : Bytes → ℕ
word_sum [] = 0
word_sum (a ∷ []) = a * 256
word_sum (a ∷ b ∷ rest) = a * 256 + b + word_sum rest

-- The loop `while sum >> 16 != 0`, at most `fuel` times.
unfoldable pub fold_carry : ℕ → ℕ → ℕ
fold_carry zero sum = sum
fold_carry (suc fuel) sum =
    let folded = fold_carry fuel (sum % 65536 + sum / 65536) in
    if sum / 65536 == 0 then sum else folded

-- Three rounds fold any u32.
abbrev pub checksum : Bytes → ℕ
checksum bytes = 65535 - fold_carry 3 (word_sum bytes % 2 ^ 32)

-- The two bytes at `i` become the checksum of `data`, or of the pseudo header and the segment.
abbrev pub put_checksum : Bytes → ℕ → ℕ → Bytes
put_checksum bytes i sum = set (set bytes i (sum / 256)) (suc i) (sum % 256)

fold_carry-small : (n sum : ℕ) → sum < 65536 → fold_carry n sum ≡ sum
unfolding fold_carry
fold_carry-small zero sum h = refl
fold_carry-small (suc n) sum h = ground arith

fold_carry_add : (m n sum : ℕ) → fold_carry (m + n) sum ≡ fold_carry n (fold_carry m sum)
unfolding fold_carry
fold_carry_add zero n sum = ap (λ (rounds : ℕ). fold_carry rounds sum) (omega arith)
fold_carry_add (suc m) n sum =
    ap (λ (rounds : ℕ). fold_carry rounds sum) suc_plus
    ∙ ground (arith, fold_carry-small n sum, fold_carry_add m n (sum % 65536 + sum / 65536))
  where
    suc_plus : suc m + n ≡ suc (m + n)
    suc_plus = omega arith

fold_carry-lt : (sum : ℕ) → sum < 0x100000000 → fold_carry 3 sum < 65536
unfolding fold_carry
fold_carry-lt sum h = ground arith

-- Three rounds of the loop leave a word for any u32, and more rounds leave the same one: the loop
-- ends, and with this result.
fold_carry-fits :
    (n sum : ℕ)
    → sum < 0x100000000
    → (fold_carry 3 sum < 65536) × (fold_carry (3 + n) sum ≡ fold_carry 3 sum)
fold_carry-fits n sum h = (
  fold_carry-lt sum h,
  fold_carry_add 3 n sum ∙ fold_carry-small n (fold_carry 3 sum) (fold_carry-lt sum h),
)

-- What the folding keeps: the value modulo 65535, and whether it is zero.
fold_carry_mod : (n sum : ℕ) → fold_carry n sum % 65535 ≡ sum % 65535
unfolding fold_carry
fold_carry_mod zero sum = refl
fold_carry_mod (suc n) sum = ground (arith, fold_carry_mod n (sum % 65536 + sum / 65536))

fold_carry-zero : (n sum : ℕ) → fold_carry n sum ≡ 0 → sum ≡ 0
unfolding fold_carry
fold_carry-zero zero sum h = h
fold_carry-zero (suc n) sum h = ground (arith, fold_carry-zero n (sum % 65536 + sum / 65536))

abbrev double : ℕ → ℕ
double zero = 0
double (suc k) = suc (suc (double k))

word_sum-put_checksum :
    (k : ℕ) (bytes : Bytes) (sum : ℕ)
    → suc (double k) < length bytes
    → get_or bytes (double k) 0 ≡ 0
    → get_or bytes (suc (double k)) 0 ≡ 0
    → sum < 65536
    → word_sum (put_checksum bytes (double k) sum) ≡ word_sum bytes + sum
word_sum-put_checksum k [] sum h a b fits = absurd (omega arith)
word_sum-put_checksum zero (x ∷ []) sum h a b fits = absurd (omega arith)
word_sum-put_checksum (suc k) (x ∷ []) sum h a b fits = absurd (omega arith)
word_sum-put_checksum zero (x ∷ y ∷ bytes) sum h a b fits = omega arith
word_sum-put_checksum (suc k) (x ∷ y ∷ bytes) sum h a b fits =
    omega (arith, word_sum-put_checksum k bytes sum (omega arith) a b fits)

-- A packet that is not all zero, whose words add up to less than 0xFFFF0000, with its checksum
-- written over two zero bytes at an even place, checks: the receiver's checksum of the whole is
-- zero.
pub checksum-put_checksum :
    (k : ℕ) (bytes : Bytes)
    → suc (double k) < length bytes
    → get_or bytes (double k) 0 ≡ 0
    → get_or bytes (suc (double k)) 0 ≡ 0
    → 0 < word_sum bytes
    → word_sum bytes < 0xFFFF0000
    → checksum (put_checksum bytes (double k) (checksum bytes)) ≡ 0
checksum-put_checksum k bytes h a b nonzero fits =
    rw kept (elim (ℕ_discrete (fold_carry 3 whole) 0) [
      | yes none_left ↦ omega (arith, fold_carry-zero 3 whole none_left, added)
      | no some_left ↦ omega (
        arith,
        added,
        fold_carry-lt (word_sum bytes) (omega arith),
        fold_carry_mod 3 (word_sum bytes),
        fold_carry-lt whole (omega (arith, added)),
        fold_carry_mod 3 whole,
      )
    ])
  where
    unwrapped : word_sum bytes % 2 ^ 32 ≡ word_sum bytes
    unwrapped = omega arith

    sum : ℕ
    sum = 65535 - fold_carry 3 (word_sum bytes)

    whole : ℕ
    whole = word_sum (put_checksum bytes (double k) sum)

    added : whole ≡ word_sum bytes + sum
    added = word_sum-put_checksum k bytes sum h a b (omega arith)

    kept : checksum (put_checksum bytes (double k) (checksum bytes)) ≡ 65535 - fold_carry 3 whole
    kept = rw unwrapped (ap (λ (n : ℕ). 65535 - fold_carry 3 n) (omega (arith, added)))
