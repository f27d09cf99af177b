-- ===== src/Crypto/Poly1305.antt =====
-- kernel/src/crypto/poly1305.rs. A value is five limbs of 26 bits. Words are u64 and u128 and wrap.
use moon_os.Common.{
  ℕ, zero, suc, ◌+◌, ◌-◌, ◌*◌, ◌/◌, ◌%◌, ◌^◌, bit_and, bit_or, ◌≡◌, true, false, ◌&&◌, ◌||◌, [],
  ◌∷◌, ◌++◌, ltb, leb, ◌==◌, if◌then◌else◌, length, set, get_or, take, drop, slice, replicate,
}
use moon_os.Common.Bytes.{Bytes, of_le, le_bytes, length-le_bytes}

pub record Limbs : Type 0 where
  pub l0 : ℕ
  pub l1 : ℕ
  pub l2 : ℕ
  pub l3 : ℕ
  pub l4 : ℕ

abbrev limb : ℕ
limb = 2 ^ 26

-- The bytes of a buffer of 17 from an offset, at most eight of them.
read_u64_at : Bytes → ℕ → ℕ
read_u64_at buf byte_offset = of_le (take 8 (drop byte_offset buf))

limbs_from_buf17 : Bytes → Limbs
unfolding read_u64_at
limbs_from_buf17 buf = record {
  l0 = read_u64_at buf 0 % limb;
  l1 = read_u64_at buf 3 / 2 ^ 2 % limb;
  l2 = read_u64_at buf 6 / 2 ^ 4 % limb;
  l3 = read_u64_at buf 9 / 2 ^ 6 % limb;
  l4 = read_u64_at buf 13 % limb;
}

-- `clamped[i] &= mask`.
mask_byte : ℕ → ℕ → Bytes → Bytes
mask_byte i mask bytes = set bytes i (bit_and (get_or bytes i 0) mask)

clamp_and_split_r : Bytes → Limbs
unfolding mask_byte limbs_from_buf17
clamp_and_split_r r_bytes =
    let low =
      mask_byte 15 15 (mask_byte 11 15 (mask_byte 7 15 (mask_byte 3 15 (take 16 r_bytes)))) in
    limbs_from_buf17 (mask_byte 12 252 (mask_byte 8 252 (mask_byte 4 252 low)) ++ (0 ∷ []))

abbrev u64 : ℕ → ℕ
u64 n = n % 2 ^ 64

-- The carries of `mul_mod`, from the five sums.
carry_sums : ℕ → ℕ → ℕ → ℕ → ℕ → Limbs
carry_sums t0 t1 t2 t3 t4 =
    let u1 = u64 (t1 + t0 / limb) in
    let u2 = u64 (t2 + u1 / limb) in
    let u3 = u64 (t3 + u2 / limb) in
    let u4 = u64 (t4 + u3 / limb) in
    let h0 = u64 (t0 % limb + u4 / limb * 5) in
    record {
      l0 = h0 % limb;
      l1 = u1 % limb + h0 / limb;
      l2 = u2 % limb;
      l3 = u3 % limb;
      l4 = u4 % limb;
    }

mul_mod : Limbs → Limbs → Limbs
unfolding carry_sums
mul_mod h r =
    let r1_5 = u64 (r.l1 * 5) in
    let r2_5 = u64 (r.l2 * 5) in
    let r3_5 = u64 (r.l3 * 5) in
    let r4_5 = u64 (r.l4 * 5) in
    carry_sums (u64 (h.l0 * r.l0 + h.l1 * r4_5 + h.l2 * r3_5 + h.l3 * r2_5 + h.l4 * r1_5))
      (u64 (h.l0 * r.l1 + h.l1 * r.l0 + h.l2 * r4_5 + h.l3 * r3_5 + h.l4 * r2_5))
      (u64 (h.l0 * r.l2 + h.l1 * r.l1 + h.l2 * r.l0 + h.l3 * r4_5 + h.l4 * r3_5))
      (u64 (h.l0 * r.l3 + h.l1 * r.l2 + h.l2 * r.l1 + h.l3 * r.l0 + h.l4 * r4_5))
      (u64 (h.l0 * r.l4 + h.l1 * r.l3 + h.l2 * r.l2 + h.l3 * r.l1 + h.l4 * r.l0))

add_limbs : Limbs → Limbs → Limbs
add_limbs h b = record {
  l0 = u64 (h.l0 + b.l0);
  l1 = u64 (h.l1 + b.l1);
  l2 = u64 (h.l2 + b.l2);
  l3 = u64 (h.l3 + b.l3);
  l4 = u64 (h.l4 + b.l4);
}

-- The buffer of a chunk: the chunk, a 1, and zeros.
pad_chunk : Bytes → Bytes
pad_chunk chunk = chunk ++ (1 ∷ replicate (16 - length chunk) 0)

-- The loop over the chunks of 16 bytes. Each round takes a byte or more, so the length of the message
-- is fuel enough.
absorb : ℕ → Limbs → Limbs → Bytes → Limbs
unfolding pad_chunk limbs_from_buf17 add_limbs mul_mod
absorb zero r h message = h
absorb (suc fuel) r h [] = h
absorb (suc fuel) r h (x ∷ xs) =
    absorb fuel r (mul_mod (add_limbs h (limbs_from_buf17 (pad_chunk (take 16 (x ∷ xs))))) r)
      (drop 16 (x ∷ xs))

-- The full carry pass after the loop.
carry_pass : Limbs → Limbs
carry_pass h =
    let h1 = u64 (h.l1 + h.l0 / limb) in
    let h2 = u64 (h.l2 + h1 / limb) in
    let h3 = u64 (h.l3 + h2 / limb) in
    let h4 = u64 (h.l4 + h3 / limb) in
    let h0 = u64 (h.l0 % limb + h4 / limb * 5) in
    record {
      l0 = h0 % limb;
      l1 = h1 % limb + h0 / limb;
      l2 = h2 % limb;
      l3 = h3 % limb;
      l4 = h4 % limb;
    }

-- `h[1]` may hold one bit more than a limb after the pass: the source combines by `|`.
low128 : Limbs → ℕ
low128 h =
    bit_or (bit_or (bit_or (bit_or h.l0 (h.l1 * 2 ^ 26)) (h.l2 * 2 ^ 52)) (h.l3 * 2 ^ 78))
      (h.l4 % 2 ^ 24 * 2 ^ 104)

abbrev p_low128 : ℕ
p_low128 = 2 ^ 128 - 5

-- The loop that subtracts `p`, with the rounds that are left. `extra` is at most 3, and each round
-- lowers it by 3 or more.
subtract_p : ℕ → ℕ → ℕ → ℕ
subtract_p zero low extra = low
subtract_p (suc fuel) low extra = elim (ltb 3 extra || (extra == 3 && leb p_low128 low)) [
  | false ↦ low
  | true ↦
      if leb p_low128 low
      then subtract_p fuel (low - p_low128) (extra - 3)
      else subtract_p fuel (low + 2 ^ 128 - p_low128) (extra - 3 - 1)
]

-- `tag`, as a number.
tag_value : Bytes → Bytes → ℕ
unfolding clamp_and_split_r absorb carry_pass low128 subtract_p
tag_value key message =
    let r = clamp_and_split_r (take 16 key) in
    let zeros : Limbs = record { l0 = 0; l1 = 0; l2 = 0; l3 = 0; l4 = 0 } in
    let h = carry_pass (absorb (length message) r zeros message) in
    let reduced = subtract_p 2 (low128 h) (h.l4 / 2 ^ 24 % 4) in
    (reduced + of_le (slice 16 32 key)) % 2 ^ 128

unfoldable pub mac : Bytes → Bytes → Bytes
unfolding tag_value
mac key message = le_bytes 16 (tag_value key message)

pub length-mac : (key message : Bytes) → length (mac key message) ≡ 16
unfolding mac
length-mac key message = length-le_bytes 16 (tag_value key message)
