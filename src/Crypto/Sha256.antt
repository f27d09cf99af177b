-- ===== src/Crypto/Sha256.antt =====
-- kernel/src/crypto/sha256.rs and hmac.rs.
use moon_os.Common.{
  ℕ, zero, suc, ◌+◌, ◌-◌, ◌*◌, ◌/◌, ◌%◌, ◌^◌, bit_and, bit_xor, true, false, List, [], ◌∷◌, ◌++◌,
  ltb, ◌==◌, if◌then◌else◌, length, get_or, take, drop, replicate,
}
use moon_os.Common.Bytes.{Bytes}
use moon_os.Crypto.Words.{add32, rotate_right, not32, words_be, bytes_be, be64}

abbrev k_words : List ℕ
k_words =
    0x428a2f98 ∷ 0x71374491 ∷ 0xb5c0fbcf ∷ 0xe9b5dba5 ∷ 0x3956c25b ∷ 0x59f111f1 ∷ 0x923f82a4
    ∷ 0xab1c5ed5 ∷ 0xd807aa98 ∷ 0x12835b01 ∷ 0x243185be ∷ 0x550c7dc3 ∷ 0x72be5d74 ∷ 0x80deb1fe
    ∷ 0x9bdc06a7 ∷ 0xc19bf174 ∷ 0xe49b69c1 ∷ 0xefbe4786 ∷ 0x0fc19dc6 ∷ 0x240ca1cc ∷ 0x2de92c6f
    ∷ 0x4a7484aa ∷ 0x5cb0a9dc ∷ 0x76f988da ∷ 0x983e5152 ∷ 0xa831c66d ∷ 0xb00327c8 ∷ 0xbf597fc7
    ∷ 0xc6e00bf3 ∷ 0xd5a79147 ∷ 0x06ca6351 ∷ 0x14292967 ∷ 0x27b70a85 ∷ 0x2e1b2138 ∷ 0x4d2c6dfc
    ∷ 0x53380d13 ∷ 0x650a7354 ∷ 0x766a0abb ∷ 0x81c2c92e ∷ 0x92722c85 ∷ 0xa2bfe8a1 ∷ 0xa81a664b
    ∷ 0xc24b8b70 ∷ 0xc76c51a3 ∷ 0xd192e819 ∷ 0xd6990624 ∷ 0xf40e3585 ∷ 0x106aa070 ∷ 0x19a4c116
    ∷ 0x1e376c08 ∷ 0x2748774c ∷ 0x34b0bcb5 ∷ 0x391c0cb3 ∷ 0x4ed8aa4a ∷ 0x5b9cca4f ∷ 0x682e6ff3
    ∷ 0x748f82ee ∷ 0x78a5636f ∷ 0x84c87814 ∷ 0x8cc70208 ∷ 0x90befffa ∷ 0xa4506ceb ∷ 0xbef9a3f7
    ∷ 0xc67178f2 ∷ []

abbrev h0_words : List ℕ
h0_words =
    0x6a09e667 ∷ 0xbb67ae85 ∷ 0x3c6ef372 ∷ 0xa54ff53a ∷ 0x510e527f ∷ 0x9b05688c ∷ 0x1f83d9ab
    ∷ 0x5be0cd19 ∷ []

-- `while padded.len() % 64 != 56 { padded.push(0); }`: 63 rounds at most.
pad_zeros : ℕ → Bytes → Bytes
pad_zeros zero padded = padded
pad_zeros (suc fuel) padded = elim (length padded % 64 == 56) [
  | true ↦ padded
  | false ↦ pad_zeros fuel (padded ++ (0 ∷ []))
]

pad_message : Bytes → Bytes
unfolding pad_zeros
pad_message content = pad_zeros 63 (content ++ (0x80 ∷ [])) ++ be64 (length content * 8 % 2 ^ 64)

-- The word after the words `w`, of which there are `i`.
next_word : ℕ → List ℕ → ℕ
next_word i w =
    let w15 = get_or w (i - 15) 0 in
    let w2 = get_or w (i - 2) 0 in
    let s0 = bit_xor (bit_xor (rotate_right w15 7) (rotate_right w15 18)) (w15 / 2 ^ 3) in
    let s1 = bit_xor (bit_xor (rotate_right w2 17) (rotate_right w2 19)) (w2 / 2 ^ 10) in
    add32 (add32 (add32 (get_or w (i - 16) 0) s0) (get_or w (i - 7) 0)) s1

-- `for i in 16..64`, with the rounds that are left.
schedule : ℕ → ℕ → List ℕ → List ℕ
unfolding next_word
schedule zero i w = w
schedule (suc n) i w = schedule n (i + 1) (w ++ (next_word i w ∷ []))

pub record Working : Type 0 where
  pub a : ℕ
  pub b : ℕ
  pub c : ℕ
  pub d : ℕ
  pub e : ℕ
  pub f : ℕ
  pub g : ℕ
  pub hh : ℕ

compress_round : ℕ → ℕ → Working → Working
compress_round k w v =
    let s1 = bit_xor (bit_xor (rotate_right v.e 6) (rotate_right v.e 11)) (rotate_right v.e 25) in
    let ch = bit_xor (bit_and v.e v.f) (bit_and (not32 v.e) v.g) in
    let temp1 = add32 (add32 (add32 (add32 v.hh s1) ch) k) w in
    let s0 = bit_xor (bit_xor (rotate_right v.a 2) (rotate_right v.a 13)) (rotate_right v.a 22) in
    let maj = bit_xor (bit_xor (bit_and v.a v.b) (bit_and v.a v.c)) (bit_and v.b v.c) in
    let temp2 = add32 s0 maj in
    record {
      a = add32 temp1 temp2;
      b = v.a;
      c = v.b;
      d = v.c;
      e = add32 v.d temp1;
      f = v.e;
      g = v.f;
      hh = v.g;
    }

-- The 64 rounds, over the constants and the words.
compress : List ℕ → List ℕ → Working → Working
unfolding compress_round
compress [] ws v = v
compress (k ∷ ks) [] v = v
compress (k ∷ ks) (w ∷ ws) v = compress ks ws (compress_round k w v)

working_of : List ℕ → Working
working_of h = record {
  a = get_or h 0 0;
  b = get_or h 1 0;
  c = get_or h 2 0;
  d = get_or h 3 0;
  e = get_or h 4 0;
  f = get_or h 5 0;
  g = get_or h 6 0;
  hh = get_or h 7 0;
}

hash_block : List ℕ → Bytes → List ℕ
unfolding words_be schedule working_of compress
hash_block h block =
    let v = compress k_words (schedule 48 16 (words_be block)) (working_of h) in
    add32 (get_or h 0 0) v.a
    ∷ add32 (get_or h 1 0) v.b
    ∷ add32 (get_or h 2 0) v.c
    ∷ add32 (get_or h 3 0) v.d
    ∷ add32 (get_or h 4 0) v.e
    ∷ add32 (get_or h 5 0) v.f
    ∷ add32 (get_or h 6 0) v.g
    ∷ add32 (get_or h 7 0) v.hh
    ∷ []

-- `for block in padded.chunks_exact(64)`, with the number of blocks that are left.
hash_blocks : ℕ → List ℕ → Bytes → List ℕ
unfolding hash_block
hash_blocks zero h padded = h
hash_blocks (suc n) h padded = hash_blocks n (hash_block h (take 64 padded)) (drop 64 padded)

unfoldable pub hash : Bytes → Bytes
unfolding pad_message hash_blocks bytes_be
hash content =
    let padded = pad_message content in bytes_be (hash_blocks (length padded / 64) h0_words padded)

-- `ipad[i] ^= block_key[i]`.
xor_all : ℕ → Bytes → Bytes
xor_all pad [] = []
xor_all pad (b ∷ bs) = bit_xor pad b ∷ xor_all pad bs

block_key : Bytes → Bytes
unfolding hash
block_key key =
    if ltb 64 (length key) then hash key ++ replicate 32 0 else key ++ replicate (64 - length key) 0

unfoldable pub hmac_sha256 : Bytes → Bytes → Bytes
unfolding block_key xor_all hash
hmac_sha256 key message =
    let padded_key = block_key key in
    hash (xor_all 0x5c padded_key ++ hash (xor_all 0x36 padded_key ++ message))
