-- ===== src/Crypto/Chacha20.antt =====
-- kernel/src/crypto/chacha20.rs. A state is a list of sixteen words.
pub mod Undone
use moon_os.Common.{
  ℕ, zero, suc, ◌+◌, ◌%◌, ◌^◌, bit_xor, List, [], ◌∷◌, ◌++◌, length, set, get_or, take, drop,
}
use moon_os.Common.Bytes.{Bytes}
use moon_os.Crypto.Words.{add32, rotate_left, words_le, bytes_le}

abbrev constants : List ℕ
constants = 0x61707865 ∷ 0x3320646e ∷ 0x79622d32 ∷ 0x6b206574 ∷ []

-- `state[a] = state[a].wrapping_add(state[b])`.
add_into : ℕ → ℕ → List ℕ → List ℕ
add_into a b s = set s a (add32 (get_or s a 0) (get_or s b 0))

-- `state[d] ^= state[a]`, then `state[d] = state[d].rotate_left(n)`.
xor_rotate : ℕ → ℕ → ℕ → List ℕ → List ℕ
xor_rotate d a n s = set s d (rotate_left (bit_xor (get_or s d 0) (get_or s a 0)) n)

quarter_round : ℕ → ℕ → ℕ → ℕ → List ℕ → List ℕ
unfolding add_into xor_rotate
quarter_round a b c d s =
    let s1 = xor_rotate d a 16 (add_into a b s) in
    let s2 = xor_rotate b c 12 (add_into c d s1) in
    let s3 = xor_rotate d a 8 (add_into a b s2) in xor_rotate b c 7 (add_into c d s3)

double_round : List ℕ → List ℕ
unfolding quarter_round
double_round s =
    let columns =
      quarter_round 3 7 11 15
        (quarter_round 2 6 10 14 (quarter_round 1 5 9 13 (quarter_round 0 4 8 12 s))) in
    quarter_round 3 4 9 14
      (quarter_round 2 7 8 13 (quarter_round 1 6 11 12 (quarter_round 0 5 10 15 columns)))

pub rounds : ℕ → List ℕ → List ℕ
unfolding double_round
rounds zero s = s
rounds (suc n) s = rounds n (double_round s)

initial_state : Bytes → ℕ → Bytes → List ℕ
unfolding words_le
initial_state key counter nonce = constants ++ (words_le key ++ (counter ∷ words_le nonce))

add_words : List ℕ → List ℕ → List ℕ
add_words [] bs = []
add_words (a ∷ rest) [] = []
add_words (a ∷ rest) (b ∷ bs) = add32 a b ∷ add_words rest bs

unfoldable pub block : Bytes → ℕ → Bytes → Bytes
unfolding rounds initial_state add_words bytes_le
block key counter nonce =
    let initial = initial_state key counter nonce in
    bytes_le (add_words (rounds 10 initial) initial)

-- `for (byte, k) in chunk.iter_mut().zip(ks.iter()) { *byte ^= k; }`.
pub xor_with : Bytes → Bytes → Bytes
xor_with [] ks = []
xor_with (b ∷ bs) [] = b ∷ bs
xor_with (b ∷ bs) (k ∷ ks) = bit_xor b k ∷ xor_with bs ks

-- The loop over the chunks of 64 bytes, from chunk `i` on. Each round takes a byte or more, so the
-- length of the data is fuel enough.
pub keystream_from : ℕ → ℕ → Bytes → ℕ → Bytes → Bytes → Bytes
unfolding xor_with block
keystream_from zero i key counter nonce content = content
keystream_from (suc fuel) i key counter nonce [] = []
keystream_from (suc fuel) i key counter nonce (x ∷ xs) =
    xor_with (take 64 (x ∷ xs)) (block key (add32 counter (i % 2 ^ 32)) nonce)
    ++ keystream_from fuel (i + 1) key counter nonce (drop 64 (x ∷ xs))

pub apply_keystream : Bytes → ℕ → Bytes → Bytes → Bytes
unfolding keystream_from
apply_keystream key counter nonce content =
    keystream_from (length content) 0 key counter nonce content
