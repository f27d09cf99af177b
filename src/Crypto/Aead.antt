-- ===== src/Crypto/Aead.antt =====
-- kernel/src/crypto/aead.rs: ChaCha20 with Poly1305.
pub mod Opens
use moon_os.Common.{
  ℕ, ◌-◌, ◌%◌, bit_or, bit_xor, Bool, Option, none, some, [], ◌∷◌, ◌++◌, ◌==◌, if◌then◌else◌,
  length, take, replicate,
}
use moon_os.Common.Bytes.{Bytes, le_bytes}
use moon_os.Crypto.Chacha20.{block, apply_keystream}
use moon_os.Crypto.Poly1305.{mac}

abbrev pad16_len : ℕ → ℕ
pad16_len len = (16 - len % 16) % 16

pub poly1305_key : Bytes → Bytes → Bytes
poly1305_key key nonce = take 32 (block key 0 nonce)

pub mac_input : Bytes → Bytes → Bytes
mac_input aad ciphertext =
    ((aad ++ replicate (pad16_len (length aad)) 0)
      ++ (ciphertext ++ replicate (pad16_len (length ciphertext)) 0))
    ++ (le_bytes 8 (length aad) ++ le_bytes 8 (length ciphertext))

-- The ciphertext and the tag.
unfoldable pub seal : Bytes → Bytes → Bytes → Bytes → Bytes × Bytes
unfolding poly1305_key mac_input
seal key nonce aad plaintext =
    let ciphertext = apply_keystream key 1 nonce plaintext in
    (ciphertext, mac (poly1305_key key nonce) (mac_input aad ciphertext))

-- `diff |= a[i] ^ b[i]`, over the tags' bytes.
pub tag_diff : ℕ → Bytes → Bytes → ℕ
tag_diff diff [] bs = diff
tag_diff diff (a ∷ rest) [] = diff
tag_diff diff (a ∷ rest) (b ∷ bs) = tag_diff (bit_or diff (bit_xor a b)) rest bs

pub constant_time_eq : Bytes → Bytes → Bool
unfolding tag_diff
constant_time_eq a b = tag_diff 0 a b == 0

unfoldable pub open_sealed : Bytes → Bytes → Bytes → Bytes → Bytes → Option Bytes
unfolding poly1305_key mac_input constant_time_eq
open_sealed key nonce aad ciphertext tag =
    if constant_time_eq (mac (poly1305_key key nonce) (mac_input aad ciphertext)) tag
    then some (apply_keystream key 1 nonce ciphertext)
    else none
