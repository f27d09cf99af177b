-- ===== src/Crypto/Aead/Opens.antt =====
-- `open` of aead.rs undoes `seal`, and takes no other tag.
use moon_os.Common.{
  ℕ, bit_or, bit_xor, ◌≡◌, refl, sym, ap₂, ◌∙◌, inl, inr, false, none, some, [], ◌∷◌, arith,
  if◌then◌else◌, ==_iff, ==-ne, Bool-cases, length,
}
use moon_os.Crypto.Chacha20.Undone.{apply_keystream_undone}
use moon_os.Crypto.Poly1305.{mac, length-mac}
use moon_os.Crypto.Chacha20.{apply_keystream}
use moon_os.Common.Xor.{bit_or-eq_zero, bit_xor_self, bit_xor-eq_zero}
use moon_os.Common.Bytes.{Bytes, bytes_eq, bytes_eq_iff}
use moon_os.Crypto.Aead.{constant_time_eq, open_sealed, tag_diff, seal, poly1305_key, mac_input}

tag_diff_self : (a : Bytes) → tag_diff 0 a a ≡ 0
unfolding tag_diff
tag_diff_self [] = refl
tag_diff_self (x ∷ xs) = rw (bit_xor_self x) (tag_diff_self xs)

tag_diff_zero : (d : ℕ) (a b : Bytes) → length a ≡ length b → tag_diff d a b ≡ 0 → (d ≡ 0) × (a ≡ b)
unfolding tag_diff
tag_diff_zero d [] [] h e = (e, refl)
tag_diff_zero d [] (y ∷ ys) h e = absurd (omega arith)
tag_diff_zero d (x ∷ xs) [] h e = absurd (omega arith)
tag_diff_zero d (x ∷ xs) (y ∷ ys) h e =
    let (now, rest) = tag_diff_zero (bit_or d (bit_xor x y)) xs ys (omega arith) e in
    let (before, same) = bit_or-eq_zero d (bit_xor x y) now in
    (before, ap₂ (λ (z : ℕ) (l : Bytes). z ∷ l) (bit_xor-eq_zero x y same) rest)

differ : {a b : Bytes} → bytes_eq a b ≡ false → a ≡ b → ⊥
differ {a} {b} e same = cc ((bytes_eq_iff a b).1 same, e)

constant_time_eq-bytes_eq :
    (a b : Bytes) → length a ≡ length b → constant_time_eq a b ≡ bytes_eq a b
unfolding constant_time_eq
constant_time_eq-bytes_eq a b h = elim (Bool-cases (bytes_eq a b)) [
  | inl e ↦ let same = (bytes_eq_iff a b).0 e in rw (e, ← same) ((==_iff _ 0).1 (tag_diff_self a))
  | inr e ↦
      rw e (
        ==-ne (tag_diff 0 a b) 0 (λ (z : tag_diff 0 a b ≡ 0). differ e (tag_diff_zero 0 a b h z).1))
]

-- `open`, given what `seal` made and any tag of 16 bytes, returns the plaintext if the tag is the one
-- that `seal` made, and nothing otherwise.
pub open_sealed-seal :
    (key nonce aad plaintext tag : Bytes)
    → length tag ≡ 16
    → open_sealed key nonce aad (seal key nonce aad plaintext).0 tag
      ≡ (if bytes_eq (seal key nonce aad plaintext).1 tag then some plaintext else none)
unfolding open_sealed seal
open_sealed-seal key nonce aad plaintext tag h =
    let ciphertext = apply_keystream key 1 nonce plaintext in
    let expected = mac (poly1305_key key nonce) (mac_input aad ciphertext) in
    rw
      (
        constant_time_eq-bytes_eq expected tag
            (length-mac (poly1305_key key nonce) (mac_input aad ciphertext) ∙ sym h),
        apply_keystream_undone key 1 nonce plaintext,
      )
      refl

pub length-tag : (key nonce aad plaintext : Bytes) → length (seal key nonce aad plaintext).1 ≡ 16
unfolding seal
length-tag key nonce aad plaintext =
    length-mac (poly1305_key key nonce) (mac_input aad (apply_keystream key 1 nonce plaintext))
