-- ===== src/Crypto/Chacha20/Undone.antt =====
-- `apply_keystream` of chacha20.rs undoes itself.
use moon_os.Common.{
  ℕ, zero, suc, ◌+◌, ◌%◌, ◌^◌, ◌≤◌, ◌<◌, ◌≡◌, refl, sym, ap, ap₂, ◌∙◌, [], ◌∷◌, ◌++◌, append-nil,
  arith, dec_lt, length, take, drop, length-append, take-append, drop-append, take-append-drop,
  length-take, length-drop, take_all, drop_all,
}
use moon_os.Crypto.Words.{add32}
use native.Mathlib.Nat.{le_refl}
use moon_os.Common.Xor.{bit_xor_undone}
use moon_os.Common.Bytes.{Bytes}
use moon_os.Crypto.Chacha20.{xor_with, apply_keystream, keystream_from, block}

-- A first chunk and the rest, if only the last chunk is short.
chunk_split :
    (first rest : Bytes)
    → length first ≤ 64
    → (length first < 64 → rest ≡ [])
    → (take 64 (first ++ rest) ≡ first) × (drop 64 (first ++ rest) ≡ rest)
chunk_split first rest h last = elim (dec_lt (length first) 64) [
  | yes short ↦ rw (last short, append-nil first) (take_all 64 first h, drop_all 64 first h)
  | no full ↦
      let exact : length first ≡ 64 = omega arith in
      (
        ap (λ (n : ℕ). take n (first ++ rest)) (sym exact) ∙ take-append first rest,
        ap (λ (n : ℕ). drop n (first ++ rest)) (sym exact) ∙ drop-append first rest,
      )
]

length-xor_with : (bs ks : Bytes) → length (xor_with bs ks) ≡ length bs
unfolding xor_with
length-xor_with [] ks = refl
length-xor_with (b ∷ bs) [] = refl
length-xor_with (b ∷ bs) (k ∷ ks) = ap suc (length-xor_with bs ks)

xor_with_undone : (bs ks : Bytes) → xor_with (xor_with bs ks) ks ≡ bs
unfolding xor_with
xor_with_undone [] ks = refl
xor_with_undone (b ∷ bs) [] = refl
xor_with_undone (b ∷ bs) (k ∷ ks) =
    ap₂ (λ (x : ℕ) (l : Bytes). x ∷ l) (bit_xor_undone b k) (xor_with_undone bs ks)

module _ (key : Bytes) (counter : ℕ) (nonce : Bytes) where
  keystream-nil : (n i : ℕ) → keystream_from n i key counter nonce [] ≡ []
  unfolding keystream_from
  keystream-nil zero i = refl
  keystream-nil (suc n) i = refl

  keystream_step :
      (n i : ℕ) (content : Bytes)
      → keystream_from (suc n) i key counter nonce content
        ≡ xor_with (take 64 content) (block key (add32 counter (i % 2 ^ 32)) nonce)
          ++ keystream_from n (i + 1) key counter nonce (drop 64 content)
  unfolding keystream_from xor_with
  keystream_step n i [] = sym (keystream-nil n (i + 1))
  keystream_step n i (x ∷ xs) = refl

  length-keystream_from :
      (n i : ℕ) (content : Bytes)
      → length (keystream_from n i key counter nonce content) ≡ length content
  length-keystream_from zero i content = unfold keystream_from in refl
  length-keystream_from (suc n) i content =
      ap (λ (l : Bytes). length l) (keystream_step n i content)
      ∙ omega (
        arith,
        length-append (xor_with (take 64 content) (block key (add32 counter (i % 2 ^ 32)) nonce))
            (keystream_from n (i + 1) key counter nonce (drop 64 content)),
        length-xor_with (take 64 content) (block key (add32 counter (i % 2 ^ 32)) nonce),
        length-keystream_from n (i + 1) (drop 64 content),
        length-take 64 content,
        length-drop 64 content,
      )

  keystream_from_undone :
      (n i : ℕ) (content : Bytes)
      → length content ≤ n
      → keystream_from n i key counter nonce (keystream_from n i key counter nonce content)
        ≡ content
  keystream_from_undone zero i content h = unfold keystream_from in refl
  keystream_from_undone (suc n) i content h =
      let k = block key (add32 counter (i % 2 ^ 32)) nonce in
      let first = xor_with (take 64 content) k in
      let rest = keystream_from n (i + 1) key counter nonce (drop 64 content) in
      let (front, back) =
        chunk_split first rest
          (omega (arith, length-xor_with (take 64 content) k, length-take 64 content))
          (λ (short : length first < 64).
            ap (λ (l : Bytes). keystream_from n (i + 1) key counter nonce l)
              (drop_all 64 content
                (omega (arith, length-xor_with (take 64 content) k, length-take 64 content)))
            ∙ keystream-nil n (i + 1)) in
      ap (λ (l : Bytes). keystream_from (suc n) i key counter nonce l) (keystream_step n i content)
      ∙ keystream_step n i (first ++ rest)
      ∙ ap₂ (λ (a b : Bytes). xor_with a k ++ keystream_from n (i + 1) key counter nonce b) front
          back
      ∙ ap₂ (λ (a b : Bytes). a ++ b) (xor_with_undone (take 64 content) k)
          (keystream_from_undone n (i + 1) (drop 64 content)
            (omega (arith, length-drop 64 content)))
      ∙ take-append-drop 64 content

  pub apply_keystream_undone :
      (content : Bytes)
      → apply_keystream key counter nonce (apply_keystream key counter nonce content) ≡ content
  unfolding apply_keystream
  apply_keystream_undone content =
      ap
        (λ (n : ℕ).
          keystream_from n 0 key counter nonce
            (keystream_from (length content) 0 key counter nonce content))
        (length-keystream_from (length content) 0 content)
      ∙ keystream_from_undone (length content) 0 content (le_refl (length content))
