-- ===== src/Crypto/Hkdf.antt =====
-- kernel/src/crypto/hkdf.rs.
use moon_os.Common.{ℕ, zero, suc, ◌+◌, ◌%◌, true, false, [], ◌∷◌, ◌++◌, ltb, length, take}
use moon_os.Common.Bytes.{Bytes, be16}
use moon_os.Crypto.Sha256.{hmac_sha256}

unfoldable pub extract : Bytes → Bytes → Bytes
extract salt ikm = hmac_sha256 salt ikm

-- The loop of `expand`. Each round adds 32 bytes, so the length asked for is fuel enough. The counter
-- is a u8 and wraps.
expand_from : ℕ → Bytes → Bytes → ℕ → Bytes → ℕ → Bytes → Bytes
expand_from zero prk info len t counter okm = okm
expand_from (suc fuel) prk info len t counter okm = elim (ltb (length okm) len) [
  | false ↦ okm
  | true ↦
      let t' = hmac_sha256 prk (t ++ (info ++ (counter ∷ []))) in
      expand_from fuel prk info len t' ((counter + 1) % 256) (okm ++ t')
]

unfoldable pub expand : Bytes → Bytes → ℕ → Bytes
unfolding expand_from
expand prk info len = take len (expand_from len prk info len [] 1 [])

-- "tls13 ".
abbrev tls13_prefix : Bytes
tls13_prefix = b't' ∷ b'l' ∷ b's' ∷ b'1' ∷ b'3' ∷ b' ' ∷ []

unfoldable expand_label : Bytes → Bytes → Bytes → ℕ → Bytes
expand_label secret label context len =
    let full_label = tls13_prefix ++ label in
    expand secret
      (be16 (len % 65536)
        ++ ((length full_label % 256) ∷ (full_label ++ ((length context % 256) ∷ context))))
      len
