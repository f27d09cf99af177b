-- ===== src/Crypto/Tests.antt =====
-- The test vectors of kernel/src/crypto.
use moon_os.Common.{
  ℕ, zero, suc, ◌+◌, ◌≡◌, refl, none, some, [], ◌∷◌, if◌then◌else◌, take, replicate,
}
use moon_os.Crypto.Aead.Opens.{open_sealed-seal}
use moon_os.Common.Bytes.{Bytes, bytes_eq}
use moon_os.Crypto.Chacha20.{block}
use moon_os.Crypto.Poly1305.{mac}
use moon_os.Crypto.Aead.{open_sealed, seal}
use moon_os.Crypto.Sha256.{hash}

-- FIPS 180-4: "abc".
hash-abc :
    hash (b'a' ∷ b'b' ∷ b'c' ∷ [])
    ≡ 0xba ∷ 0x78 ∷ 0x16 ∷ 0xbf ∷ 0x8f ∷ 0x01 ∷ 0xcf ∷ 0xea ∷ 0x41 ∷ 0x41 ∷ 0x40 ∷ 0xde ∷ 0x5d
      ∷ 0xae ∷ 0x22 ∷ 0x23 ∷ 0xb0 ∷ 0x03 ∷ 0x61 ∷ 0xa3 ∷ 0x96 ∷ 0x17 ∷ 0x7a ∷ 0x9c ∷ 0xb4 ∷ 0x10
      ∷ 0xff ∷ 0x61 ∷ 0xf2 ∷ 0x00 ∷ 0x15 ∷ 0xad ∷ []
unfolding hash
hash-abc = refl

-- The first keystream block of chacha20.rs, of the key of bytes 0 to 31.
count_from : ℕ → ℕ → Bytes
count_from zero i = []
count_from (suc n) i = i ∷ count_from n (i + 1)

block-zero :
    take 8 (
      block
        (count_from 32 0)
        0
        (0x00 ∷ 0x00 ∷ 0x00 ∷ 0x09 ∷ 0x00 ∷ 0x00 ∷ 0x00 ∷ 0x4a ∷ 0x00 ∷ 0x00 ∷ 0x00 ∷ 0x00 ∷ []))
    ≡ 0x8a ∷ 0xdc ∷ 0x91 ∷ 0xfd ∷ 0x9f ∷ 0xf4 ∷ 0xf0 ∷ 0xf5 ∷ []
unfolding block count_from
block-zero = refl

-- RFC 8439 2.5.2.
mac-rfc :
    mac
      (0x85 ∷ 0xd6 ∷ 0xbe ∷ 0x78 ∷ 0x57 ∷ 0x55 ∷ 0x6d ∷ 0x33 ∷ 0x7f ∷ 0x44 ∷ 0x52 ∷ 0xfe ∷ 0x42
        ∷ 0xd5 ∷ 0x06 ∷ 0xa8 ∷ 0x01 ∷ 0x03 ∷ 0x80 ∷ 0x8a ∷ 0xfb ∷ 0x0d ∷ 0xb2 ∷ 0xfd ∷ 0x4a ∷ 0xbf
        ∷ 0xf6 ∷ 0xaf ∷ 0x41 ∷ 0x49 ∷ 0xf5 ∷ 0x1b ∷ [])
      (0x43 ∷ 0x72 ∷ 0x79 ∷ 0x70 ∷ 0x74 ∷ 0x6f ∷ 0x67 ∷ 0x72 ∷ 0x61 ∷ 0x70 ∷ 0x68 ∷ 0x69 ∷ 0x63
        ∷ 0x20 ∷ 0x46 ∷ 0x6f ∷ 0x72 ∷ 0x75 ∷ 0x6d ∷ 0x20 ∷ 0x52 ∷ 0x65 ∷ 0x73 ∷ 0x65 ∷ 0x61 ∷ 0x72
        ∷ 0x63 ∷ 0x68 ∷ 0x20 ∷ 0x47 ∷ 0x72 ∷ 0x6f ∷ 0x75 ∷ 0x70 ∷ [])
    ≡ 0xa8 ∷ 0x06 ∷ 0x1d ∷ 0xc1 ∷ 0x30 ∷ 0x51 ∷ 0x36 ∷ 0xc6 ∷ 0xc2 ∷ 0x2b ∷ 0x8b ∷ 0xaf ∷ 0x0c
      ∷ 0x01 ∷ 0x27 ∷ 0xa9 ∷ []
unfolding mac
mac-rfc = refl

abbrev test_key : Bytes
test_key = replicate 32 7

abbrev test_nonce : Bytes
test_nonce = replicate 12 1

open_sealed-seal_example :
    open_sealed test_key test_nonce []
      (seal test_key test_nonce [] (1 ∷ 2 ∷ 3 ∷ [])).0
      (replicate 16 0)
    ≡ (if bytes_eq (seal test_key test_nonce [] (1 ∷ 2 ∷ 3 ∷ [])).1 (replicate 16 0)
        then some (1 ∷ 2 ∷ 3 ∷ [])
        else none)
open_sealed-seal_example =
    open_sealed-seal test_key test_nonce [] (1 ∷ 2 ∷ 3 ∷ []) (replicate 16 0) refl
