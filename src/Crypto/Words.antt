-- ===== src/Crypto/Words.antt =====
-- The u32 arithmetic of kernel/src/crypto, and words in byte strings.
use moon_os.Common.{ℕ, ◌+◌, ◌-◌, ◌*◌, ◌/◌, ◌%◌, ◌^◌, List, [], ◌∷◌, ◌++◌}
use moon_os.Common.Bytes.{Bytes, be32, le_bytes}

abbrev pub add32 : ℕ → ℕ → ℕ
add32 a b = (a + b) % 2 ^ 32

abbrev pub rotate_left : ℕ → ℕ → ℕ
rotate_left x n = x * 2 ^ n % 2 ^ 32 + x / 2 ^ (32 - n)

abbrev pub rotate_right : ℕ → ℕ → ℕ
rotate_right x n = x / 2 ^ n + x % 2 ^ n * 2 ^ (32 - n)

-- `!x`.
abbrev pub not32 : ℕ → ℕ
not32 x = 2 ^ 32 - 1 - x

-- The words of a byte string, four bytes each, least significant first or last.
unfoldable pub words_le : Bytes → List ℕ
words_le (a ∷ b ∷ c ∷ d ∷ rest) = (a + 256 * b + 65536 * c + 16777216 * d) ∷ words_le rest
words_le _ = []

unfoldable pub words_be : Bytes → List ℕ
words_be (a ∷ b ∷ c ∷ d ∷ rest) = (a * 16777216 + b * 65536 + c * 256 + d) ∷ words_be rest
words_be _ = []

unfoldable pub bytes_le : List ℕ → Bytes
bytes_le [] = []
bytes_le (w ∷ ws) = le_bytes 4 w ++ bytes_le ws

unfoldable pub bytes_be : List ℕ → Bytes
bytes_be [] = []
bytes_be (w ∷ ws) = be32 w ++ bytes_be ws

-- `u64::to_be_bytes`.
abbrev pub be64 : ℕ → Bytes
be64 v = be32 (v / 2 ^ 32) ++ be32 (v % 2 ^ 32)
