-- ===== src/Common/Text.antt =====
-- `core::str`: whether bytes are UTF-8, and `ends_with`.
use moon_os.Common.{
  ℕ, zero, suc, ◌-◌, Bool, true, false, ◌&&◌, Option, none, some, [], ◌∷◌, ltb, leb, ◌==◌,
  if◌then◌else◌, length, drop,
}
use moon_os.Common.Bytes.{Bytes, bytes_eq}

-- What a first byte asks for: how many bytes follow, and between which bounds the next one is.
abbrev utf8_start : ℕ → Option (ℕ × ℕ × ℕ)
utf8_start b =
    if ltb b 0x80
    then some (0, 0x80, 0xBF)
    else (if ltb b 0xC2
        then none
        else (if ltb b 0xE0
            then some (1, 0x80, 0xBF)
            else (if b == 0xE0
                then some (2, 0xA0, 0xBF)
                else (if b == 0xED
                    then some (2, 0x80, 0x9F)
                    else (if ltb b 0xF0
                        then some (2, 0x80, 0xBF)
                        else (if b == 0xF0
                            then some (3, 0x90, 0xBF)
                            else (if ltb b 0xF4
                                then some (3, 0x80, 0xBF)
                                else (if b == 0xF4 then some (3, 0x80, 0x8F) else none))))))))

-- The rest of a string, with `n` more bytes of a character to come, the next of them between `lo` and
-- `hi`.
unfoldable pub utf8_from : ℕ → ℕ → ℕ → Bytes → Bool
utf8_from zero lo hi [] = true
utf8_from (suc n) lo hi [] = false
utf8_from zero lo hi (b ∷ bytes) = elim (utf8_start b) [
  | none ↦ false
  | some (n, l, h) ↦ utf8_from n l h bytes
]
utf8_from (suc n) lo hi (b ∷ bytes) = (leb lo b && leb b hi) && utf8_from n 0x80 0xBF bytes

abbrev pub is_utf8 : Bytes → Bool
is_utf8 bytes = utf8_from 0 0x80 0xBF bytes

abbrev pub ends_with : Bytes → Bytes → Bool
ends_with bytes suffix =
    leb (length suffix) (length bytes)
    && bytes_eq (drop (length bytes - length suffix) bytes) suffix
