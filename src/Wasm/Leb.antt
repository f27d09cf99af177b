-- ===== src/Wasm/Leb.antt =====
-- The variable-length numbers of wasm.rs. A signed number is its 64 bits. A reader gives the number and
-- the position behind it.
pub mod Moves
use moon_os.Common.{
  ℕ, zero, suc, ◌+◌, ◌-◌, ◌*◌, ◌%◌, ◌^◌, bit_and, bit_or, ◌&&◌, not, Option, none, some, ltb, ◌==◌,
  if◌then◌else◌, ◌>>=◌, get_elem?,
}
use moon_os.Common.Bytes.{Bytes}

-- The loop of `read_uleb128`, with the rounds that are left: ten, until the shift reaches 64.
pub uleb_from : ℕ → ℕ → ℕ → Bytes → ℕ → Option (ℕ × ℕ)
uleb_from zero shift acc content pos = none
uleb_from (suc n) shift acc content pos = do
  byte ← get_elem? content pos
  let acc' = bit_or acc (bit_and byte 0x7F * 2 ^ shift % 2 ^ 64)
  if bit_and byte 0x80 == 0
      then some (acc', pos + 1)
      else uleb_from n (shift + 7) acc' content (pos + 1)

unfoldable pub read_uleb128 : Bytes → ℕ → Option (ℕ × ℕ)
unfolding uleb_from
read_uleb128 content pos = uleb_from 10 0 0 content pos

-- The sign of the last byte, in the bits from `shift` on.
sign_bits : ℕ → ℕ → ℕ
sign_bits byte shift =
    if ltb shift 64 && not (bit_and byte 0x40 == 0) then 2 ^ 64 - 2 ^ shift else 0

sleb_from : ℕ → ℕ → ℕ → Bytes → ℕ → Option (ℕ × ℕ)
unfolding sign_bits
sleb_from zero shift acc content pos = none
sleb_from (suc n) shift acc content pos = do
  byte ← get_elem? content pos
  let acc' = bit_or acc (bit_and byte 0x7F * 2 ^ shift % 2 ^ 64)
  if bit_and byte 0x80 == 0
      then some (bit_or acc' (sign_bits byte (shift + 7)), pos + 1)
      else sleb_from n (shift + 7) acc' content (pos + 1)

unfoldable pub read_sleb128 : Bytes → ℕ → Option (ℕ × ℕ)
unfolding sleb_from
read_sleb128 content pos = sleb_from 10 0 0 content pos
