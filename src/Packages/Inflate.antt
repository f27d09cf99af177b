-- ===== src/Packages/Inflate.antt =====
-- inflate.rs: the bit reader, Huffman tables and the decompressor for raw DEFLATE. A reader keeps the
-- bytes from `byte_pos` on. The words stay far below their widths: 16 bits are read at most, and a code
-- has 320 lengths at most.
pub mod Blocks
pub mod Copies
pub mod Stored
pub mod Ends
mod Tests
use moon_os.Common.{
  ℕ, zero, suc, ◌+◌, ◌-◌, ◌*◌, ◌/◌, ◌^◌, bit_and, bit_or, sym, Option, none, some, List, [], ◌∷◌,
  ◌++◌, ltb, ◌==◌, if◌then◌else◌, ◌>>=◌, length, set, get_or, take, drop, replicate,
}
use moon_os.Common.Bytes.{Bytes, of_le}

pub record BitReader : Type 0 where
  pub input : Bytes
  pub bit_buf : ℕ
  pub bit_cnt : ℕ

abbrev pub new : Bytes → BitReader
new input = record { input = input; bit_buf = 0; bit_cnt = 0 }

-- The loop of `bits` that fills the buffer.
unfoldable pub refill : ℕ → ℕ → ℕ → Bytes → Option BitReader
refill need buf cnt [] =
    if ltb cnt need then none else some (record { input = []; bit_buf = buf; bit_cnt = cnt })
refill need buf cnt (byte ∷ input) =
    let more = refill need (bit_or buf (byte * 2 ^ cnt)) (cnt + 8) input in
    if ltb cnt need
    then more
    else some (record { input = byte ∷ input; bit_buf = buf; bit_cnt = cnt })

abbrev pub take_bits : ℕ → BitReader → ℕ × BitReader
take_bits need r = (
  bit_and (BitReader.bit_buf r) (2 ^ need - 1),
  record r { bit_buf = BitReader.bit_buf r / 2 ^ need; bit_cnt = BitReader.bit_cnt r - need },
)

unfoldable pub bits : BitReader → ℕ → Option (ℕ × BitReader)
bits r need = do
  full ← refill need (BitReader.bit_buf r) (BitReader.bit_cnt r) (BitReader.input r)
  some (take_bits need full)

abbrev pub align_to_byte : BitReader → BitReader
align_to_byte r = record r { bit_buf = 0; bit_cnt = 0 }

abbrev pub read_bytes : BitReader → ℕ → Option (Bytes × BitReader)
read_bytes r n =
    if ltb (length (BitReader.input r)) n
    then none
    else some (take n (BitReader.input r), record r { input = drop n (BitReader.input r) })

pub record Huffman : Type 0 where
  pub count : List ℕ
  pub symbol : List ℕ

-- An array at an index in bounds, and one more at an index.
abbrev pub at : List ℕ → ℕ → ℕ
at xs i = get_or xs i 0

abbrev bump : List ℕ → ℕ → List ℕ
bump xs i = set xs i (at xs i + 1)

abbrev count_lengths : List ℕ → List ℕ → List ℕ
count_lengths count [] = count
count_lengths count (len ∷ lengths) = count_lengths (bump count len) lengths

-- `offsets[len + 1] = offsets[len] + count[len]` for `rounds` values from `len` on.
abbrev fill_offsets : ℕ → ℕ → List ℕ → List ℕ → List ℕ
fill_offsets zero len count offsets = offsets
fill_offsets (suc rounds) len count offsets =
    fill_offsets rounds (suc len) count (set offsets (suc len) (at offsets len + at count len))

abbrev place_symbols : ℕ → List ℕ → List ℕ → List ℕ → List ℕ
place_symbols sym [] offsets symbol = symbol
place_symbols sym (len ∷ lengths) offsets symbol =
    let placed =
      place_symbols (suc sym) lengths (bump offsets len) (set symbol (at offsets len) sym) in
    let skipped = place_symbols (suc sym) lengths offsets symbol in
    if len == 0 then skipped else placed

unfoldable pub construct : List ℕ → Huffman
construct lengths =
    let count = set (count_lengths (replicate 16 0) lengths) 0 0 in
    record {
      count = count;
      symbol =
          place_symbols 0 lengths (fill_offsets 15 1 count (replicate 17 0))
            (replicate (length lengths) 0);
    }

-- The symbol of a code of length `len`, if `code` is one.
abbrev pub leaf : ℕ → ℕ → ℕ → ℕ → BitReader → Huffman → Option (ℕ × BitReader)
leaf len code first index r h =
    if ltb code (first + at (Huffman.count h) len)
    then some (at (Huffman.symbol h) (index + (code - first)), r)
    else none

abbrev pub or_else {ℓ} : {A : Type ℓ} → Option A → Option A → Option A
or_else none other = other
or_else (some a) other = some a

-- The loop of `decode` over the lengths from `len` on. `code` is never less than `first`.
unfoldable pub decode_from : ℕ → ℕ → ℕ → ℕ → ℕ → BitReader → Huffman → Option (ℕ × BitReader)
decode_from zero len code first index r h = none
decode_from (suc rounds) len code first index r h = do
  (bit, r) ← bits r 1
  or_else (leaf len (bit_or code bit) first index r h) (
      decode_from rounds (suc len) (2 * bit_or code bit) (2 * (first + at (Huffman.count h) len))
        (index + at (Huffman.count h) len) r h)

abbrev pub decode : BitReader → Huffman → Option (ℕ × BitReader)
decode r h = decode_from 15 1 0 0 0 r h

abbrev pub length_base : List ℕ
length_base =
    3 ∷ 4 ∷ 5 ∷ 6 ∷ 7 ∷ 8 ∷ 9 ∷ 10 ∷ 11 ∷ 13 ∷ 15 ∷ 17 ∷ 19 ∷ 23 ∷ 27 ∷ 31 ∷ 35 ∷ 43 ∷ 51 ∷ 59 ∷ 67
    ∷ 83 ∷ 99 ∷ 115 ∷ 131 ∷ 163 ∷ 195 ∷ 227 ∷ 258 ∷ []

abbrev pub length_extra : List ℕ
length_extra =
    0 ∷ 0 ∷ 0 ∷ 0 ∷ 0 ∷ 0 ∷ 0 ∷ 0 ∷ 1 ∷ 1 ∷ 1 ∷ 1 ∷ 2 ∷ 2 ∷ 2 ∷ 2 ∷ 3 ∷ 3 ∷ 3 ∷ 3 ∷ 4 ∷ 4 ∷ 4 ∷ 4
    ∷ 5 ∷ 5 ∷ 5 ∷ 5 ∷ 0 ∷ []

abbrev pub dist_base : List ℕ
dist_base =
    1 ∷ 2 ∷ 3 ∷ 4 ∷ 5 ∷ 7 ∷ 9 ∷ 13 ∷ 17 ∷ 25 ∷ 33 ∷ 49 ∷ 65 ∷ 97 ∷ 129 ∷ 193 ∷ 257 ∷ 385 ∷ 513 ∷ 769
    ∷ 1025 ∷ 1537 ∷ 2049 ∷ 3073 ∷ 4097 ∷ 6145 ∷ 8193 ∷ 12289 ∷ 16385 ∷ 24577 ∷ []

abbrev pub dist_extra : List ℕ
dist_extra =
    0 ∷ 0 ∷ 0 ∷ 0 ∷ 1 ∷ 1 ∷ 2 ∷ 2 ∷ 3 ∷ 3 ∷ 4 ∷ 4 ∷ 5 ∷ 5 ∷ 6 ∷ 6 ∷ 7 ∷ 7 ∷ 8 ∷ 8 ∷ 9 ∷ 9 ∷ 10 ∷ 10
    ∷ 11 ∷ 11 ∷ 12 ∷ 12 ∷ 13 ∷ 13 ∷ []

abbrev pub code_length_order : List ℕ
code_length_order =
    16 ∷ 17 ∷ 18 ∷ 0 ∷ 8 ∷ 7 ∷ 9 ∷ 6 ∷ 10 ∷ 5 ∷ 11 ∷ 4 ∷ 12 ∷ 3 ∷ 13 ∷ 2 ∷ 14 ∷ 1 ∷ 15 ∷ []

abbrev fixed_lit_lengths : List ℕ
fixed_lit_lengths = replicate 144 8 ++ replicate 112 9 ++ replicate 24 7 ++ replicate 8 8

abbrev pub fixed_tables : Huffman × Huffman
fixed_tables = (construct fixed_lit_lengths, construct (replicate 30 5))
