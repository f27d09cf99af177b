-- ===== src/Packages/Inflate/Blocks.antt =====
-- inflate.rs: the tables of a dynamic block, the symbols of a block, and the blocks of a stream. A
-- symbol and a block each take at least one bit, so that the bits that are left bound the loops.
use moon_os.Common.{
  ℕ, zero, suc, ◌+◌, ◌-◌, ◌*◌, sym, Bool, true, false, Option, none, some, List, [], ◌∷◌, ◌++◌, ltb,
  ◌==◌, if◌then◌else◌, ◌>>=◌, ◌>>◌, guard, length, set, take, drop, replicate,
}
use moon_os.Common.Bytes.{Bytes, of_le}
use moon_os.Packages.Inflate.{
  BitReader, new, bits, align_to_byte, read_bytes, Huffman, at, construct, decode, length_base,
  length_extra, dist_base, dist_extra, code_length_order, fixed_tables,
}

-- The lengths of the code length code, for the places that are left.
abbrev read_cl_lengths : List ℕ → BitReader → List ℕ → Option (List ℕ × BitReader)
read_cl_lengths [] r lengths = some (lengths, r)
read_cl_lengths (order ∷ orders) r lengths = do
  (len, r) ← bits r 3
  read_cl_lengths orders r (set lengths order len)

-- `for _ in 0..repeat`: the value at `repeat` places from `i` on, if they are in bounds.
abbrev fill : ℕ → ℕ → ℕ → List ℕ → Option (List ℕ)
fill zero value i lengths = some lengths
fill (suc repeat) value i lengths =
    let rest = fill repeat value (suc i) (set lengths i value) in
    if ltb i (length lengths) then rest else none

-- Where the loop is: the next place, the lengths and the reader.
abbrev Progress : Type 0
Progress = ℕ × List ℕ × BitReader

abbrev repeat_previous : ℕ → List ℕ → BitReader → Option Progress
repeat_previous i lengths r = do
  (extra, r) ← bits r 2
  lengths ← fill (extra + 3) (if i == 0 then 0 else at lengths (i - 1)) i lengths
  some (i + (extra + 3), lengths, r)

abbrev skip_zeros : ℕ → ℕ → ℕ → List ℕ → BitReader → Option Progress
skip_zeros need base i lengths r = do
  (extra, r) ← bits r need
  some (i + (extra + base), lengths, r)

abbrev on_length_symbol : ℕ → ℕ → List ℕ → BitReader → Option Progress
on_length_symbol sym i lengths r =
    if ltb sym 16
    then some (suc i, set lengths i sym, r)
    else (if sym == 16
        then repeat_previous i lengths r
        else (if sym == 17
            then skip_zeros 3 3 i lengths r
            else (if sym == 18 then skip_zeros 7 11 i lengths r else none)))

-- The loop over the lengths: each round moves on by at least one place.
unfoldable pub read_lengths : ℕ → Huffman → ℕ → List ℕ → BitReader → Option Progress
read_lengths zero h i lengths r = some (i, lengths, r)
read_lengths (suc fuel) h i lengths r =
    let rest = do
      (sym, r) ← decode r h
      (i, lengths, r) ← on_length_symbol sym i lengths r
      read_lengths fuel h i lengths r
    in if ltb i (length lengths) then rest else some (i, lengths, r)

abbrev finish_tables : ℕ → Progress → Option (Huffman × Huffman × BitReader)
finish_tables hlit (i, lengths, r) =
    if i == length lengths
    then some (construct (take hlit lengths), construct (drop hlit lengths), r)
    else none

unfoldable pub dynamic_tables : BitReader → Option (Huffman × Huffman × BitReader)
dynamic_tables r = do
  (hlit, r) ← bits r 5
  (hdist, r) ← bits r 5
  (hclen, r) ← bits r 4
  (cl_lengths, r) ← read_cl_lengths (take (hclen + 4) code_length_order) r (replicate 19 0)
  done ←
      read_lengths (hlit + 257 + (hdist + 1)) (construct cl_lengths) 0
        (replicate (hlit + 257 + (hdist + 1)) 0) r
  finish_tables (hlit + 257) done

-- The copy of `length` bytes from `start` on, one at a time, so that it can read what it wrote.
unfoldable pub copy_from : ℕ → ℕ → Bytes → Bytes
copy_from zero start out = out
copy_from (suc n) start out = copy_from n (suc start) (out ++ (at out start ∷ []))

abbrev pub back_reference : ℕ → ℕ → Bytes → Option Bytes
back_reference len distance out =
    if ltb (length out) distance then none else some (copy_from len (length out - distance) out)

abbrev pub in_dist_base : ℕ → Option (Unit {0})
in_dist_base sym = guard (ltb sym 30)

-- A length symbol with its distance.
unfoldable pub match_symbol : ℕ → BitReader → Huffman → Bytes → Option (Bytes × BitReader)
match_symbol sym r dist out = do
  (extra, r) ← bits r (at length_extra (sym - 257))
  (dist_sym, r) ← decode r dist
  in_dist_base dist_sym
  (more, r) ← bits r (at dist_extra dist_sym)
  out ← back_reference (at length_base (sym - 257) + extra) (at dist_base dist_sym + more) out
  some (out, r)

-- One symbol of a block, and whether it ends the block.
unfoldable pub on_symbol : ℕ → BitReader → Huffman → Bytes → Option (Bool × Bytes × BitReader)
on_symbol sym r dist out =
    if ltb sym 256
    then some (false, out ++ (sym ∷ []), r)
    else (if sym == 256
        then some (true, out, r)
        else (if ltb sym 286
            then match_symbol sym r dist out >>= (λ next. some (false, next.0, next.1))
            else none))

unfoldable pub inflate_block :
    ℕ → BitReader → Huffman → Huffman → Bytes → Option (Bytes × BitReader)
inflate_block zero r lit dist out = none
inflate_block (suc fuel) r lit dist out = do
  (sym, r) ← decode r lit
  (ended, out, r) ← on_symbol sym r dist out
  if ended then some (out, r) else inflate_block fuel r lit dist out

-- The bits that a reader still has.
abbrev pub bits_left : BitReader → ℕ
bits_left r = BitReader.bit_cnt r + 8 * length (BitReader.input r)

unfoldable pub stored_block : BitReader → Bytes → Option (Bytes × BitReader)
stored_block r out = do
  (header, r) ← read_bytes (align_to_byte r) 4
  guard (of_le (drop 2 header) == 65535 - of_le (take 2 header))
  (bytes, r) ← read_bytes r (of_le (take 2 header))
  some (out ++ bytes, r)

abbrev fixed_block : BitReader → Bytes → Option (Bytes × BitReader)
fixed_block r out = inflate_block (suc (bits_left r)) r fixed_tables.0 fixed_tables.1 out

abbrev dynamic_block : BitReader → Bytes → Option (Bytes × BitReader)
dynamic_block r out = do
  (lit, dist, r) ← dynamic_tables r
  inflate_block (suc (bits_left r)) r lit dist out

abbrev run_block : ℕ → BitReader → Bytes → Option (Bytes × BitReader)
run_block zero r out = stored_block r out
run_block (suc zero) r out = fixed_block r out
run_block (suc (suc zero)) r out = dynamic_block r out
run_block (suc (suc (suc n))) r out = none

unfoldable pub inflate_from : ℕ → BitReader → Bytes → Option Bytes
inflate_from zero r out = none
inflate_from (suc fuel) r out = do
  (is_final, r) ← bits r 1
  (block_type, r) ← bits r 2
  (out, r) ← run_block block_type r out
  elim (is_final == 1) [ true ↦ some out | false ↦ inflate_from fuel r out ]

abbrev pub inflate : Bytes → Option Bytes
inflate input = inflate_from (8 * length input) (new input) []
