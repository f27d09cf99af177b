-- ===== src/Packages/Inflate/Tests.antt =====
-- inflate.rs at concrete inputs, with the first of the source's self tests.
use moon_os.Common.{◌+◌, ◌-◌, ◌≡◌, refl, some, [], ◌∷◌, arith, length}
use moon_os.Common.Bytes.{Bytes}
use moon_os.Packages.Inflate.{new, fixed_tables, at, construct, refill, bits, decode_from}
use moon_os.Packages.Inflate.Blocks.{
  inflate, inflate_block, inflate_from, back_reference, on_symbol,
}
use moon_os.Packages.Inflate.Copies.{back_reference_lem}
use moon_os.Packages.Inflate.Ends.{inflate_block-enough}
use moon_os.Packages.Inflate.Stored.{inflate-stored_stream}

hello_run :
    inflate (0xCB ∷ 0x48 ∷ 0xCD ∷ 0xC9 ∷ 0xC9 ∷ 0x07 ∷ 0x00 ∷ [])
    ≡ some (104 ∷ 101 ∷ 108 ∷ 108 ∷ 111 ∷ [])
unfolding inflate_from inflate_block on_symbol bits refill decode_from construct
hello_run = refl

inflate-stored_stream_example :
    inflate (0 ∷ 2 ∷ 0 ∷ 253 ∷ 255 ∷ 104 ∷ 105 ∷ 1 ∷ 1 ∷ 0 ∷ 254 ∷ 255 ∷ 33 ∷ [])
    ≡ some (104 ∷ 105 ∷ 33 ∷ [])
inflate-stored_stream_example =
    inflate-stored_stream ((104 ∷ 105 ∷ []) ∷ []) (33 ∷ []) [] (omega arith, (omega arith, tt))

back_reference_lem_example :
    (result : Bytes) × (back_reference 5 2 (97 ∷ 98 ∷ []) ≡ some result)
    × (length result ≡ 7)
    × (at result 1 ≡ 98)
    × (at result (2 + 3) ≡ at result (2 + 3 - 2))
back_reference_lem_example =
    back_reference_lem 5 2 (97 ∷ 98 ∷ []) 1 3 (omega arith) (omega arith) (omega arith)
      (omega arith)

inflate_block-enough_example :
    inflate_block 100 (new (0xCB ∷ 0x48 ∷ [])) fixed_tables.0 fixed_tables.1 []
    ≡ inflate_block 17 (new (0xCB ∷ 0x48 ∷ [])) fixed_tables.0 fixed_tables.1 []
inflate_block-enough_example =
    inflate_block-enough 100 (new (0xCB ∷ 0x48 ∷ [])) fixed_tables.0 fixed_tables.1 [] (omega arith)
