-- ===== src/Packages/Zip.antt =====
-- kernel/src/zip.rs: the CRC and the writer of ZIP archives, entries stored.
use moon_os.Common.{
  ℕ, zero, suc, ◌-◌, ◌/◌, ◌%◌, ◌^◌, ◌<◌, bit_and, bit_xor, List, [], ◌∷◌, ◌++◌, arith, ◌==◌,
  if◌then◌else◌, length, replicate,
}
use moon_os.Common.Bytes.{Bytes, le_bytes}

-- The eight rounds of a byte, with the rounds that are left.
crc_bits : ℕ → ℕ → ℕ
crc_bits zero crc = crc
crc_bits (suc n) crc = crc_bits n (bit_xor (crc / 2) (if bit_and crc 1 == 0 then 0 else 0xEDB88320))

crc_from : ℕ → Bytes → ℕ
unfolding crc_bits
crc_from crc [] = crc
crc_from crc (b ∷ bs) = crc_from (crc_bits 8 (bit_xor crc b)) bs

unfoldable pub crc32 : Bytes → ℕ
unfolding crc_from
crc32 content = 2 ^ 32 - 1 - crc_from 0xFFFFFFFF content

pub crc32-lt : (content : Bytes) → crc32 content < 256 ^ 4
unfolding crc32
crc32-lt content = omega arith

-- What the local header and the central record of an entry share, from the CRC to the extra length.
sizes : Bytes → Bytes → Bytes
unfolding crc32
sizes name content =
    (le_bytes 4 (crc32 content)
      ++ (le_bytes 4 (length content % 2 ^ 32) ++ le_bytes 4 (length content % 2 ^ 32)))
    ++ (le_bytes 2 (length name % 65536) ++ le_bytes 2 0)

local_entry : Bytes → Bytes → Bytes
unfolding sizes
local_entry name content =
    (le_bytes 4 0x04034B50 ++ (le_bytes 2 20 ++ replicate 8 0))
    ++ (sizes name content ++ (name ++ content))

central_record : Bytes → Bytes → ℕ → Bytes
unfolding sizes
central_record name content local_offset =
    (le_bytes 4 0x02014B50 ++ (le_bytes 2 20 ++ (le_bytes 2 20 ++ replicate 8 0)))
    ++ (sizes name content ++ (replicate 10 0 ++ (le_bytes 4 local_offset ++ name)))

-- The loop over the entries: `out` and `central`.
add_entries : List (Bytes × Bytes) → Bytes → Bytes → Bytes × Bytes
unfolding local_entry central_record
add_entries [] out central = (out, central)
add_entries ((name, content) ∷ rest) out central =
    add_entries rest (out ++ local_entry name content)
      (central ++ central_record name content (length out % 2 ^ 32))

build_stored : List (Bytes × Bytes) → Bytes
unfolding add_entries
build_stored entries =
    let (out, central) = add_entries entries [] [] in
    (out ++ central)
    ++ ((le_bytes 4 0x06054B50
          ++ (replicate 4 0
              ++ (le_bytes 2 (length entries % 65536) ++ le_bytes 2 (length entries % 65536))))
        ++ (le_bytes 4 (length central % 2 ^ 32)
            ++ (le_bytes 4 (length out % 2 ^ 32) ++ le_bytes 2 0)))
