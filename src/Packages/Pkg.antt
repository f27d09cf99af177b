-- ===== src/Packages/Pkg.antt =====
-- pkg.rs: the `.mapp` package format, and the packages that are installed.
pub mod Format
mod Tests
use moon_os.Common.{
  ℕ, ◌+◌, ◌%◌, ◌^◌, ◌||◌, not, [], ◌∷◌, ◌++◌, ltb, ◌==◌, if◌then◌else◌, length, slice,
}
use moon_os.Common.Bytes.{Bytes, bytes_eq, le_bytes, of_le}
use moon_os.Common.Text.{is_utf8, ends_with}

abbrev pub magic : Bytes
magic = 77 ∷ 79 ∷ 65 ∷ 80 ∷ []

abbrev pub header_len : ℕ
header_len = 14

pub record Package : Type 0 where
  pub name : Bytes
  pub version : Bytes
  pub elf : Bytes

pub data ParseError : Type 0 where
  bad_magic : ParseError
  unsupported_version : ParseError
  truncated : ParseError
  name_not_utf8 : ParseError
  version_not_utf8 : ParseError

pub data Parsed : Type 0 where
  failed : ParseError → Parsed
  parsed : Package → Parsed

-- The lengths are cast to u16 and u32.
abbrev pub build : Bytes → Bytes → Bytes → Bytes
build name version elf =
    magic
    ++ le_bytes 2 1
    ++ le_bytes 2 (length name % 2 ^ 16)
    ++ le_bytes 2 (length version % 2 ^ 16)
    ++ le_bytes 4 (length elf % 2 ^ 32)
    ++ name
    ++ version
    ++ elf

-- The parts of a package whose header says these lengths.
abbrev pub parse_body : Bytes → ℕ → ℕ → ℕ → Parsed
parse_body bytes name_len version_len elf_len =
    let version_start = header_len + name_len in
    let elf_start = version_start + version_len in
    let elf_end = elf_start + elf_len in
    if ltb (length bytes) elf_end
    then failed truncated
    else (if not (is_utf8 (slice header_len version_start bytes))
        then failed name_not_utf8
        else (if not (is_utf8 (slice version_start elf_start bytes))
            then failed version_not_utf8
            else parsed record {
              name = slice header_len version_start bytes;
              version = slice version_start elf_start bytes;
              elf = slice elf_start elf_end bytes;
            }))

unfoldable pub parse : Bytes → Parsed
parse bytes =
    if ltb (length bytes) header_len || not (bytes_eq (slice 0 4 bytes) magic)
    then failed bad_magic
    else (if not (of_le (slice 4 6 bytes) == 1)
        then failed unsupported_version
        else parse_body bytes (of_le (slice 6 8 bytes)) (of_le (slice 8 10 bytes))
            (of_le (slice 10 14 bytes)))
