-- ===== src/Fs/Persist.antt =====
-- kernel/src/fs/persist.rs: the file system's snapshot on a disk. A disk is its sectors of 512 bytes by
-- number, and the answers of the drive to reads; a read that fails leaves zeros. Writes reach the disk.
pub mod Sectors
pub mod Restores
pub mod Snapshot
mod Tests
use moon_os.Common.{
  ℕ, zero, suc, ◌+◌, ◌-◌, ◌/◌, ◌%◌, ◌^◌, max, Bool, true, false, Option, none, some, List, [], ◌∷◌,
  ◌++◌, leb, ◌==◌, if◌then◌else◌, ◌>>=◌, ◌>>◌, guard, length, take, drop, slice, replicate,
}
use moon_os.Common.Bytes.{Bytes, le_bytes, of_le, bytes_eq}
use moon_os.Common.Text.{is_utf8}
use moon_os.Packages.Zip.{crc32}
use moon_os.Fs.RamFs.{RamFs, read, write, list as list_files}

pub record Disk : Type 0 where
  pub sectors : ℕ → Bytes
  pub answers : ℕ → Bool

abbrev sector : ℕ
sector = 512

-- "MOONFS1\0".
abbrev pub magic : Bytes
magic = b'M' ∷ b'O' ∷ b'O' ∷ b'N' ∷ b'F' ∷ b'S' ∷ b'1' ∷ 0 ∷ []

pub write_sector : ℕ → Bytes → Disk → Disk
write_sector lba content disk = record disk {
  sectors = λ i. if i == lba then content else disk.sectors i;
}

pub read_sector : ℕ → Disk → Bytes
read_sector lba disk = if disk.answers lba then disk.sectors lba else replicate sector 0

pub pad_sector : Bytes → Bytes
pad_sector chunk = chunk ++ replicate (sector - length chunk) 0

-- The loop over the chunks. Each round takes a byte or more, so the length is fuel enough.
pub write_sectors : ℕ → ℕ → Bytes → Disk → Disk
unfolding write_sector pad_sector
write_sectors zero lba content disk = disk
write_sectors (suc fuel) lba [] disk = disk
write_sectors (suc fuel) lba (x ∷ xs) disk =
    write_sectors fuel (lba + 1) (drop sector (x ∷ xs))
      (write_sector lba (pad_sector (take sector (x ∷ xs))) disk)

pub read_sectors : ℕ → ℕ → Disk → Bytes
unfolding read_sector
read_sectors zero lba disk = []
read_sectors (suc n) lba disk = read_sector lba disk ++ read_sectors n (lba + 1) disk

-- A port of the controller: whether `PortKind::Sata` is attached to it, and the disk.
pub record Port : Type 0 where
  pub is_sata : Bool
  pub disk : Disk

-- The first port with a SATA disk.
find_sata : List Port → Option Disk
find_sata [] = none
find_sata (p ∷ ps) = if p.is_sata then some p.disk else find_sata ps

-- What becomes of `DISK`: without such a port it stays as it was.
pub init : List Port → Option Disk → Option Disk
unfolding find_sata
init ports disk = elim (find_sata ports) [ none ↦ disk | some d ↦ some d ]

available : Option Disk → Bool
available none = false
available (some d) = true

-- `root.read(path).unwrap_or(&[])`.
pub contents : RamFs → Bytes → Bytes
contents fs path = elim (read fs path) [ none ↦ [] | some content ↦ content ]

pub entry : Bytes → Bytes → Bytes
entry path content =
    (le_bytes 2 (length path % 65536) ++ path) ++ (le_bytes 4 (length content % 2 ^ 32) ++ content)

pub serialize : RamFs → List Bytes → Bytes
unfolding contents entry
serialize fs [] = []
serialize fs (path ∷ paths) = entry path (contents fs path) ++ serialize fs paths

pub superblock : Bytes → Bytes
superblock payload =
    (magic ++ (le_bytes 4 (length payload % 2 ^ 32) ++ le_bytes 4 (crc32 payload)))
    ++ replicate 496 0

pub save : RamFs → Option Disk → Option Disk
unfolding serialize superblock write_sectors write_sector
save fs none = none
save fs (some disk) =
    let payload = serialize fs (list_files fs) in
    some (write_sector 0 (superblock payload) (write_sectors (length payload) 1 payload disk))

-- `data.get(..n)` of what is left, and what follows.
pub split_at : ℕ → Bytes → Option (Bytes × Bytes)
split_at n rest = if leb n (length rest) then some (take n rest, drop n rest) else none

-- An entry at the front of what is left, and what follows it; `none` ends the loop.
pub take_entry : Bytes → Option (Bytes × Bytes × Bytes)
unfolding split_at
take_entry rest = do
  (path_len, r1) ← split_at 2 rest
  (path, r2) ← split_at (of_le path_len) r1
  guard (is_utf8 path)
  (content_len, r3) ← split_at 4 r2
  (content, r4) ← split_at (of_le content_len) r3
  some (path, content, r4)

-- The loop over the payload. Each round takes six bytes or more, so the length is fuel enough.
pub restore : ℕ → Bytes → RamFs → RamFs
unfolding take_entry
restore zero rest fs = fs
restore (suc fuel) rest fs = elim (take_entry rest) [
  | none ↦ fs
  | some (path, content, more) ↦ restore fuel more (write fs path content)
]

pub load_payload : Bytes → Disk → RamFs → RamFs × Bool
unfolding restore read_sectors
load_payload block disk fs =
    let len = of_le (slice 8 12 block) in
    let payload = take len (read_sectors (max ((len + 511) / sector) 1) 1 disk) in
    if crc32 payload == of_le (slice 12 16 block)
    then (restore (length payload) payload fs, true)
    else (fs, false)

pub load : Option Disk → RamFs → RamFs × Bool
load none fs = (fs, false)
load (some disk) fs =
    if disk.answers 0
    then if bytes_eq (take 8 (read_sector 0 disk)) magic
      then load_payload (read_sector 0 disk) disk fs
      else (fs, false)
    else (fs, false)
