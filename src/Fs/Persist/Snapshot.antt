-- ===== src/Fs/Persist/Snapshot.antt =====
-- `load` of persist.rs after `save`.
use moon_os.Common.{
  ℕ, ◌+◌, ◌*◌, ◌/◌, ◌%◌, ◌^◌, ◌≤◌, ◌<◌, max, ◌≡◌, refl, sym, ap, ◌∙◌, Bool, true, Option, none,
  some, ◌++◌, append_assoc, arith, if◌then◌else◌, ==_iff, ==-ne, length, take, slice, replicate,
  take-append, slice-append,
}
use native.Mathlib.Nat.{le_refl}
use moon_os.Fs.Persist.Sectors.{read_sectors-write_sectors, write_sectors-answers}
use moon_os.Packages.Zip.{crc32, crc32-lt}
use moon_os.Fs.Persist.Restores.{AllStorable, payload_of, has_path, listed, restore-serialize}
use moon_os.Common.Bytes.{Bytes, of_le, le_bytes, of_le-le_bytes, bytes_eq_refl}
use moon_os.Fs.Persist.{
  Disk, superblock, load_payload, magic, read_sectors, write_sector, load, read_sector, restore,
  write_sectors, save, contents,
}
use moon_os.Fs.RamFs.{RamFs, read, list as list_files}

superblock_parts :
    (payload : Bytes)
    → superblock payload
      ≡ magic
        ++ (le_bytes 4 (length payload % 2 ^ 32) ++ (le_bytes 4 (crc32 payload) ++ replicate 496 0))
unfolding superblock
superblock_parts payload = simp append_assoc (refl)

superblock_len :
    (payload : Bytes)
    → length payload < 2 ^ 32
    → of_le (slice 8 12 (superblock payload)) ≡ length payload
superblock_len payload small =
    ap of_le (
      ap (λ (l : Bytes). slice 8 12 l) (superblock_parts payload)
      ∙ slice-append magic (le_bytes 4 (length payload % 2 ^ 32))
          (le_bytes 4 (crc32 payload) ++ replicate 496 0) 8 12 refl refl)
    ∙ of_le-le_bytes 4 (length payload % 2 ^ 32) (omega arith)
    ∙ omega arith

superblock_crc : (payload : Bytes) → of_le (slice 12 16 (superblock payload)) ≡ crc32 payload
superblock_crc payload =
    ap of_le (
      ap (λ (l : Bytes). slice 12 16 l)
        (superblock_parts payload
          ∙ sym (
              append_assoc magic (le_bytes 4 (length payload % 2 ^ 32))
                (le_bytes 4 (crc32 payload) ++ replicate 496 0)))
      ∙ slice-append (magic ++ le_bytes 4 (length payload % 2 ^ 32)) (le_bytes 4 (crc32 payload))
          (replicate 496 0) 12 16 refl refl)
    ∙ of_le-le_bytes 4 (crc32 payload) (crc32-lt payload)

superblock-magic : (payload : Bytes) → take 8 (superblock payload) ≡ magic
superblock-magic payload =
    ap (λ (l : Bytes). take 8 l) (superblock_parts payload)
    ∙ take-append magic
        (le_bytes 4 (length payload % 2 ^ 32) ++ (le_bytes 4 (crc32 payload) ++ replicate 496 0))

listed_files :
    (fs : RamFs) (q : Bytes) (old : Option Bytes)
    → (if has_path (list_files fs) q then some (contents fs q) else old)
      ≡ elim (read fs q) [ none ↦ old | some content ↦ some content ]
unfolding list_files contents read
listed_files fs q old = listed fs.files q old

module _ (fs : RamFs) (disk : Disk) (answers : (i : ℕ) → disk.answers i ≡ true) where
  payload : Bytes
  payload = payload_of fs

  saved : Disk
  saved = write_sector 0 (superblock payload) (write_sectors (length payload) 1 payload disk)

  saved_answers : (i : ℕ) → saved.answers i ≡ true
  unfolding saved write_sector
  saved_answers i = write_sectors-answers (length payload) 1 payload disk i ∙ answers i

  saved_block : read_sector 0 saved ≡ superblock payload
  unfolding saved write_sector read_sector
  saved_block = rw (write_sectors-answers (length payload) 1 payload disk 0 ∙ answers 0) refl

  beyond :
      (i : ℕ) → 1 ≤ i → saved.sectors i ≡ (write_sectors (length payload) 1 payload disk).sectors i
  unfolding saved write_sector
  beyond i h = rw (==-ne i 0 (λ (e : i ≡ 0). absurd (omega arith))) refl

  saved_payload :
      (n : ℕ) → length payload ≤ n * 512 → take (length payload) (read_sectors n 1 saved) ≡ payload
  saved_payload n enough =
      read_sectors-write_sectors (length payload) n 1 payload disk saved (le_refl (length payload))
        enough (λ i h. beyond i h) saved_answers

  loaded_payload :
      (fs0 : RamFs)
      → length payload < 2 ^ 32
      → load_payload (superblock payload) saved fs0 ≡ (restore (length payload) payload fs0, true)
  unfolding load_payload
  loaded_payload fs0 small =
      rw
        (
          superblock_len payload small,
          superblock_crc payload,
          saved_payload (max ((length payload + 511) / 512) 1) (omega arith),
          (==_iff (crc32 payload) (crc32 payload)).1 refl,
        )
        refl

  save-saved : save fs (some disk) ≡ some saved
  unfolding save saved payload payload_of
  save-saved = refl

  loaded :
      (fs0 : RamFs)
      → length payload < 2 ^ 32
      → load (save fs (some disk)) fs0 ≡ (restore (length payload) payload fs0, true)
  unfolding load
  loaded fs0 small =
      rw (save-saved, saved_answers 0, saved_block, superblock-magic payload, bytes_eq_refl magic)
        (loaded_payload fs0 small)

  restored_files :
      (fs0 : RamFs) (q : Bytes)
      → AllStorable fs (list_files fs)
      → length (payload_of fs) < 2 ^ 32
      → read (restore (length payload) payload fs0) q
        ≡ elim (read fs q) [ none ↦ read fs0 q | some content ↦ some content ]
  unfolding payload payload_of
  restored_files fs0 q storable small =
      restore-serialize (length payload) fs (list_files fs) fs0 q (le_refl (length payload)) small
        storable
      ∙ listed_files fs q (read fs0 q)

  -- If the drive answers every read, every path is UTF-8 and shorter than 65536 bytes, and the
  -- snapshot is shorter than 2^32 bytes, then loading what `save` wrote succeeds, and every file of
  -- the saved file system is back; a path that it does not have reads as before.
  pub load-save :
      (fs0 : RamFs) (q : Bytes)
      → AllStorable fs (list_files fs)
      → length (payload_of fs) < 2 ^ 32
      → ((load (save fs (some disk)) fs0).1 ≡ true)
        × (read (load (save fs (some disk)) fs0).0 q
            ≡ elim (read fs q) [ none ↦ read fs0 q | some content ↦ some content ])
  unfolding payload payload_of
  load-save fs0 q storable small = (
    ap (λ (r : RamFs × Bool). r.1) (loaded fs0 small),
    ap (λ (r : RamFs × Bool). read r.0 q) (loaded fs0 small) ∙ restored_files fs0 q storable small,
  )
