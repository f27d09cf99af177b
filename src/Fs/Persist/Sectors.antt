-- ===== src/Fs/Persist/Sectors.antt =====
-- The sectors that persist.rs writes, read back.
use moon_os.Common.{
  ℕ, zero, suc, ◌+◌, ◌-◌, ◌*◌, ◌≤◌, ◌<◌, ◌≡◌, refl, ap, ◌∙◌, true, [], ◌∷◌, ◌++◌, append-nil,
  append_assoc, arith, dec_le, length, take, drop, replicate, take-append, take-append-drop,
  length-take, length-drop, take_all, drop_all, take_past,
}
use native.Mathlib.Nat.{le_refl}
use moon_os.Common.Bytes.{Bytes}
use moon_os.Fs.Persist.{pad_sector, read_sectors, write_sector, write_sectors, read_sector, Disk}

-- One sector: its chunk, and then what follows the chunk.
sector_front :
    (content rest : Bytes)
    → take (length content) (pad_sector (take 512 content) ++ rest)
      ≡ take 512 content ++ take (length (drop 512 content)) rest
unfolding pad_sector
sector_front content rest = elim (dec_le 512 (length content)) [
  | yes full ↦
      let exact : length (take 512 content) ≡ 512 = omega (arith, length-take 512 content) in
      let none_left : 512 - length (take 512 content) ≡ 0 = omega (arith, exact) in
      rw (none_left, append-nil (take 512 content))
        (take_past (take 512 content) rest (length content) (length (drop 512 content))
          (omega (arith, exact, length-drop 512 content)))
  | no short ↦
      let whole = take_all 512 content (omega arith) in
      rw (drop_all 512 content (omega arith), whole, append-nil content)
        (ap (λ (l : Bytes). take (length content) l)
            (append_assoc content (replicate (512 - length content) 0) rest)
          ∙ take-append content (replicate (512 - length content) 0 ++ rest))
]

write_sectors-below :
    (fuel lba i : ℕ) (content : Bytes) (disk : Disk)
    → i < lba
    → (write_sectors fuel lba content disk).sectors i ≡ disk.sectors i
unfolding write_sectors write_sector
write_sectors-below zero lba i content disk h = refl
write_sectors-below (suc fuel) lba i [] disk h = refl
write_sectors-below (suc fuel) lba i (x ∷ xs) disk h =
    write_sectors-below fuel (lba + 1) i (drop 512 (x ∷ xs))
      (write_sector lba (pad_sector (take 512 (x ∷ xs))) disk) (omega arith)
    ∙ ground arith

written_self :
    (lba : ℕ) (content : Bytes) (disk : Disk)
    → (write_sector lba content disk).sectors lba ≡ content
unfolding write_sector
written_self lba content disk = ground arith

-- Reading from the sector where the bytes start gives them back, from any disk that has the same
-- sectors from there on and that answers.
pub read_sectors-write_sectors :
    (fuel n lba : ℕ) (content : Bytes) (disk after : Disk)
    → length content ≤ fuel
    → length content ≤ n * 512
    → ((i : ℕ) → lba ≤ i → after.sectors i ≡ (write_sectors fuel lba content disk).sectors i)
    → ((i : ℕ) → after.answers i ≡ true)
    → take (length content) (read_sectors n lba after) ≡ content
unfolding read_sectors read_sector write_sectors
read_sectors-write_sectors fuel n lba [] disk after hf hn same answers = refl
read_sectors-write_sectors zero n lba (x ∷ xs) disk after hf hn same answers = absurd (omega arith)
read_sectors-write_sectors (suc fuel) zero lba (x ∷ xs) disk after hf hn same answers =
    absurd (omega arith)
read_sectors-write_sectors (suc fuel) (suc n) lba (x ∷ xs) disk after hf hn same answers =
    rw (answers lba, here)
      (sector_front (x ∷ xs) (read_sectors n (lba + 1) after)
        ∙ ap (λ (l : Bytes). take 512 (x ∷ xs) ++ l)
            (read_sectors-write_sectors fuel n (lba + 1) (drop 512 (x ∷ xs))
              (write_sector lba (pad_sector (take 512 (x ∷ xs))) disk) after
              (omega (arith, length-drop 512 (x ∷ xs))) (omega (arith, length-drop 512 (x ∷ xs)))
              (λ i h. same i (omega arith)) answers)
        ∙ take-append-drop 512 (x ∷ xs))
  where
    here : after.sectors lba ≡ pad_sector (take 512 (x ∷ xs))
    here =
        same lba (le_refl lba)
        ∙ write_sectors-below fuel (lba + 1) lba (drop 512 (x ∷ xs))
            (write_sector lba (pad_sector (take 512 (x ∷ xs))) disk) (omega arith)
        ∙ written_self lba (pad_sector (take 512 (x ∷ xs))) disk

pub write_sectors-answers :
    (fuel lba : ℕ) (content : Bytes) (disk : Disk) (i : ℕ)
    → (write_sectors fuel lba content disk).answers i ≡ disk.answers i
unfolding write_sectors write_sector
write_sectors-answers zero lba content disk i = refl
write_sectors-answers (suc fuel) lba [] disk i = refl
write_sectors-answers (suc fuel) lba (x ∷ xs) disk i =
    write_sectors-answers fuel (lba + 1) (drop 512 (x ∷ xs))
      (write_sector lba (pad_sector (take 512 (x ∷ xs))) disk) i
