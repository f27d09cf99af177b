-- ===== src/Fs/RamFs/Files.antt =====
-- The files of ramfs.rs under every operation: contents by path.
use moon_os.Common.{
  ◌≡◌, ◌≢◌, ◌↔◌, inl, inr, true, false, none, some, arith, if◌then◌else◌, Option-cases,
}
use moon_os.Common.Bytes.{Bytes, bytes_eq, bytes_eq_iff}
use moon_os.Common.Dict.{get, remove as remove_key, get-insert, get-remove}
use moon_os.Fs.RamFs.{RamFs, write, read, remove, rename, copy}

-- `write` sets the file at its path, and no other.
pub read-write :
    (fs : RamFs) (path q contents : Bytes)
    → read (write fs path contents) q ≡ (if bytes_eq path q then some contents else read fs q)
unfolding read write
read-write fs path q contents = get-insert q path contents fs.files

-- `remove` deletes the file at its path, and no other, and tells whether there was one.
read-remove :
    (fs : RamFs) (path q : Bytes)
    → (read (remove fs path).0 q ≡ (if bytes_eq path q then none else read fs q))
      × (((remove fs path).1 ≡ true) ↔ (read fs path ≢ none))
unfolding read remove
read-remove fs path q = (get-remove q path fs.files, ground arith)

-- `rename` succeeds exactly if the paths differ, the source exists and the target does not. Then the
-- target has the contents, the source is gone, and no other file changes; else nothing changes.
pub rename_lem :
    (fs : RamFs) (from to q : Bytes)
    → (((rename fs from to).1 ≡ true) ↔ ((from ≢ to) × (read fs to ≡ none) × (read fs from ≢ none)))
      × ((rename fs from to).1 ≡ false → (rename fs from to).0 ≡ fs)
      × ((rename fs from to).1 ≡ true
          → read (rename fs from to).0 q ≡ (
              if bytes_eq to q
              then read fs from
              else (if bytes_eq from q then none else read fs q)))
unfolding read rename
rename_lem fs from to q = elim (Option-cases (get from fs.files)) [
  | inl e ↦ ground (arith, bytes_eq_iff from to)
  | inr (v, e) ↦ ground (
    arith,
    bytes_eq_iff from to,
    get-insert q to v (remove_key from fs.files),
    get-remove q from fs.files,
  )
]

-- `copy` succeeds exactly if the source exists and the target does not. Then the target has the
-- contents and no other file changes; else nothing changes.
copy_lem :
    (fs : RamFs) (from to q : Bytes)
    → (((copy fs from to).1 ≡ true) ↔ ((read fs to ≡ none) × (read fs from ≢ none)))
      × ((copy fs from to).1 ≡ false → (copy fs from to).0 ≡ fs)
      × ((copy fs from to).1 ≡ true
          → read (copy fs from to).0 q ≡ (if bytes_eq to q then read fs from else read fs q))
unfolding read copy
copy_lem fs from to q = elim (Option-cases (get from fs.files)) [
  | inl e ↦ ground arith
  | inr (v, e) ↦ ground (arith, get-insert q to v fs.files)
]
