-- ===== src/Fs/RamFs.antt =====
-- kernel/src/fs/ramfs.rs. A path is the bytes of its text; the two B-tree collections are
-- association lists in key order (`Common.Dict`).
pub mod Files
pub mod Parents
pub mod Ancestors
mod Tests
use moon_os.Common.{
  ℕ, zero, suc, ◌+◌, Bool, true, false, ◌||◌, not, Option, none, some, List, [], ◌∷◌, ◌++◌, map,
  ◌==◌, if◌then◌else◌, length, take,
}
use moon_os.Common.Bytes.{Bytes, bytes_eq, bytes_lt}
use moon_os.Common.Dict.{Dict, get, insert, remove as remove_key}

pub record RamFs : Type 0 where
  pub files : Dict Bytes
  pub dirs : Dict (Unit {0})

abbrev pub slash : ℕ
slash = b'/'

unfoldable pub new : RamFs
new = record { files = []; dirs = [] }

pub contains {ℓ} : {V : Type ℓ} → Bytes → Dict V → Bool
contains k m = elim (get k m) [ none ↦ false | some v ↦ true ]

-- `str::rfind`.
pub rfind : ℕ → Bytes → Option ℕ
rfind c [] = none
rfind c (x ∷ xs) = elim (rfind c xs) [
  | some i ↦ some (i + 1)
  | none ↦ if x == c then some 0 else none
]

-- The path whose directory `ensure_parents` adds for `path`, if there is one below the root.
pub parent : Bytes → Option Bytes
unfolding rfind
parent path = elim (rfind slash path) [
  | none ↦ none
  | some idx ↦ if idx == 0 then none else some (take idx path)
]

-- `BTreeSet::insert` is true if the path is new; only then does the recursion go on. Each call is on
-- a shorter path, so the length of the path is fuel enough.
pub ensure_from : ℕ → Bytes → Dict (Unit {0}) → Dict (Unit {0})
ensure_from zero path dirs = dirs
ensure_from (suc n) path dirs = elim (parent path) [
  | none ↦ dirs
  | some p ↦ if contains p dirs then dirs else ensure_from n p (insert p tt dirs)
]

pub ensure_parents : RamFs → Bytes → RamFs
unfolding ensure_from parent contains
ensure_parents fs path = record fs { dirs = ensure_from (length path) path fs.dirs }

pub put : RamFs → Bytes → Bytes → RamFs
put fs path contents = record fs { files = insert path contents fs.files }

pub write : RamFs → Bytes → Bytes → RamFs
unfolding ensure_parents put
write fs path contents = put (ensure_parents fs path) path contents

unfoldable pub read : RamFs → Bytes → Option Bytes
read fs path = get path fs.files

pub remove : RamFs → Bytes → RamFs × Bool
unfolding contains
remove fs path = (record fs { files = remove_key path fs.files }, contains path fs.files)

pub rename : RamFs → Bytes → Bytes → RamFs × Bool
unfolding ensure_parents contains put
rename fs from to =
    if bytes_eq from to || contains to fs.files then (fs, false) else elim (get from fs.files) [
      | none ↦ (fs, false)
      | some contents ↦ (
        put (ensure_parents (record fs { files = remove_key from fs.files }) to) to contents,
        true,
      )
    ]

pub copy : RamFs → Bytes → Bytes → RamFs × Bool
unfolding ensure_parents contains put
copy fs from to = if contains to fs.files then (fs, false) else elim (get from fs.files) [
  | none ↦ (fs, false)
  | some contents ↦ (put (ensure_parents fs to) to contents, true)
]

unfoldable pub list : RamFs → List Bytes
list fs = map (λ e. e.0) fs.files

total_length : Dict Bytes → ℕ
total_length [] = 0
total_length ((k, v) ∷ m) = length v + total_length m

used_bytes : RamFs → ℕ
unfolding total_length
used_bytes fs = total_length fs.files

unfoldable pub mkdir : RamFs → Bytes → RamFs
unfolding ensure_parents
mkdir fs path = let fs' = ensure_parents fs path in record fs' { dirs = insert path tt fs'.dirs }

pub rmdir : RamFs → Bytes → RamFs × Bool
unfolding contains
rmdir fs path = (record fs { dirs = remove_key path fs.dirs }, contains path fs.dirs)

-- `str::starts_with` and `str::strip_prefix`.
strip_prefix : Bytes → Bytes → Option Bytes
strip_prefix [] s = some s
strip_prefix (p ∷ ps) [] = none
strip_prefix (p ∷ ps) (x ∷ xs) = if p == x then strip_prefix ps xs else none

unfoldable pub starts_with : Bytes → Bytes → Bool
unfolding strip_prefix
starts_with p s = elim (strip_prefix p s) [ none ↦ false | some rest ↦ true ]

any_below : Bytes → Dict Bytes → Bool
any_below prefix [] = false
any_below prefix ((k, v) ∷ m) = starts_with prefix k || any_below prefix m

pub is_dir : RamFs → Bytes → Bool
unfolding contains any_below starts_with
is_dir fs path =
    if bytes_eq path (slash ∷ [])
    then true
    else contains path fs.dirs || any_below (path ++ (slash ∷ [])) fs.files

exists : RamFs → Bytes → Bool
unfolding contains is_dir
exists fs path = bytes_eq path (slash ∷ []) || (contains path fs.files || is_dir fs path)

file_size : RamFs → Bytes → Option ℕ
file_size fs path = elim (get path fs.files) [ none ↦ none | some v ↦ some (length v) ]

-- `rest.split('/').next()`: the bytes before the first slash.
first_name : Bytes → Bytes
first_name [] = []
first_name (x ∷ xs) = if x == slash then [] else x ∷ first_name xs

contains_slash : Bytes → Bool
contains_slash [] = false
contains_slash (x ∷ xs) = x == slash || contains_slash xs

-- A set insertion and the push that it guards: `seen` is kept as the entries of `out`.
add_entry : Bytes → Bool → Dict Bool → Dict Bool
unfolding contains
add_entry full dir out = if contains full out then out else insert full dir out

pub list_files : Bytes → Dict Bytes → Dict Bool → Dict Bool
unfolding strip_prefix first_name add_entry
list_files prefix [] out = out
list_files prefix ((k, v) ∷ m) out = list_files prefix m (elim (strip_prefix prefix k) [
  | none ↦ out
  | some [] ↦ out
  | some (x ∷ rest) ↦
      let name = first_name (x ∷ rest) in
      add_entry (prefix ++ name) (not (length name == length (x ∷ rest))) out
])

list_dirs : Bytes → Dict (Unit {0}) → Dict Bool → Dict Bool
unfolding strip_prefix contains_slash add_entry
list_dirs prefix [] out = out
list_dirs prefix ((k, v) ∷ m) out = list_dirs prefix m (elim (strip_prefix prefix k) [
  | none ↦ out
  | some [] ↦ out
  | some (x ∷ rest) ↦
      if contains_slash (x ∷ rest) then out else add_entry (prefix ++ (x ∷ rest)) true out
])

-- The result is in the order of the paths, which is the order of the sort: paths occur once.
pub list_dir : RamFs → Bytes → List (Bytes × Bool)
unfolding list_files list_dirs
list_dir fs dir =
    let prefix = if bytes_eq dir (slash ∷ []) then slash ∷ [] else dir ++ (slash ∷ []) in
    list_dirs prefix fs.dirs (list_files prefix fs.files [])
