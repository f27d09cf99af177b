-- ===== src/Fs/Persist/Restores.antt =====
-- The entries that `save` of persist.rs writes, restored.
use moon_os.Common.{
  ℕ, zero, suc, ◌+◌, ◌%◌, ◌^◌, ◌≤◌, ◌<◌, ◌≡◌, refl, ap, ap₂, ◌∙◌, inl, inr, Bool, true, false, ◌||◌,
  Option, none, some, List, [], ◌∷◌, ◌++◌, map, append_assoc, arith, leb, if◌then◌else◌, Bool-cases,
  length, length-append, take-append, drop-append, All,
}
use moon_os.Fs.RamFs.Files.{read-write}
use moon_os.Common.Text.{is_utf8}
use moon_os.Common.Dict.{get, Dict}
use moon_os.Common.Bytes.{Bytes, bytes_eq, le_bytes, of_le, of_le-le_bytes, bytes_eq_iff}
use moon_os.Fs.Persist.{entry, restore, split_at, take_entry, serialize, contents}
use moon_os.Fs.RamFs.{RamFs, read, write, list as list_files}

split_at-append : (a b : Bytes) (n : ℕ) → n ≡ length a → split_at n (a ++ b) ≡ some (a, b)
unfolding split_at
split_at-append a b n e =
    rw (e, fits) (ap₂ (λ (x y : Bytes). some (x, y)) (take-append a b) (drop-append a b))
  where
    fits : leb (length a) (length (a ++ b)) ≡ true
    fits = ground (arith, length-append a b)

-- What a path and its contents have to be, for the lengths and the text to come back.
abbrev IsStorable : Bytes → Bytes → Type 0
IsStorable path content = (is_utf8 path ≡ true) × (length path < 65536) × (length content < 2 ^ 32)

entry_parts :
    (path content rest : Bytes)
    → entry path content ++ rest
      ≡ le_bytes 2 (length path % 65536)
        ++ (path ++ (le_bytes 4 (length content % 2 ^ 32) ++ (content ++ rest)))
unfolding entry
entry_parts path content rest = simp append_assoc (refl)

take_entry-entry :
    (path content rest : Bytes)
    → IsStorable path content
    → take_entry (entry path content ++ rest) ≡ some (path, content, rest)
unfolding take_entry
take_entry-entry path content rest (text, short, small) =
    rw
      (
        entry_parts path content rest,
        split_at-append (le_bytes 2 (length path % 65536))
            (path ++ (le_bytes 4 (length content % 2 ^ 32) ++ (content ++ rest))) 2 refl,
        split_at-append path (le_bytes 4 (length content % 2 ^ 32) ++ (content ++ rest))
            (of_le (le_bytes 2 (length path % 65536))) path_len,
        text,
        split_at-append (le_bytes 4 (length content % 2 ^ 32)) (content ++ rest) 4 refl,
        split_at-append content rest (of_le (le_bytes 4 (length content % 2 ^ 32))) content_len,
      )
      refl
  where
    path_len : of_le (le_bytes 2 (length path % 65536)) ≡ length path
    path_len = of_le-le_bytes 2 (length path % 65536) (omega arith) ∙ omega arith

    content_len : of_le (le_bytes 4 (length content % 2 ^ 32)) ≡ length content
    content_len = of_le-le_bytes 4 (length content % 2 ^ 32) (omega arith) ∙ omega arith

length-entry :
    (path content : Bytes) → length (entry path content) ≡ 6 + length path + length content
unfolding entry
length-entry path content = omega (
  arith,
  length-append (le_bytes 2 (length path % 65536) ++ path)
      (le_bytes 4 (length content % 2 ^ 32) ++ content),
  length-append (le_bytes 2 (length path % 65536)) path,
  length-append (le_bytes 4 (length content % 2 ^ 32)) content,
)

-- Whether a path is among some.
abbrev pub has_path : List Bytes → Bytes → Bool
has_path [] q = false
has_path (p ∷ ps) q = bytes_eq p q || has_path ps q

abbrev pub AllStorable : RamFs → List Bytes → Type 0
AllStorable fs = All (λ path. (is_utf8 path ≡ true) × (length path < 65536))

restored_read :
    (a b : Bool) (c d : Bytes) (old : Option Bytes)
    → (a ≡ true → c ≡ d)
    → (if b then some d else (if a then some c else old)) ≡ (if a || b then some d else old)
restored_read a b c d old h = ground arith

pub restore-serialize :
    (fuel : ℕ) (fs : RamFs) (paths : List Bytes) (fs0 : RamFs) (q : Bytes)
    → length (serialize fs paths) ≤ fuel
    → length (serialize fs paths) < 2 ^ 32
    → AllStorable fs paths
    → read (restore fuel (serialize fs paths) fs0) q
      ≡ (if has_path paths q then some (contents fs q) else read fs0 q)
unfolding restore serialize
restore-serialize zero fs [] fs0 q hf small storable = refl
restore-serialize (suc fuel) fs [] fs0 q hf small storable = refl
restore-serialize zero fs (p ∷ ps) fs0 q hf small storable = absurd (
    omega (
      arith,
      length-append (entry p (contents fs p)) (serialize fs ps),
      length-entry p (contents fs p),
    ))
restore-serialize (suc fuel) fs (p ∷ ps) fs0 q hf small ((text, short), rest) =
    let total = length-append (entry p (contents fs p)) (serialize fs ps) in
    let size = length-entry p (contents fs p) in
    rw
      (
        take_entry-entry p (contents fs p) (serialize fs ps)
            (text, short, omega (arith, total, size)),
        restore,
      )
      (restore-serialize fuel fs ps (write fs0 p (contents fs p)) q (omega (arith, total, size))
          (omega (arith, total, size)) rest
        ∙ ap (λ (o : Option Bytes). if has_path ps q then some (contents fs q) else o)
            (read-write fs0 p q (contents fs p))
        ∙ restored_read (bytes_eq p q) (has_path ps q) (contents fs p) (contents fs q) (read fs0 q)
            (λ e. ap (λ (path : Bytes). contents fs path) ((bytes_eq_iff p q).0 e)))

-- The paths that `list` gives are those that `read` finds.
pub listed :
    (m : Dict Bytes) (q : Bytes) (old : Option Bytes)
    → (if has_path (map (λ e. e.0) m) q
        then some (elim (get q m) [ none ↦ [] | some c ↦ c ])
        else old)
      ≡ elim (get q m) [ none ↦ old | some c ↦ some c ]
unfolding get
listed [] q old = refl
listed ((k, c) ∷ m) q old = elim (Bool-cases (bytes_eq k q)) [
  | inl e ↦ rw e refl
  | inr e ↦ rw e (listed m q old)
]

-- The payload of a snapshot.
unfoldable pub payload_of : RamFs → Bytes
payload_of fs = serialize fs (list_files fs)
