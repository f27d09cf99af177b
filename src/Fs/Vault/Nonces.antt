-- ===== src/Fs/Vault/Nonces.antt =====
-- The nonces of vault.rs: a new file's counter is above those of the files that are there.
use moon_os.Common.{
  ℕ, ◌+◌, ◌^◌, ◌≤◌, ◌<◌, max, ◌≡◌, refl, ◌∙◌, inl, inr, true, Option, none, some, List, [], ◌∷◌,
  map, arith, leb, if◌then◌else◌, Bool-cases, Option-cases, le→leb, length,
}
use native.Mathlib.Nat.{le_refl}
use moon_os.Fs.Persist.Restores.{has_path}
use moon_os.Crypto.Words.{be64}
use moon_os.Fs.Vault.Sealed.{next_counter, stored, write_unlocked, read-stored}
use moon_os.Common.Bytes.{Bytes, bytes_eq, bytes_eq_iff, bytes_eq_refl}
use moon_os.Common.Dict.{get, Dict}
use moon_os.Fs.Vault.{
  highest_from, highest_nonce_counter, max_counter, of_be, stored_counter, blob_of, is_vault_path,
  nonce_of, Vault, write_file, ok, vault_path,
}
use moon_os.Fs.RamFs.{RamFs, read, list as list_files}

of_be-be64 : (c : ℕ) → c < 2 ^ 64 → of_be 0 (be64 c) ≡ c
unfolding of_be
of_be-be64 c h = omega arith

stored_counter-blob_of :
    (key : Bytes) (c : ℕ) (name plaintext : Bytes)
    → c < 2 ^ 64
    → stored_counter (blob_of key c name plaintext) ≡ c
unfolding stored_counter blob_of nonce_of
stored_counter-blob_of key c name plaintext h = of_be-be64 c h

-- At least this much.
AtLeast : ℕ → Option ℕ → Type 0
AtLeast n o = (m : ℕ) × (o ≡ some m) × (n ≤ m)

max_counter-AtLeast :
    (n : ℕ) (highest : Option ℕ) (blob : Bytes)
    → AtLeast n highest
    → AtLeast n (max_counter highest blob)
unfolding AtLeast max_counter
max_counter-AtLeast n highest blob (m, e, le) = elim (Bool-cases (leb 12 (length blob))) [
  | inl long ↦ (max m (stored_counter blob), rw (long, e) refl, omega arith)
  | inr short ↦ (m, rw (short, e) refl, le)
]

max_counter-own :
    (highest : Option ℕ) (blob : Bytes)
    → 12 ≤ length blob
    → AtLeast (stored_counter blob) (max_counter highest blob)
unfolding AtLeast max_counter
max_counter-own none blob h =
    (stored_counter blob, rw (le→leb 12 (length blob) h) refl, le_refl (stored_counter blob))
max_counter-own (some m) blob h =
    (max m (stored_counter blob), rw (le→leb 12 (length blob) h) refl, omega arith)

-- What one more path makes of the maximum.
with_path : RamFs → Bytes → Option ℕ → Option ℕ
with_path fs path highest =
    if is_vault_path path
    then elim (read fs path) [ none ↦ highest | some blob ↦ max_counter highest blob ]
    else highest

with_path-AtLeast :
    (fs : RamFs) (path : Bytes) (n : ℕ) (highest : Option ℕ)
    → AtLeast n highest
    → AtLeast n (with_path fs path highest)
unfolding with_path
with_path-AtLeast fs path n highest h = elim (Bool-cases (is_vault_path path)) [
  | inr other ↦ rw other h
  | inl here ↦ elim (Option-cases (read fs path)) [
    | inl missing ↦ rw (here, missing) h
    | inr (blob, found) ↦ rw (here, found) (max_counter-AtLeast n highest blob h)
  ]
]

highest_from-AtLeast :
    (fs : RamFs) (paths : List Bytes) (n : ℕ) (highest : Option ℕ)
    → AtLeast n highest
    → AtLeast n (highest_from fs paths highest)
unfolding highest_from with_path
highest_from-AtLeast fs [] n highest h = h
highest_from-AtLeast fs (p ∷ ps) n highest h =
    highest_from-AtLeast fs ps n (with_path fs p highest) (with_path-AtLeast fs p n highest h)

highest_from-own :
    (fs : RamFs) (paths : List Bytes) (path blob : Bytes) (highest : Option ℕ)
    → has_path paths path ≡ true
    → is_vault_path path ≡ true
    → read fs path ≡ some blob
    → 12 ≤ length blob
    → AtLeast (stored_counter blob) (highest_from fs paths highest)
unfolding highest_from with_path
highest_from-own fs [] path blob highest among here found long = cc
highest_from-own fs (p ∷ ps) path blob highest among here found long =
    elim (Bool-cases (bytes_eq p path)) [
      | inl same ↦
          highest_from-AtLeast fs ps (stored_counter blob) (with_path fs p highest)
            (rw ((bytes_eq_iff p path).0 same, here, found) (max_counter-own highest blob long))
      | inr other ↦
          highest_from-own fs ps path blob (with_path fs p highest) (rw other at among) here found
            long
    ]

-- The path of a file that `read` finds is among those of `list`.
path_listed :
    (m : Dict Bytes) (q blob : Bytes) → get q m ≡ some blob → has_path (map (λ e. e.0) m) q ≡ true
unfolding get
path_listed [] q blob h = cc
path_listed ((k, c) ∷ m) q blob h = elim (Bool-cases (bytes_eq k q)) [
  | inl e ↦ rw e refl
  | inr e ↦ rw e (path_listed m q blob (rw e at h))
]

file_listed :
    (fs : RamFs) (path blob : Bytes)
    → read fs path ≡ some blob
    → has_path (list_files fs) path ≡ true
unfolding list_files read
file_listed fs path blob found = path_listed fs.files path blob found

highest-own :
    (fs : RamFs) (path blob : Bytes)
    → is_vault_path path ≡ true
    → read fs path ≡ some blob
    → 12 ≤ length blob
    → stored_counter blob ≤ highest_nonce_counter fs
unfolding highest_nonce_counter AtLeast
highest-own fs path blob here found long =
    let (m, e, le) =
      highest_from-own fs (list_files fs) path blob none (file_listed fs path blob found) here found
        long in
    rw (e, highest_nonce_counter) le

-- If no counter in the vault is the largest u64, then the blob that `write_file` stores in an unlocked
-- vault has a counter above that of every file of the vault, the one that it replaces included.
pub write_file-fresh :
    (v : Vault) (key name plaintext path blob : Bytes)
    → v.session_key ≡ some key
    → highest_nonce_counter v.fs + 1 < 2 ^ 64
    → is_vault_path path ≡ true
    → read v.fs path ≡ some blob
    → 12 ≤ length blob
    → (v' : Vault) × (new_blob : Bytes) × (write_file name plaintext v ≡ ok v')
      × (read v'.fs (vault_path name) ≡ some new_blob)
      × (stored_counter blob < stored_counter new_blob)
unfolding next_counter
write_file-fresh v key name plaintext path blob unlocked room here found long =
    let new_blob = blob_of key (next_counter v.fs) name plaintext in
    (
      record v { fs = stored v.fs name new_blob },
      new_blob,
      write_unlocked v key name plaintext unlocked,
      read-stored v.fs name new_blob (vault_path name) ∙ rw (bytes_eq_refl (vault_path name)) refl,
      omega (
        arith,
        stored_counter-blob_of key (next_counter v.fs) name plaintext (omega arith),
        highest-own v.fs path blob here found long,
      ),
    )
