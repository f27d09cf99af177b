-- ===== src/Fs/Vault.antt =====
-- kernel/src/vault.rs: the session's key and encrypted files in the RAM file system. Names and
-- passwords are the bytes of their texts.
pub mod Sealed
pub mod Nonces
mod Tests
use moon_os.Common.{
  ℕ, ◌+◌, ◌-◌, ◌*◌, ◌%◌, ◌^◌, max, Bool, true, false, ◌&&◌, Option, none, some, List, [], ◌∷◌, ◌++◌,
  ltb, leb, if◌then◌else◌, length, take, drop, slice, replicate,
}
use moon_os.Common.Bytes.{Bytes}
use moon_os.Common.Text.{ends_with}
use moon_os.Crypto.Words.{be64}
use moon_os.Crypto.Hkdf.{extract, expand}
use moon_os.Crypto.Aead.{seal, open_sealed}
use moon_os.Fs.RamFs.{RamFs, read, write, mkdir, list as list_files, rfind, starts_with}

pub record Vault : Type 0 where
  pub session_key : Option Bytes
  pub fs : RamFs

pub data VaultError : Type 0 where
  locked : VaultError
  no_such_file : VaultError
  truncated : VaultError
  wrong_password : VaultError

pub data VaultResult (A : Type 0) : Type 0 where
  ok : A → VaultResult A
  err : VaultError → VaultResult A

-- "/Vault".
abbrev pub vault_dir : Bytes
vault_dir = b'/' ∷ b'V' ∷ b'a' ∷ b'u' ∷ b'l' ∷ b't' ∷ []

-- ".enc".
abbrev pub dot_enc : Bytes
dot_enc = b'.' ∷ b'e' ∷ b'n' ∷ b'c' ∷ []

-- "moon-vault-v1".
abbrev vault_info : Bytes
vault_info =
    b'm' ∷ b'o' ∷ b'o' ∷ b'n' ∷ b'-' ∷ b'v' ∷ b'a' ∷ b'u' ∷ b'l' ∷ b't' ∷ b'-' ∷ b'v' ∷ b'1' ∷ []

unlock : Bytes → Bytes → Vault → Vault
unlock username password v = record v {
  session_key = some (expand (extract username password) vault_info 32);
}

lock : Vault → Vault
lock v = record v { session_key = none }

is_unlocked : Vault → Bool
is_unlocked v = elim v.session_key [ none ↦ false | some key ↦ true ]

pub vault_path : Bytes → Bytes
vault_path name = vault_dir ++ ((b'/' ∷ name) ++ dot_enc)

pub is_vault_path : Bytes → Bool
is_vault_path path = starts_with vault_dir path && ends_with path dot_enc

-- `u64::from_be_bytes(data[4..12])`.
pub of_be : ℕ → Bytes → ℕ
of_be acc [] = acc
of_be acc (b ∷ bs) = of_be (acc * 256 + b) bs

pub stored_counter : Bytes → ℕ
unfolding of_be
stored_counter blob = of_be 0 (slice 4 12 blob)

-- `max` after one more file.
pub max_counter : Option ℕ → Bytes → Option ℕ
unfolding stored_counter
max_counter highest blob =
    if leb 12 (length blob)
    then elim highest [
      | none ↦ some (stored_counter blob)
      | some m ↦ some (max m (stored_counter blob))
    ]
    else highest

pub highest_from : RamFs → List Bytes → Option ℕ → Option ℕ
unfolding max_counter is_vault_path
highest_from fs [] highest = highest
highest_from fs (path ∷ paths) highest = highest_from fs paths (
    if is_vault_path path
    then elim (read fs path) [ none ↦ highest | some blob ↦ max_counter highest blob ]
    else highest)

unfoldable pub highest_nonce_counter : RamFs → ℕ
unfolding highest_from
highest_nonce_counter fs = elim (highest_from fs (list_files fs) none) [ none ↦ 0 | some m ↦ m ]

pub nonce_of : ℕ → Bytes
nonce_of counter = replicate 4 0 ++ be64 counter

-- The bytes of a file in the vault: nonce, tag and ciphertext.
pub blob_of : Bytes → ℕ → Bytes → Bytes → Bytes
unfolding nonce_of
blob_of key counter name plaintext =
    let sealed = seal key (nonce_of counter) name plaintext in
    nonce_of counter ++ (sealed.1 ++ sealed.0)

-- `write_file` under the session's key.
pub write_with : Option Bytes → Bytes → Bytes → Vault → VaultResult Vault
unfolding highest_nonce_counter blob_of vault_path
write_with none name plaintext v = err locked
write_with (some key) name plaintext v =
    let counter = (highest_nonce_counter v.fs + 1) % 2 ^ 64 in
    ok (record v {
      fs = write (mkdir v.fs vault_dir) (vault_path name) (blob_of key counter name plaintext);
    })

pub write_file : Bytes → Bytes → Vault → VaultResult Vault
unfolding write_with
write_file name plaintext v = write_with v.session_key name plaintext v

-- The bytes of a file in the vault, opened.
pub open_blob : Bytes → Bytes → Bytes → VaultResult Bytes
open_blob key name blob =
    if ltb (length blob) 28
    then err truncated
    else elim (open_sealed key (take 12 blob) name (drop 28 blob) (slice 12 28 blob)) [
      | none ↦ err wrong_password
      | some plaintext ↦ ok plaintext
    ]

-- The blob at a path, opened.
pub open_stored : Option Bytes → Bytes → Bytes → VaultResult Bytes
unfolding open_blob
open_stored none key name = err no_such_file
open_stored (some blob) key name = open_blob key name blob

pub read_with : Option Bytes → Bytes → Vault → VaultResult Bytes
unfolding vault_path open_stored
read_with none name v = err locked
read_with (some key) name v = open_stored (read v.fs (vault_path name)) key name

pub read_file : Bytes → Vault → VaultResult Bytes
unfolding read_with
read_file name v = read_with v.session_key name v

-- `rsplit('/').next()`.
base_name : Bytes → Bytes
base_name path = elim (rfind b'/' path) [ none ↦ path | some i ↦ drop (i + 1) path ]

-- `strip_suffix(".enc").unwrap_or(base)`.
strip_enc : Bytes → Bytes
strip_enc base = if ends_with base dot_enc then take (length base - 4) base else base

names_of : List Bytes → List Bytes
unfolding base_name strip_enc is_vault_path
names_of [] = []
names_of (path ∷ paths) =
    let rest = names_of paths in
    if is_vault_path path then strip_enc (base_name path) ∷ rest else rest

pub list : Vault → List Bytes
unfolding names_of
list v = names_of (list_files v.fs)
