-- ===== src/Fs/Vault/Tests.antt =====
-- vault.rs at concrete inputs.
use moon_os.Common.{◌<◌, ◌≡◌, refl, ◌≢◌, some, [], ◌∷◌, ◌++◌, arith, replicate}
use moon_os.Fs.Vault.Nonces.{write_file-fresh}
use moon_os.Fs.Vault.Sealed.{read_file-write_file}
use moon_os.Common.Dict.{get}
use moon_os.Common.Bytes.{Bytes, bytes_eq}
use moon_os.Fs.Vault.{
  Vault, highest_nonce_counter, is_vault_path, vault_dir, write_file, dot_enc, ok, read_file,
  vault_path, stored_counter,
}
use moon_os.Fs.RamFs.{read, new, starts_with, list as list_files}

abbrev vault_key : Bytes
vault_key = replicate 32 9

-- "a".
abbrev name_a : Bytes
name_a = b'a' ∷ []

abbrev unlocked : Vault
unlocked = record { session_key = some vault_key; fs = new }

read_file-write_file_example :
    (v' : Vault) × (write_file name_a (1 ∷ 2 ∷ []) unlocked ≡ ok v')
    × (v'.session_key ≡ some vault_key)
    × (read_file name_a v' ≡ ok (1 ∷ 2 ∷ []))
    × ((other : Bytes) → other ≢ name_a → read_file other v' ≡ read_file other unlocked)
read_file-write_file_example = read_file-write_file unlocked vault_key name_a (1 ∷ 2 ∷ []) refl

-- A file of twenty-eight bytes whose counter is 5.
abbrev blob_five : Bytes
blob_five = replicate 11 0 ++ (5 ∷ replicate 16 0)

abbrev path_a : Bytes
path_a = vault_dir ++ ((b'/' ∷ name_a) ++ dot_enc)

abbrev one_file : Vault
one_file = record {
  session_key = some vault_key;
  fs = record { files = (path_a, blob_five) ∷ []; dirs = [] };
}

highest_lem : highest_nonce_counter one_file.fs ≡ 5
unfolding highest_nonce_counter list_files read get bytes_eq starts_with
highest_lem = refl

write_file-fresh_example :
    (v' : Vault) × (new_blob : Bytes) × (write_file name_a (1 ∷ []) one_file ≡ ok v')
    × (read v'.fs (vault_path name_a) ≡ some new_blob)
    × (stored_counter blob_five < stored_counter new_blob)
unfolding is_vault_path starts_with bytes_eq read get
write_file-fresh_example =
    write_file-fresh one_file vault_key name_a (1 ∷ []) path_a blob_five refl
      (omega (arith, highest_lem)) refl refl (omega arith)
