-- ===== src/Fs/Vault/Sealed.antt =====
-- `read_file` of vault.rs after `write_file`.
use moon_os.Common.{
  ℕ, ◌+◌, ◌%◌, ◌^◌, ◌≡◌, refl, sym, ap, ap₂, ◌∙◌, ◌≢◌, inl, inr, false, Option, some, ◌++◌, arith,
  ltb, if◌then◌else◌, ltb-ge, Bool-cases, length, take, drop, slice, length-append, take-append,
  drop-append, drop-append_past, slice-append,
}
use moon_os.Fs.RamFs.Files.{read-write}
use moon_os.Fs.RamFs.{RamFs, read, mkdir, write}
use moon_os.Crypto.Aead.Opens.{length-tag, open_sealed-seal}
use moon_os.Crypto.Aead.{seal}
use moon_os.Common.Bytes.{Bytes, bytes_eq_refl, bytes_eq, bytes_eq_iff}
use moon_os.Fs.Vault.{
  blob_of, nonce_of, open_blob, vault_path, write_file, read_file, Vault, ok, dot_enc,
  highest_nonce_counter, vault_dir, open_stored, read_with, write_with,
}

length-nonce_of : (counter : ℕ) → length (nonce_of counter) ≡ 12
unfolding nonce_of
length-nonce_of counter = refl

-- The parts of a file in the vault.
blob_parts :
    (key : Bytes) (counter : ℕ) (name plaintext : Bytes)
    → blob_of key counter name plaintext
      ≡ nonce_of counter
        ++ ((seal key (nonce_of counter) name plaintext).1
            ++ (seal key (nonce_of counter) name plaintext).0)
unfolding blob_of
blob_parts key counter name plaintext = refl

open_blob-blob_of :
    (key : Bytes) (counter : ℕ) (name plaintext : Bytes)
    → open_blob key name (blob_of key counter name plaintext) ≡ ok plaintext
unfolding open_blob blob_of
open_blob-blob_of key counter name plaintext =
    rw (long, front, tag_part, rest)
      (rw (open_sealed-seal key nonce name plaintext tag tag_len, bytes_eq_refl tag) refl)
  where
    nonce : Bytes
    nonce = nonce_of counter

    tag : Bytes
    tag = (seal key (nonce_of counter) name plaintext).1

    body : Bytes
    body = (seal key (nonce_of counter) name plaintext).0

    tag_len : length tag ≡ 16
    tag_len = length-tag key nonce name plaintext

    size : length (nonce ++ (tag ++ body)) ≡ 28 + length body
    size = omega (
      arith,
      length-append nonce (tag ++ body),
      length-append tag body,
      length-nonce_of counter,
      tag_len,
    )

    long : ltb (length (nonce ++ (tag ++ body))) 28 ≡ false
    long = ltb-ge _ 28 (omega (arith, size))

    front : take 12 (nonce ++ (tag ++ body)) ≡ nonce
    front = take-append nonce (tag ++ body)

    tag_part : slice 12 28 (nonce ++ (tag ++ body)) ≡ tag
    tag_part = slice-append nonce tag body 12 28 refl (omega (arith, tag_len))

    rest : drop 28 (nonce ++ (tag ++ body)) ≡ body
    rest =
        drop-append_past nonce (tag ++ body) 28 16 refl
        ∙ ap (λ (n : ℕ). drop n (tag ++ body)) (sym tag_len)
        ∙ drop-append tag body

append_cancel : (a b c : Bytes) → a ++ c ≡ b ++ c → a ≡ b
append_cancel a b c e =
    sym (take-append a c) ∙ ap₂ (λ (n : ℕ) (l : Bytes). take n l) same e ∙ take-append b c
  where
    same : length a ≡ length b
    same = omega (arith, ap (λ (l : Bytes). length l) e, length-append a c, length-append b c)

vault_path_injective : (a b : Bytes) → vault_path a ≡ vault_path b → a ≡ b
unfolding vault_path
vault_path_injective a b e = append_cancel a b dot_enc (ap (λ (l : Bytes). drop 7 l) e)

-- What `write_file` does to the files.
pub stored : RamFs → Bytes → Bytes → RamFs
stored fs name blob = write (mkdir fs vault_dir) (vault_path name) blob

read-mkdir : (fs : RamFs) (path q : Bytes) → read (mkdir fs path) q ≡ read fs q
unfolding read mkdir
read-mkdir fs path q = refl

pub read-stored :
    (fs : RamFs) (name blob q : Bytes)
    → read (stored fs name blob) q ≡ (if bytes_eq (vault_path name) q then some blob else read fs q)
unfolding stored
read-stored fs name blob q =
    read-write (mkdir fs vault_dir) (vault_path name) q blob
    ∙ ap (λ (o : Option Bytes). if bytes_eq (vault_path name) q then some blob else o)
        (read-mkdir fs vault_dir q)

other_path :
    (name other : Bytes) → other ≢ name → bytes_eq (vault_path name) (vault_path other) ≡ false
other_path name other differ = elim (Bool-cases (bytes_eq (vault_path name) (vault_path other))) [
  | inl e ↦ absurd (
      differ (
        sym (
          vault_path_injective name other
            ((bytes_eq_iff (vault_path name) (vault_path other)).0 e))))
  | inr e ↦ e
]

-- `read_file` by its parts.
read_unlocked :
    (v : Vault) (key name : Bytes) (o : Option Bytes)
    → v.session_key ≡ some key
    → read v.fs (vault_path name) ≡ o
    → read_file name v ≡ open_stored o key name
unfolding read_file read_with
read_unlocked v key name o unlocked e =
    ap (λ (k : Option Bytes). read_with k name v) unlocked
    ∙ ap (λ (r : Option Bytes). open_stored r key name) e

unfoldable pub next_counter : RamFs → ℕ
next_counter fs = (highest_nonce_counter fs + 1) % 2 ^ 64

pub write_unlocked :
    (v : Vault) (key name plaintext : Bytes)
    → v.session_key ≡ some key
    → write_file name plaintext v
      ≡ ok (record v { fs = stored v.fs name (blob_of key (next_counter v.fs) name plaintext) })
unfolding write_file write_with stored next_counter
write_unlocked v key name plaintext unlocked =
    ap (λ (k : Option Bytes). write_with k name plaintext v) unlocked

-- In an unlocked vault, writing a file succeeds, keeps the key, and the file then reads as what was
-- written; every file of another name reads as before.
pub read_file-write_file :
    (v : Vault) (key name plaintext : Bytes)
    → v.session_key ≡ some key
    → (v' : Vault) × (write_file name plaintext v ≡ ok v')
      × (v'.session_key ≡ some key)
      × (read_file name v' ≡ ok plaintext)
      × ((other : Bytes) → other ≢ name → read_file other v' ≡ read_file other v)
unfolding open_stored
read_file-write_file v key name plaintext unlocked =
    let blob = blob_of key (next_counter v.fs) name plaintext in
    let after : Vault = record v { fs = stored v.fs name blob } in
    (
      after,
      write_unlocked v key name plaintext unlocked,
      unlocked,
      read_unlocked after key name (some blob) unlocked (
            read-stored v.fs name blob (vault_path name)
            ∙ rw (bytes_eq_refl (vault_path name)) refl)
          ∙ open_blob-blob_of key (next_counter v.fs) name plaintext,
      λ other differ.
          read_unlocked after key other (read v.fs (vault_path other)) unlocked
            (read-stored v.fs name blob (vault_path other) ∙ rw (other_path name other differ) refl)
          ∙ sym (read_unlocked v key other (read v.fs (vault_path other)) unlocked refl),
    )
