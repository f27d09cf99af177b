-- ===== src/Fs/Persist/Tests.antt =====
-- persist.rs at concrete inputs.
use moon_os.Common.{◌≡◌, refl, true, none, some, [], ◌∷◌, arith, replicate}
use moon_os.Fs.Persist.Restores.{payload_of}
use moon_os.Common.Text.{utf8_from}
use moon_os.Fs.Persist.Snapshot.{load-save}
use moon_os.Common.Bytes.{bytes_eq}
use moon_os.Common.Dict.{get}
use moon_os.Fs.Persist.{Disk, serialize, load, save}
use moon_os.Fs.RamFs.{RamFs, read, new, list as list_files}

abbrev blank : Disk
blank = record { sectors = λ i. replicate 512 0; answers = λ i. true }

-- The file "/a" of three bytes.
abbrev one_file : RamFs
one_file = record { files = ((b'/' ∷ b'a' ∷ []), (1 ∷ 2 ∷ 3 ∷ [])) ∷ []; dirs = [] }

load-save_example :
    ((load (save one_file (some blank)) new).1 ≡ true)
    × (read (load (save one_file (some blank)) new).0 (b'/' ∷ b'a' ∷ [])
        ≡ elim (read one_file (b'/' ∷ b'a' ∷ [])) [
          | none ↦ read new (b'/' ∷ b'a' ∷ [])
          | some content ↦ some content
        ])
unfolding list_files read get bytes_eq serialize utf8_from payload_of
load-save_example =
    load-save one_file blank (λ i. refl) new (b'/' ∷ b'a' ∷ []) ((refl, omega arith), tt)
      (omega arith)
