-- ===== src/Fs/RamFs/Tests.antt =====
-- ramfs.rs at concrete inputs.
use Prim.Native.Char.{code}
use Prim.Native.String.{String}
use moon_os.Common.{◌≡◌, refl, ◌≢◌, ◌↔◌, ◌⊎◌, true, false, none, [], ◌∷◌, if◌then◌else◌}
use moon_os.Common.Bytes.{Bytes, bytes_eq, bytes_lt}
use moon_os.Common.Dict.{get, insert, remove as remove_key}
use moon_os.Fs.RamFs.{RamFs, new, write, read, rename, mkdir, rmdir, list_dir, is_dir, contains}
use moon_os.Fs.RamFs.Files.{rename_lem}
use moon_os.Fs.RamFs.Ancestors.{IsClosed, IsAncestor, write-IsClosed}

abbrev codes : String → Bytes
codes String.[] = []
codes (String.◌∷◌ c s) = code c ∷ codes s

abbrev two_files : RamFs
two_files = write (write new (codes "/apps/init.mapp") (1 ∷ 2 ∷ [])) (codes "/readme") (3 ∷ [])

root_listing :
    list_dir two_files (codes "/") ≡ (codes "/apps", true) ∷ (codes "/readme", false) ∷ []
unfolding list_dir new write get insert bytes_eq bytes_lt
root_listing = refl

apps_listing : list_dir two_files (codes "/apps") ≡ (codes "/apps/init.mapp", false) ∷ []
unfolding list_dir new write get insert bytes_eq bytes_lt
apps_listing = refl

-- `rmdir` does not ask whether the directory is empty, and `mkdir` below an existing directory adds no
-- ancestor: `/a` is gone though `/a/b` and `/a/b/c` are there.
orphan :
    is_dir (mkdir (rmdir (mkdir new (codes "/a/b")) (codes "/a")).0 (codes "/a/b/c")) (codes "/a")
    ≡ false
unfolding is_dir mkdir rmdir new get insert remove_key bytes_eq bytes_lt
orphan = refl

rename_lem_example :
    (((rename two_files (codes "/readme") (codes "/b/c")).1 ≡ true) ↔ (
      (codes "/readme" ≢ codes "/b/c")
      × (read two_files (codes "/b/c") ≡ none)
      × (read two_files (codes "/readme") ≢ none)))
    × ((rename two_files (codes "/readme") (codes "/b/c")).1 ≡ false
        → (rename two_files (codes "/readme") (codes "/b/c")).0 ≡ two_files)
    × ((rename two_files (codes "/readme") (codes "/b/c")).1 ≡ true
        → read (rename two_files (codes "/readme") (codes "/b/c")).0 (codes "/b/c") ≡ (
            if bytes_eq (codes "/b/c") (codes "/b/c")
            then read two_files (codes "/readme")
            else (if bytes_eq (codes "/readme") (codes "/b/c")
                then none
                else read two_files (codes "/b/c"))))
rename_lem_example = rename_lem two_files (codes "/readme") (codes "/b/c") (codes "/b/c")

new-IsClosed : IsClosed new.dirs
unfolding new contains get
new-IsClosed p q h e = cc

write-IsClosed_example :
    IsClosed (write two_files (codes "/a/b/c") (7 ∷ [])).dirs
    × ((p : Bytes)
        → (contains p (write two_files (codes "/a/b/c") (7 ∷ [])).dirs ≡ true)
          ↔ ((contains p two_files.dirs ≡ true) ⊎ IsAncestor p (codes "/a/b/c")))
write-IsClosed_example =
    write-IsClosed two_files (codes "/a/b/c") (7 ∷ [])
      (write-IsClosed (write new (codes "/apps/init.mapp") (1 ∷ 2 ∷ [])) (codes "/readme") (3 ∷ [])
        (write-IsClosed new (codes "/apps/init.mapp") (1 ∷ 2 ∷ []) new-IsClosed).0).0
