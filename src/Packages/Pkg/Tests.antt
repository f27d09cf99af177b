-- ===== src/Packages/Pkg/Tests.antt =====
-- pkg.rs at concrete inputs.
use moon_os.Common.{◌≡◌, refl, [], ◌∷◌, ◌++◌, arith}
use moon_os.Common.Text.{utf8_from}
use moon_os.Packages.Pkg.{parsed, failed, bad_magic, build, parse}
use moon_os.Packages.Pkg.Format.{parse-build}

-- The name `é`, the version `1` and an executable of three bytes.
parse-build_example :
    parse (build (0xC3 ∷ 0xA9 ∷ []) (49 ∷ []) (1 ∷ 2 ∷ 3 ∷ []) ++ (9 ∷ []))
    ≡ parsed (record { name = 0xC3 ∷ 0xA9 ∷ []; version = 49 ∷ []; elf = 1 ∷ 2 ∷ 3 ∷ [] })
unfolding utf8_from
parse-build_example =
    parse-build (0xC3 ∷ 0xA9 ∷ []) (49 ∷ []) (1 ∷ 2 ∷ 3 ∷ []) (9 ∷ []) (omega arith) (omega arith)
      (omega arith) refl refl

empty_file : parse [] ≡ failed bad_magic
unfolding parse
empty_file = refl
