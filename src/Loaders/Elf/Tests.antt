-- ===== src/Loaders/Elf/Tests.antt =====
-- elf.rs at concrete inputs.
use moon_os.Common.{
  ℕ, ◌+◌, ◌-◌, ◌/◌, ◌≤◌, ◌<◌, ◌≡◌, refl, ◌≢◌, false, none, some, [], ◌∷◌, ◌++◌, arith, length,
  get_or, take, replicate,
}
use moon_os.Memory.Pmm.{alloc_frame, alloc, is_free, mark}
use moon_os.Loaders.Elf.Copies.{load_segment_lem}
use moon_os.Loaders.Elf.Checks.{load-checks}
use moon_os.Memory.Paging.Small.{small, small-IsSpace}
use moon_os.Loaders.Elf.Segments.{covers}
use moon_os.Memory.Paging.{Machine, translate_in, map_in, next_table, follow, fresh_table}
use moon_os.Loaders.Outcome.{Outcome, word, page_base, alloc_frame_or}
use moon_os.Loaders.Elf.{load}
use moon_os.Memory.Paging.{take_frame}
use moon_os.Loaders.Outcome.{done, failed, panicked, out_of_fuel}
use moon_os.Loaders.Elf.{copy_pages, elf_magic, load_segment, load_headers, map_pages}
use moon_os.Common.Bytes.{Bytes, le_bytes, bytes_eq}

-- A file with one program header, at 64: a segment of eight bytes at 0x400000. The first four are the
-- file's last ones, and the others zero.
abbrev hello : Bytes
hello =
    (((((((0x7F ∷ b'E' ∷ b'L' ∷ b'F' ∷ 2 ∷ 1 ∷ []) ++ replicate 10 0) ++ le_bytes 2 2)
            ++ le_bytes 2 62)
          ++ le_bytes 4 1)
        ++ (le_bytes 8 0x400000 ++ le_bytes 8 64))
      ++ (replicate 14 0 ++ (le_bytes 2 56 ++ (le_bytes 2 1 ++ replicate 6 0))))
    ++ ((le_bytes 4 1
          ++ (le_bytes 4 5 ++ (le_bytes 8 120 ++ (le_bytes 8 0x400000 ++ le_bytes 8 0))))
        ++ ((le_bytes 8 4 ++ (le_bytes 8 8 ++ le_bytes 8 0)) ++ (1 ∷ 2 ∷ 3 ∷ 4 ∷ [])))

length-hello : length hello ≡ 124
length-hello = refl

machine_of : {A : Type 0} → Outcome A → Machine
machine_of (done a s) = s
machine_of (failed e s) = s
machine_of panicked = small
machine_of out_of_fuel = small

loaded : Machine
unfolding machine_of
loaded = machine_of (load 4096 hello small)

load-hello : load 4096 hello small ≡ done 0x400000 loaded
unfolding loaded load load_headers load_segment map_pages copy_pages map_in next_table follow
    fresh_table take_frame alloc_frame alloc is_free mark alloc_frame_or translate_in bytes_eq
load-hello = refl

load-checks_example :
    (64 ≤ length hello)
    × (take 4 hello ≡ elf_magic)
    × (get_or hello 4 0 ≡ 2)
    × (get_or hello 5 0 ≡ 1)
    × (word 2 hello 16 ≡ some 2)
    × (word 2 hello 18 ≡ some 62)
    × (word 8 hello 24 ≡ some 0x400000)
load-checks_example = load-checks 4096 hello small loaded 0x400000 load-hello

segment : Machine
unfolding machine_of
segment = machine_of (load_segment 4096 hello 120 0x400000 4 8 5 small)

load_segment-hello : load_segment 4096 hello 120 0x400000 4 8 5 small ≡ done tt segment
unfolding segment load_segment map_pages copy_pages map_in next_table follow fresh_table take_frame
    alloc_frame alloc is_free mark alloc_frame_or translate_in bytes_eq
load_segment-hello = refl

load_segment_lem_example :
    ((v : ℕ) → 0x400000 ≤ v → v < 0x400000 + 8 → translate_in 4096 v segment ≢ none)
    × ((v : ℕ)
        → covers ((0x400000 + 8 + 4095) / 4096 - 0x400000 / 4096) (page_base 0x400000) v ≡ false
        → translate_in 4096 v segment ≡ translate_in 4096 v small)
load_segment_lem_example =
    load_segment_lem 4096 hello 120 0x400000 4 8 5 small segment small-IsSpace (omega arith)
      (omega arith) load_segment-hello
