-- ===== src/Wasm/Tests.antt =====
-- The module of `self_test` of wasm.rs, and its results.
use moon_os.Common.{ℕ, ◌^◌, ◌≡◌, refl, ◌≢◌, List, [], ◌∷◌}
use moon_os.Common.Bytes.{Bytes, bytes_eq}
use moon_os.Wasm.Parse.{parse}
use moon_os.Wasm.Result.{Result, ok, panics, runs_on, ◌>>=◌, ◌>>◌, require, ok_or, or_panic}
use moon_os.Wasm.Leb.{read_uleb128, read_sleb128}
use moon_os.Wasm.Code.{find_op}
use moon_os.Common.Text.{utf8_from}
use moon_os.Wasm.Parse.{Module, parse}
use moon_os.Wasm.Parse.Ends.{parse-ne-runs_on}
use moon_os.Wasm.Run.{call}

abbrev wasmtest : Bytes
wasmtest =
    0x00 ∷ 0x61 ∷ 0x73 ∷ 0x6D ∷ 0x01 ∷ 0x00 ∷ 0x00 ∷ 0x00 ∷ 0x01 ∷ 0x0C ∷ 0x02 ∷ 0x60 ∷ 0x02 ∷ 0x7F
    ∷ 0x7F ∷ 0x01 ∷ 0x7F ∷ 0x60 ∷ 0x01 ∷ 0x7F ∷ 0x01 ∷ 0x7F ∷ 0x03 ∷ 0x03 ∷ 0x02 ∷ 0x00 ∷ 0x01
    ∷ 0x05 ∷ 0x03 ∷ 0x01 ∷ 0x00 ∷ 0x02 ∷ 0x06 ∷ 0x08 ∷ 0x01 ∷ 0x7F ∷ 0x01 ∷ 0x41 ∷ 0x80 ∷ 0x88
    ∷ 0x04 ∷ 0x0B ∷ 0x07 ∷ 0x16 ∷ 0x03 ∷ 0x06 ∷ 0x6D ∷ 0x65 ∷ 0x6D ∷ 0x6F ∷ 0x72 ∷ 0x79 ∷ 0x02
    ∷ 0x00 ∷ 0x03 ∷ 0x61 ∷ 0x64 ∷ 0x64 ∷ 0x00 ∷ 0x00 ∷ 0x03 ∷ 0x66 ∷ 0x69 ∷ 0x62 ∷ 0x00 ∷ 0x01
    ∷ 0x0A ∷ 0x4F ∷ 0x02 ∷ 0x07 ∷ 0x00 ∷ 0x20 ∷ 0x01 ∷ 0x20 ∷ 0x00 ∷ 0x6A ∷ 0x0B ∷ 0x45 ∷ 0x01
    ∷ 0x05 ∷ 0x7F ∷ 0x02 ∷ 0x40 ∷ 0x20 ∷ 0x00 ∷ 0x41 ∷ 0x02 ∷ 0x4E ∷ 0x0D ∷ 0x00 ∷ 0x20 ∷ 0x00
    ∷ 0x0F ∷ 0x0B ∷ 0x20 ∷ 0x00 ∷ 0x41 ∷ 0x7F ∷ 0x6A ∷ 0x21 ∷ 0x00 ∷ 0x41 ∷ 0x01 ∷ 0x21 ∷ 0x01
    ∷ 0x41 ∷ 0x00 ∷ 0x21 ∷ 0x02 ∷ 0x03 ∷ 0x40 ∷ 0x20 ∷ 0x00 ∷ 0x41 ∷ 0x7F ∷ 0x6A ∷ 0x22 ∷ 0x03
    ∷ 0x21 ∷ 0x00 ∷ 0x20 ∷ 0x01 ∷ 0x22 ∷ 0x04 ∷ 0x20 ∷ 0x02 ∷ 0x6A ∷ 0x22 ∷ 0x05 ∷ 0x21 ∷ 0x01
    ∷ 0x20 ∷ 0x04 ∷ 0x21 ∷ 0x02 ∷ 0x20 ∷ 0x05 ∷ 0x21 ∷ 0x04 ∷ 0x20 ∷ 0x03 ∷ 0x0D ∷ 0x00 ∷ 0x0B
    ∷ 0x20 ∷ 0x04 ∷ 0x0B ∷ []

abbrev run_test : Bytes → List ℕ → Result ℕ
unfolding call parse
run_test name args = do m ← parse wasmtest; call 0x100000 200 m name args

add_run : run_test (b'a' ∷ b'd' ∷ b'd' ∷ []) (100 ∷ 200 ∷ []) ≡ ok 300
unfolding run_test bytes_eq read_uleb128 read_sleb128 utf8_from ◌>>=◌ ◌>>◌ require ok_or or_panic
    find_op
add_run = refl

fib_run : run_test (b'f' ∷ b'i' ∷ b'b' ∷ []) (10 ∷ []) ≡ ok 55
unfolding run_test bytes_eq read_uleb128 read_sleb128 utf8_from ◌>>=◌ ◌>>◌ require ok_or or_panic
    find_op
fib_run = refl

-- A body of length 0, whose declarations of locals go past its end: `data[p..body_end]` panics.
abbrev empty_body : Bytes
empty_body = 0x00 ∷ 0x61 ∷ 0x73 ∷ 0x6D ∷ 1 ∷ 0 ∷ 0 ∷ 0 ∷ 10 ∷ 3 ∷ 1 ∷ 0 ∷ 0 ∷ []

empty_body_run : parse empty_body ≡ panics
unfolding parse bytes_eq read_uleb128 ◌>>=◌ ◌>>◌ require ok_or or_panic
empty_body_run = refl

parse-ne-runs_on_example : parse empty_body ≢ runs_on
parse-ne-runs_on_example = parse-ne-runs_on empty_body

-- The function `add`.
abbrev add_module : Module
add_module = record {
  types = record { params = 2; results = 1 } ∷ [];
  func_type_indices = 0 ∷ [];
  codes = record { local_count = 0; code = 0x20 ∷ 0 ∷ 0x20 ∷ 1 ∷ 0x6A ∷ 0x0B ∷ [] } ∷ [];
  exports = (b'a' ∷ b'd' ∷ b'd' ∷ [], 0) ∷ [];
}

-- The same function, declaring more locals than any heap can give.
abbrev many_locals : Module
many_locals = record add_module {
  codes = record { local_count = 2 ^ 62; code = 0x20 ∷ 0 ∷ 0x20 ∷ 1 ∷ 0x6A ∷ 0x0B ∷ [] } ∷ [];
}

many_locals_run : call 0x100000 20 many_locals (b'a' ∷ b'd' ∷ b'd' ∷ []) (3 ∷ 4 ∷ []) ≡ panics
unfolding call bytes_eq ◌>>=◌ ◌>>◌ require ok_or or_panic
many_locals_run = refl
