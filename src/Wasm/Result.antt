-- ===== src/Wasm/Result.antt =====
-- What the functions of wasm.rs return: a value, an error, a panic, or the end of the fuel of a loop.
-- Texts that tell where one section, or one operand, is cut short share a constructor, as do those of
-- an empty stack and those of the divisions.
use moon_os.Common.{Bool, true, false, Option, none, some}

pub data WasmError : Type 0 where
  bad_magic : WasmError
  unsupported_version : WasmError
  truncated_header : WasmError
  section_out_of_bounds : WasmError
  truncated_types : WasmError
  not_func : WasmError
  not_i32 : WasmError
  truncated_functions : WasmError
  truncated_exports : WasmError
  export_name_out_of_bounds : WasmError
  export_name_not_utf8 : WasmError
  truncated_body : WasmError
  body_out_of_bounds : WasmError
  truncated_locals : WasmError
  no_such_export : WasmError
  bad_function_index : WasmError
  bad_type_index : WasmError
  wrong_argument_count : WasmError
  not_one_result : WasmError
  truncated_code : WasmError
  truncated_operand : WasmError
  unsupported_opcode : WasmError
  else_without_if : WasmError
  missing_control_info : WasmError
  branch_too_deep : WasmError
  stack_underflow : WasmError
  bad_local_index : WasmError
  hit_unreachable : WasmError
  divide_trap : WasmError

pub data Result (A : Type 0) : Type 0 where
  ok : A → Result A
  err : WasmError → Result A
  panics : Result A
  runs_on : Result A

module _ {A B : Type 0} where
  infixl 5 ◌>>=◌ ◌>>◌
  unfoldable pub ◌>>=◌ : Result A → (A → Result B) → Result B
  ok a >>= k = k a
  err e >>= k = err e
  panics >>= k = panics
  runs_on >>= k = runs_on

  unfoldable pub ◌>>◌ : Result A → Result B → Result B
  unfolding ◌>>=◌
  m >> n = m >>= λ _. n

-- `ok_or(..)?`.
unfoldable pub ok_or : {A : Type 0} → Option A → WasmError → Result A
ok_or none e = err e
ok_or (some a) e = ok a

-- An early `return Err(..)`.
unfoldable pub require : Bool → WasmError → Result (Unit {0})
require true e = ok tt
require false e = err e

-- An operation that panics at `none`.
unfoldable pub or_panic : {A : Type 0} → Option A → Result A
or_panic none = panics
or_panic (some a) = ok a
