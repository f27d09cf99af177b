-- ===== src/Wasm/Parse.antt =====
-- `parse` of wasm.rs: the sections of a module. The loops count down the entries that are left.
pub mod Ends
use moon_os.Common.{
  ℕ, zero, suc, ◌+◌, ◌%◌, ◌^◌, ◌&&◌, Option, none, some, List, [], ◌∷◌, ◌++◌, leb, ◌==◌,
  if◌then◌else◌, length, get_elem?, take, slice,
}
use moon_os.Common.Text.{is_utf8}
use moon_os.Wasm.Leb.{read_uleb128}
use moon_os.Common.Bytes.{Bytes, bytes_eq, of_le}
use moon_os.Wasm.Result.{
  Result, ok, runs_on, ◌>>=◌, ◌>>◌, ok_or, require, bad_magic, unsupported_version,
  truncated_header, section_out_of_bounds, truncated_types, not_func, not_i32, truncated_functions,
  truncated_exports, export_name_out_of_bounds, export_name_not_utf8, truncated_body,
  body_out_of_bounds, truncated_locals, or_panic,
}

pub record FuncType : Type 0 where
  pub params : ℕ
  pub results : ℕ

-- A function's body: how many locals it declares, and its instructions.
pub record Body : Type 0 where
  pub local_count : ℕ
  pub code : Bytes

-- `exports` has the latest entry first.
pub record Module : Type 0 where
  pub types : List FuncType
  pub func_type_indices : List ℕ
  pub codes : List Body
  pub exports : List (Bytes × ℕ)

abbrev pub no_module : Module
no_module = record { types = []; func_type_indices = []; codes = []; exports = [] }

-- The value types of a function's parameters or results.
pub value_types : ℕ → Bytes → ℕ → Result ℕ
value_types zero content pos = ok pos
value_types (suc n) content pos = do
  vt ← ok_or (get_elem? content pos) truncated_types
  require (vt == 0x7F) not_i32
  value_types n content (pos + 1)

pub type_section : ℕ → Bytes → ℕ → Module → Result Module
unfolding value_types
type_section zero content pos m = ok m
type_section (suc n) content pos m = do
  form ← ok_or (get_elem? content pos) truncated_types
  require (form == 0x60) not_func
  (param_count, p1) ← ok_or (read_uleb128 content (pos + 1)) truncated_types
  p2 ← value_types param_count content p1
  (result_count, p3) ← ok_or (read_uleb128 content p2) truncated_types
  p4 ← value_types result_count content p3
  type_section n content p4 (record m {
    types = m.types ++ (record { params = param_count; results = result_count } ∷ []);
  })

pub function_section : ℕ → Bytes → ℕ → Module → Result Module
function_section zero content pos m = ok m
function_section (suc n) content pos m = do
  (idx, p1) ← ok_or (read_uleb128 content pos) truncated_functions
  function_section n content p1
      (record m { func_type_indices = m.func_type_indices ++ (idx % 2 ^ 32 ∷ []) })

-- `data.get(start..end)`.
get_range : ℕ → ℕ → Bytes → Option Bytes
get_range start end content =
    if leb start end && leb end (length content) then some (slice start end content) else none

pub export_section : ℕ → Bytes → ℕ → Module → Result Module
unfolding get_range
export_section zero content pos m = ok m
export_section (suc n) content pos m = do
  (name_len, p1) ← ok_or (read_uleb128 content pos) truncated_exports
  name ← ok_or (get_range p1 (p1 + name_len) content) export_name_out_of_bounds
  require (is_utf8 name) export_name_not_utf8
  kind ← ok_or (get_elem? content (p1 + name_len)) truncated_exports
  (idx, p2) ← ok_or (read_uleb128 content (p1 + name_len + 1)) truncated_exports
  export_section n content p2
      (if kind == 0 then record m { exports = (name, idx % 2 ^ 32) ∷ m.exports } else m)

-- The declarations of locals: how many there are, and the position behind them.
pub local_decls : ℕ → Bytes → ℕ → ℕ → Result (ℕ × ℕ)
local_decls zero content pos count = ok (count, pos)
local_decls (suc n) content pos count = do
  (more, p1) ← ok_or (read_uleb128 content pos) truncated_locals
  vt ← ok_or (get_elem? content p1) truncated_locals
  require (vt == 0x7F) not_i32
  local_decls n content (p1 + 1) ((count + more) % 2 ^ 64)

-- `data[p..body_end]` panics when the declarations go past the end of the body.
pub code_section : ℕ → Bytes → ℕ → Module → Result Module
unfolding local_decls get_range
code_section zero content pos m = ok m
code_section (suc n) content pos m = do
  (body_len, p1) ← ok_or (read_uleb128 content pos) truncated_body
  let body_end = (p1 + body_len) % 2 ^ 64
  require (leb body_end (length content)) body_out_of_bounds
  (decl_count, p2) ← ok_or (read_uleb128 content p1) truncated_locals
  (local_count, p3) ← local_decls decl_count content p2 0
  code ← or_panic (get_range p3 body_end content)
  code_section n content body_end
      (record m { codes = m.codes ++ (record { local_count = local_count; code = code } ∷ []) })

-- The `match` on the section's id.
pub section : ℕ → Bytes → ℕ → Module → Result Module
unfolding type_section function_section export_section code_section
section id content pos m =
    if id == 1
    then (do
      (count, p) ← ok_or (read_uleb128 content pos) truncated_types
      type_section count content p m)
    else if id == 3
    then (do
      (count, p) ← ok_or (read_uleb128 content pos) truncated_functions
      function_section count content p m)
    else if id == 7
    then (do
      (count, p) ← ok_or (read_uleb128 content pos) truncated_exports
      export_section count content p m)
    else if id == 10
    then (do
      (count, p) ← ok_or (read_uleb128 content pos) truncated_body
      code_section count content p m)
    else ok m

-- The loop over the sections. Each takes two bytes or more, so the length is fuel enough.
pub sections : ℕ → Bytes → ℕ → Module → Result Module
unfolding section
sections zero content pos m = runs_on
sections (suc fuel) content pos m = elim (get_elem? content pos) [
  | none ↦ ok m
  | some id ↦ (do
    (section_len, p) ← ok_or (read_uleb128 content (pos + 1)) truncated_header
    require (leb (p + section_len) (length content)) section_out_of_bounds
    m' ← section id content p m
    sections fuel content (p + section_len) m')
]

unfoldable pub parse : Bytes → Result Module
unfolding sections
parse content = do
  require (leb 8 (length content) && bytes_eq (take 4 content) (0x00 ∷ 0x61 ∷ 0x73 ∷ 0x6D ∷ []))
      bad_magic
  require (of_le (slice 4 8 content) == 1) unsupported_version
  sections (length content) content 8 no_module
