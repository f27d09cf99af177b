-- ===== src/Wasm/Code.antt =====
-- The instructions of wasm.rs: `decode`, and `build_control_map`, which finds the end of each block.
pub mod Decodes
use moon_os.Common.{
  ℕ, zero, suc, ◌+◌, ◌%◌, ◌^◌, true, false, Option, none, some, List, [], ◌∷◌, map, ltb, ◌==◌,
  if◌then◌else◌, length, get_elem?,
}
use moon_os.Wasm.Leb.{read_uleb128, read_sleb128}
use moon_os.Common.Bytes.{Bytes}
use moon_os.Wasm.Result.{
  Result, ok, err, ◌>>=◌, ok_or, truncated_code, truncated_operand, unsupported_opcode,
  else_without_if,
}

pub data Instr : Type 0 where
  unreachable : Instr
  nop : Instr
  block : Instr
  loop : Instr
  if_op : Instr
  else_op : Instr
  end_op : Instr
  br : ℕ → Instr
  br_if : ℕ → Instr
  return_op : Instr
  drop_op : Instr
  local_get : ℕ → Instr
  local_set : ℕ → Instr
  local_tee : ℕ → Instr
  i32_const : ℕ → Instr
  i32_eqz : Instr
  i32_eq : Instr
  i32_ne : Instr
  i32_lt_s : Instr
  i32_lt_u : Instr
  i32_gt_s : Instr
  i32_gt_u : Instr
  i32_le_s : Instr
  i32_le_u : Instr
  i32_ge_s : Instr
  i32_ge_u : Instr
  i32_add : Instr
  i32_sub : Instr
  i32_mul : Instr
  i32_div_s : Instr
  i32_div_u : Instr
  i32_rem_s : Instr
  i32_rem_u : Instr
  i32_and : Instr
  i32_or : Instr
  i32_xor : Instr
  i32_shl : Instr
  i32_shr_s : Instr
  i32_shr_u : Instr

-- An instruction with an operand, which is cut to 32 bits.
abbrev pub operand : (ℕ → Instr) → Option (ℕ × ℕ) → Result (Instr × ℕ)
operand make none = err truncated_operand
operand make (some (v, p)) = ok (make (v % 2 ^ 32), p)

-- The opcodes without an operand.
abbrev pub plain_ops : List (ℕ × Instr)
plain_ops =
    (0x00, unreachable)
    ∷ (0x01, nop)
    ∷ (0x05, else_op)
    ∷ (0x0B, end_op)
    ∷ (0x0F, return_op)
    ∷ (0x1A, drop_op)
    ∷ (0x45, i32_eqz)
    ∷ (0x46, i32_eq)
    ∷ (0x47, i32_ne)
    ∷ (0x48, i32_lt_s)
    ∷ (0x49, i32_lt_u)
    ∷ (0x4A, i32_gt_s)
    ∷ (0x4B, i32_gt_u)
    ∷ (0x4C, i32_le_s)
    ∷ (0x4D, i32_le_u)
    ∷ (0x4E, i32_ge_s)
    ∷ (0x4F, i32_ge_u)
    ∷ (0x6A, i32_add)
    ∷ (0x6B, i32_sub)
    ∷ (0x6C, i32_mul)
    ∷ (0x6D, i32_div_s)
    ∷ (0x6E, i32_div_u)
    ∷ (0x6F, i32_rem_s)
    ∷ (0x70, i32_rem_u)
    ∷ (0x71, i32_and)
    ∷ (0x72, i32_or)
    ∷ (0x73, i32_xor)
    ∷ (0x74, i32_shl)
    ∷ (0x75, i32_shr_s)
    ∷ (0x76, i32_shr_u)
    ∷ []

-- The blocks: a byte for the block's type follows.
abbrev pub block_ops : List (ℕ × Instr)
block_ops = (0x02, block) ∷ (0x03, loop) ∷ (0x04, if_op) ∷ []

-- The opcodes with an unsigned operand.
abbrev pub operand_ops : List (ℕ × (ℕ → Instr))
operand_ops =
    (0x0C, br) ∷ (0x0D, br_if) ∷ (0x20, local_get) ∷ (0x21, local_set) ∷ (0x22, local_tee) ∷ []

unfoldable pub find_op : {A : Type 0} → ℕ → List (ℕ × A) → Option A
find_op op [] = none
find_op op ((o, a) ∷ ops) = let rest = find_op op ops in if o == op then some a else rest

-- The instruction of an opcode, and the position behind it and its operand; `pos` is behind the opcode.
pub decode_op : ℕ → Bytes → ℕ → Result (Instr × ℕ)
decode_op op code pos = elim (find_op op plain_ops) [
  | some i ↦ ok (i, pos)
  | none ↦ elim (find_op op block_ops) [
    | some i ↦ ok (i, pos + 1)
    | none ↦ elim (find_op op operand_ops) [
      | some make ↦ operand make (read_uleb128 code pos)
      | none ↦
          if op == 0x41 then operand i32_const (read_sleb128 code pos) else err unsupported_opcode
    ]
  ]
]

unfoldable pub decode : Bytes → ℕ → Result (Instr × ℕ)
unfolding decode_op
decode code pc = do op ← ok_or (get_elem? code pc) truncated_code; decode_op op code (pc + 1)

pub record ControlInfo : Type 0 where
  pub end_pc : ℕ
  pub else_pc : Option ℕ

abbrev pub ControlMap : Type 0
ControlMap = ℕ → Option ControlInfo

pub insert : ℕ → ControlInfo → ControlMap → ControlMap
insert pc info map = λ k. if k == pc then some info else map k

else_of : Option ControlInfo → Option ℕ
else_of none = none
else_of (some info) = info.else_pc

-- An `else` at `pc` is noted with its `if`.
note_else : ℕ → ℕ → ControlMap → ControlMap
unfolding insert
note_else if_pc pc map = elim (map if_pc) [
  | none ↦ insert if_pc (record { end_pc = 0; else_pc = some pc }) map
  | some info ↦ insert if_pc (record { end_pc = info.end_pc; else_pc = some pc }) map
]

-- An `end` at `pc` closes the block at `start`, and its `else`.
close : ℕ → ℕ → ControlMap → ControlMap
unfolding insert else_of
close start pc map = elim (else_of (map start)) [
  | none ↦ insert start (record { end_pc = pc; else_pc = none }) map
  | some e ↦
      insert e (record { end_pc = pc; else_pc = none })
        (insert start (record { end_pc = pc; else_pc = some e }) map)
]

-- What `build_control_map` does at the instruction at `pc`: the open blocks, the innermost first.
pub scan_op : Instr → ℕ → List ℕ → ControlMap → Result (List ℕ × ControlMap)
unfolding note_else close
scan_op block pc opened map = ok (pc ∷ opened, map)
scan_op loop pc opened map = ok (pc ∷ opened, map)
scan_op if_op pc opened map = ok (pc ∷ opened, map)
scan_op else_op pc [] map = err else_without_if
scan_op else_op pc (if_pc ∷ opened) map = ok (if_pc ∷ opened, note_else if_pc pc map)
scan_op end_op pc [] map = ok ([], map)
scan_op end_op pc (start ∷ opened) map = ok (opened, close start pc map)
scan_op op pc opened map = ok (opened, map)

-- The loop of `build_control_map`. Each round takes a byte or more, so the length is fuel enough.
pub scan : ℕ → Bytes → ℕ → List ℕ → ControlMap → Result ControlMap
unfolding decode scan_op
scan zero code pc opened map = ok map
scan (suc fuel) code pc opened map = elim (ltb pc (length code)) [
  | false ↦ ok map
  | true ↦ (do
    (op, next) ← decode code pc
    (opened', map') ← scan_op op pc opened map
    scan fuel code next opened' map')
]

unfoldable pub build_control_map : Bytes → Result ControlMap
unfolding scan
build_control_map code = scan (length code) code 0 [] (λ pc. none)
