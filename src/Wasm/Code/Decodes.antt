-- ===== src/Wasm/Code/Decodes.antt =====
-- Decoding an instruction, and the scan for the ends of blocks, do not panic.
use moon_os.Common.{
  ℕ, zero, suc, ◌+◌, inl, inr, Bool, Option, none, some, List, [], ◌∷◌, ltb, ◌==◌, Bool-cases,
  Option-cases, length,
}
use moon_os.Wasm.Leb.{read_uleb128, read_sleb128}
use moon_os.Common.Bytes.{Bytes}
use moon_os.Wasm.Avoids.{Avoids, ok-Avoids, err-Avoids, bind-Avoids, ok_or-Avoids}
use moon_os.Wasm.Code.{
  Instr, unreachable, nop, block, loop, if_op, else_op, end_op, br, br_if, return_op, drop_op,
  local_get, local_set, local_tee, i32_const, i32_eqz, i32_eq, i32_ne, i32_lt_s, i32_lt_u, i32_gt_s,
  i32_gt_u, i32_le_s, i32_le_u, i32_ge_s, i32_ge_u, i32_add, i32_sub, i32_mul, i32_div_s, i32_div_u,
  i32_rem_s, i32_rem_u, i32_and, i32_or, i32_xor, i32_shl, i32_shr_s, i32_shr_u, operand, find_op,
  plain_ops, block_ops, operand_ops, decode_op, decode, ControlMap, scan_op, scan,
  build_control_map,
}

module _ {panic_ok fuel_ok : Bool} where
  operand-Safe : (make : ℕ → Instr) (o : Option (ℕ × ℕ)) → Avoids panic_ok fuel_ok (operand make o)
  operand-Safe make none = err-Avoids _
  operand-Safe make (some (v, p)) = ok-Avoids

  decode_op-Safe :
      (op : ℕ) (code : Bytes) (pos : ℕ) → Avoids panic_ok fuel_ok (decode_op op code pos)
  unfolding decode_op
  decode_op-Safe op code pos = elim (Option-cases (find_op op plain_ops)) [
    | inr (i, plain) ↦ rw (plain, decode_op) ok-Avoids
    | inl not_plain ↦ elim (Option-cases (find_op op block_ops)) [
      | inr (i, blocks) ↦ rw (not_plain, blocks, decode_op) ok-Avoids
      | inl not_block ↦ elim (Option-cases (find_op op operand_ops)) [
        | inr (make, operands) ↦
            rw (not_plain, not_block, operands, decode_op)
              (operand-Safe make (read_uleb128 code pos))
        | inl none_of_them ↦ elim (Bool-cases (op == 0x41)) [
          | inl const ↦
              rw (not_plain, not_block, none_of_them, const, decode_op)
                (operand-Safe i32_const (read_sleb128 code pos))
          | inr unknown ↦ rw (not_plain, not_block, none_of_them, unknown, decode_op) (err-Avoids _)
        ]
      ]
    ]
  ]

  pub decode-Safe : (code : Bytes) (pc : ℕ) → Avoids panic_ok fuel_ok (decode code pc)
  unfolding decode
  decode-Safe code pc = ok_or-Avoids _ _ _ (λ op e. decode_op-Safe op code (pc + 1))

  scan_op-Safe :
      (op : Instr) (pc : ℕ) (opened : List ℕ) (table : ControlMap)
      → Avoids panic_ok fuel_ok (scan_op op pc opened table)
  unfolding scan_op
  scan_op-Safe unreachable pc opened table = ok-Avoids
  scan_op-Safe nop pc opened table = ok-Avoids
  scan_op-Safe block pc opened table = ok-Avoids
  scan_op-Safe loop pc opened table = ok-Avoids
  scan_op-Safe if_op pc opened table = ok-Avoids
  scan_op-Safe (br d) pc opened table = ok-Avoids
  scan_op-Safe (br_if d) pc opened table = ok-Avoids
  scan_op-Safe return_op pc opened table = ok-Avoids
  scan_op-Safe drop_op pc opened table = ok-Avoids
  scan_op-Safe (local_get i) pc opened table = ok-Avoids
  scan_op-Safe (local_set i) pc opened table = ok-Avoids
  scan_op-Safe (local_tee i) pc opened table = ok-Avoids
  scan_op-Safe (i32_const v) pc opened table = ok-Avoids
  scan_op-Safe i32_eqz pc opened table = ok-Avoids
  scan_op-Safe i32_eq pc opened table = ok-Avoids
  scan_op-Safe i32_ne pc opened table = ok-Avoids
  scan_op-Safe i32_lt_s pc opened table = ok-Avoids
  scan_op-Safe i32_lt_u pc opened table = ok-Avoids
  scan_op-Safe i32_gt_s pc opened table = ok-Avoids
  scan_op-Safe i32_gt_u pc opened table = ok-Avoids
  scan_op-Safe i32_le_s pc opened table = ok-Avoids
  scan_op-Safe i32_le_u pc opened table = ok-Avoids
  scan_op-Safe i32_ge_s pc opened table = ok-Avoids
  scan_op-Safe i32_ge_u pc opened table = ok-Avoids
  scan_op-Safe i32_add pc opened table = ok-Avoids
  scan_op-Safe i32_sub pc opened table = ok-Avoids
  scan_op-Safe i32_mul pc opened table = ok-Avoids
  scan_op-Safe i32_div_s pc opened table = ok-Avoids
  scan_op-Safe i32_div_u pc opened table = ok-Avoids
  scan_op-Safe i32_rem_s pc opened table = ok-Avoids
  scan_op-Safe i32_rem_u pc opened table = ok-Avoids
  scan_op-Safe i32_and pc opened table = ok-Avoids
  scan_op-Safe i32_or pc opened table = ok-Avoids
  scan_op-Safe i32_xor pc opened table = ok-Avoids
  scan_op-Safe i32_shl pc opened table = ok-Avoids
  scan_op-Safe i32_shr_s pc opened table = ok-Avoids
  scan_op-Safe i32_shr_u pc opened table = ok-Avoids
  scan_op-Safe else_op pc [] table = err-Avoids _
  scan_op-Safe else_op pc (start ∷ opened) table = ok-Avoids
  scan_op-Safe end_op pc [] table = ok-Avoids
  scan_op-Safe end_op pc (start ∷ opened) table = ok-Avoids

  scan-Safe :
      (fuel : ℕ) (code : Bytes) (pc : ℕ) (opened : List ℕ) (table : ControlMap)
      → Avoids panic_ok fuel_ok (scan fuel code pc opened table)
  unfolding scan
  scan-Safe zero code pc opened table = ok-Avoids
  scan-Safe (suc fuel) code pc opened table = elim (Bool-cases (ltb pc (length code))) [
    | inr behind ↦ rw (behind, scan) ok-Avoids
    | inl inside ↦
        rw (inside, scan)
          (bind-Avoids _ _ (decode-Safe code pc) (λ op.
            bind-Avoids _ _ (scan_op-Safe op.0 pc opened table)
              (λ next. scan-Safe fuel code op.1 next.0 next.1)))
  ]

  pub build_control_map-Safe : (code : Bytes) → Avoids panic_ok fuel_ok (build_control_map code)
  unfolding build_control_map
  build_control_map-Safe code = scan-Safe (length code) code 0 [] (λ pc. none)
