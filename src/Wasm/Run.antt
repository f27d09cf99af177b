-- ===== src/Wasm/Run.antt =====
-- The machine of wasm.rs: `run_function`, `branch` and `Module::call`. Stacks have their top first.
pub mod Safe
use moon_os.Common.{
  ℕ, zero, suc, ◌+◌, bit_and, bit_or, bit_xor, Bool, true, false, not, Option, none, some, List, [],
  ◌∷◌, ◌++◌, map, ltb, leb, ◌==◌, if◌then◌else◌, length, get_elem?, set, drop, replicate,
}
use moon_os.Common.Bytes.{Bytes, bytes_eq}
use moon_os.Wasm.Result.{
  Result, ok, err, panics, runs_on, ◌>>=◌, ◌>>◌, ok_or, require, or_panic, no_such_export,
  bad_function_index, bad_type_index, wrong_argument_count, not_one_result, missing_control_info,
  branch_too_deep, stack_underflow, bad_local_index, hit_unreachable,
}
use moon_os.Wasm.Code.{
  Instr, unreachable, nop, block, loop, if_op, else_op, end_op, br, br_if, return_op, drop_op,
  local_get, local_set, local_tee, i32_const, i32_eqz, i32_eq, i32_ne, i32_lt_s, i32_lt_u, i32_gt_s,
  i32_gt_u, i32_le_s, i32_le_u, i32_ge_s, i32_ge_u, i32_add, i32_sub, i32_mul, i32_div_s, i32_div_u,
  i32_rem_s, i32_rem_u, i32_and, i32_or, i32_xor, i32_shl, i32_shr_s, i32_shr_u, decode,
  ControlInfo, ControlMap, build_control_map,
}
use moon_os.Wasm.Arith.{of_bool, lt_s, add, sub, mul, div_s, div_u, rem_s, rem_u, shl, shr_s, shr_u}
use moon_os.Wasm.Parse.{Module, Body, FuncType}

pub data Frame : Type 0 where
  block_frame : ℕ → Frame
  loop_frame : ℕ → Frame
  if_frame : ℕ → Frame

pub record Run : Type 0 where
  pub pc : ℕ
  pub values : List ℕ
  pub frames : List Frame
  pub locals : List ℕ

-- What an instruction leads to: the next one, or the end of the function.
pub data Next : Type 0 where
  go_on : Run → Next
  finish : Run → Next

-- The jump to an open frame; `frames` begins with it.
pub jump : List Frame → Run → Result Next
jump [] r = err branch_too_deep
jump (loop_frame start_pc ∷ frames) r =
    ok (go_on (record r { pc = start_pc; frames = loop_frame start_pc ∷ frames }))
jump (block_frame end_pc ∷ frames) r = ok (go_on (record r { pc = end_pc + 1; frames = frames }))
jump (if_frame end_pc ∷ frames) r = ok (go_on (record r { pc = end_pc + 1; frames = frames }))

pub branch : ℕ → Run → Result Next
unfolding jump
branch depth r = if depth == length r.frames then ok (finish r) else jump (drop depth r.frames) r

pub pop : Run → Result (ℕ × Run)
pop r = elim r.values [ [] ↦ err stack_underflow | v ∷ vs ↦ ok (v, record r { values = vs }) ]

abbrev push : ℕ → Run → Result Next
push v r = ok (go_on (record r { values = v ∷ r.values }))

-- An operation of two values that may trap.
pub binary : (ℕ → ℕ → Result ℕ) → Run → Result Next
unfolding pop
binary f r = do (b, r1) ← pop r; (a, r2) ← pop r1; v ← f a b; push v r2

pub binop : (ℕ → ℕ → ℕ) → Run → Result Next
unfolding binary
binop f r = binary (λ a b. ok (f a b)) r

abbrev pub compare : (ℕ → ℕ → Bool) → Run → Result Next
unfolding binop
compare test r = binop (λ a b. of_bool (test a b)) r

-- A local is set, if there is one.
pub set_local : ℕ → ℕ → Run → Result Next
set_local i v r =
    if ltb i (length r.locals)
    then ok (go_on (record r { locals = set r.locals i v }))
    else err bad_local_index

-- An `if` whose condition is popped; `r.pc` is behind it.
pub enter_if : ℕ → ControlInfo → Run → Result Next
enter_if cond info r =
    if not (cond == 0)
    then ok (go_on (record r { frames = if_frame info.end_pc ∷ r.frames }))
    else elim info.else_pc [
      | some e ↦ ok (go_on (record r { pc = e + 1; frames = if_frame info.end_pc ∷ r.frames }))
      | none ↦ ok (go_on (record r { pc = info.end_pc + 1 }))
    ]

-- The `match` of the loop, for the instruction at `at`; `r.pc` is behind it.
pub execute : ControlMap → Instr → ℕ → Run → Result Next
unfolding branch pop binary binop set_local enter_if
execute map unreachable at r = err hit_unreachable
execute map nop at r = ok (go_on r)
execute map drop_op at r = do (v, r1) ← pop r; ok (go_on r1)
execute map block at r = do
  info ← ok_or (map at) missing_control_info
  ok (go_on (record r { frames = block_frame (ControlInfo.end_pc info) ∷ r.frames }))
execute map loop at r = ok (go_on (record r { frames = loop_frame r.pc ∷ r.frames }))
execute map if_op at r = do
  (cond, r1) ← pop r
  info ← ok_or (map at) missing_control_info
  enter_if cond info r1
execute map else_op at r = do
  info ← ok_or (map at) missing_control_info
  ok (go_on (record r { pc = ControlInfo.end_pc info + 1; frames = drop 1 r.frames }))
execute map end_op at r = ok (go_on (record r { frames = drop 1 r.frames }))
execute map (br depth) at r = branch depth r
execute map (br_if depth) at r = do
  (cond, r1) ← pop r
  if not (cond == 0) then branch depth r1 else ok (go_on r1)
execute map return_op at r = ok (finish r)
execute map (local_get i) at r = do v ← ok_or (get_elem? r.locals i) bad_local_index; push v r
execute map (local_set i) at r = do (v, r1) ← pop r; set_local i v r1
execute map (local_tee i) at r = do (v, r1) ← pop r; set_local i v r
execute map (i32_const v) at r = push v r
execute map i32_eqz at r = do (a, r1) ← pop r; push (of_bool (a == 0)) r1
execute map i32_eq at r = compare (λ a b. a == b) r
execute map i32_ne at r = compare (λ a b. not (a == b)) r
execute map i32_lt_s at r = compare lt_s r
execute map i32_lt_u at r = compare ltb r
execute map i32_gt_s at r = compare (λ a b. lt_s b a) r
execute map i32_gt_u at r = compare (λ a b. ltb b a) r
execute map i32_le_s at r = compare (λ a b. not (lt_s b a)) r
execute map i32_le_u at r = compare leb r
execute map i32_ge_s at r = compare (λ a b. not (lt_s a b)) r
execute map i32_ge_u at r = compare (λ a b. leb b a) r
execute map i32_add at r = binop add r
execute map i32_sub at r = binop sub r
execute map i32_mul at r = binop mul r
execute map i32_div_s at r = binary div_s r
execute map i32_div_u at r = binary div_u r
execute map i32_rem_s at r = binary rem_s r
execute map i32_rem_u at r = binary rem_u r
execute map i32_and at r = binop bit_and r
execute map i32_or at r = binop bit_or r
execute map i32_xor at r = binop bit_xor r
execute map i32_shl at r = binop shl r
execute map i32_shr_s at r = binop shr_s r
execute map i32_shr_u at r = binop shr_u r

pub result_of : Run → Result ℕ
unfolding pop
result_of r = do (v, r1) ← pop r; ok v

-- The loop of `run_function`, on fuel: a module may loop for ever.
pub run_from : ℕ → ControlMap → Bytes → Run → Result ℕ
unfolding execute decode result_of
run_from zero map code r = runs_on
run_from (suc fuel) map code r = elim (ltb r.pc (length code)) [
  | false ↦ result_of r
  | true ↦ (do
    (op, next) ← decode code r.pc
    step ← execute map op r.pc (record r { pc = next })
    elim step [ finish r' ↦ result_of r' | go_on r' ↦ run_from fuel map code r' ])
]

-- `Vec::with_capacity` and the two `extend` calls: the arguments, and then a zero for each declared local.
-- `room` is how many i32 the heap can give in one piece. A capacity that is larger panics, be it that its
-- size overflows or that the heap has not enough.
pub locals_of : ℕ → Body → List ℕ → Result (List ℕ)
locals_of room body args =
    if leb (length args + Body.local_count body) room
    then ok (args ++ replicate (Body.local_count body) 0)
    else panics

unfoldable pub run_function : ℕ → ℕ → Body → List ℕ → Result ℕ
unfolding run_from build_control_map locals_of
run_function room fuel body args = do
  locals ← locals_of room body args
  map ← build_control_map (Body.code body)
  run_from fuel map (Body.code body) (record { pc = 0; values = []; frames = []; locals = locals })

find_export : Bytes → List (Bytes × ℕ) → Option ℕ
find_export name [] = none
find_export name ((n, idx) ∷ exports) =
    if bytes_eq n name then some idx else find_export name exports

-- `codes[func_idx]` panics when there are fewer bodies than functions.
unfoldable pub call : ℕ → ℕ → Module → Bytes → List ℕ → Result ℕ
unfolding run_function find_export
call room fuel m name args = do
  func_idx ← ok_or (find_export name (Module.exports m)) no_such_export
  type_idx ← ok_or (get_elem? (Module.func_type_indices m) func_idx) bad_function_index
  func_type ← ok_or (get_elem? (Module.types m) type_idx) bad_type_index
  require (length args == FuncType.params func_type) wrong_argument_count
  require (FuncType.results func_type == 1) not_one_result
  body ← or_panic (get_elem? (Module.codes m) func_idx)
  run_function room fuel body args
