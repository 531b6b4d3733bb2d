-- ===== src/Ir/Instructions.antt =====
-- crates/flutterdec-ir/src/lib.rs: `stack_overflow_check_at` and `llir_from_disasm`.
use mathlib.Core.List.{reverse}
use flutterdec.Common.{
  ◌==◌, get_elem?, Text, chars, is_empty, trim_start, trim, nat_eq, if◌then◌else◌, ℕ, zero, suc,
  ◌-◌, String, Bool, false, ◌&&◌, ◌||◌, Option, none, some, List, ◌∷◌, ◌++◌, [], ℕ_eq, List_eq,
  Option_eq, ℕ_order, Text_order,
}
use flutterdec.Ir.Targets.{strip_prefix, starts_with}

-- crates/flutterdec-disasm-arm64/src/lib.rs: the records of the disassembly.
pub record AsmInstruction : Type 0 where
  pub va : ℕ
  pub word : ℕ
  pub mnemonic : Text
  pub op_str : Text
  pub annotation : Text

pub data IrOp : Type 0 where
  call : IrOp
  branch : IrOp
  jump : IrOp
  return : IrOp
  load_pool : IrOp
  runtime_check : IrOp
  other : IrOp

pub record LlirInstr : Type 0 where
  pub va : ℕ
  pub op : IrOp
  pub src : Text
  pub target : Text

abbrev pub is_text : Text → String → Bool
is_text t s = t == chars s

-- `rest.trim_end().ends_with(']')`.
unfoldable pub ends_with_bracket : Text → Bool
unfolding trim_start
ends_with_bracket t = elim (trim_start (reverse t)) [ [] ↦ false | c ∷ cs ↦ nat_eq c b']' ]

-- The scratch register that `x15` is compared with.
unfoldable pub compared_register : AsmInstruction → Option Text
unfolding trim
compared_register cmp =
    if is_text cmp.mnemonic "cmp"
    then elim (strip_prefix (chars "x15, ") cmp.op_str) [
      | none ↦ none
      | some tmp ↦
          if is_text (trim tmp) "x16" || is_text (trim tmp) "x17" then some (trim tmp) else none
    ]
    else none

-- A load of a field of `x26` into that register.
unfoldable pub loads_thread_field : Text → AsmInstruction → Bool
unfolding ends_with_bracket
loads_thread_field tmp ldr = is_text ldr.mnemonic "ldr" && elim (strip_prefix tmp ldr.op_str) [
  | none ↦ false
  | some rest ↦ elim (strip_prefix (chars ", [x26,") rest) [
    | none ↦ false
    | some field ↦ ends_with_bracket field
  ]
]

-- `stack_overflow_check_at` on three instructions that follow one another.
unfoldable pub is_check : AsmInstruction → AsmInstruction → AsmInstruction → Bool
unfolding compared_register loads_thread_field
is_check ldr cmp br = elim (compared_register cmp) [
  | none ↦ false
  | some tmp ↦ loads_thread_field tmp ldr && is_text br.mnemonic "b.ls"
]

-- `stack_overflow_check_at(instrs, cmp_idx).is_some()`, the group then being the three indices
-- around `cmp_idx`; its first index underflows or an instruction is missing at the ends.
unfoldable pub check_at : List AsmInstruction → ℕ → Bool
unfolding is_check
check_at instrs zero = false
check_at instrs (suc before) = elim (get_elem? instrs before) [
  | none ↦ false
  | some ldr ↦ elim (get_elem? instrs (suc before)) [
    | none ↦ false
    | some cmp ↦ elim (get_elem? instrs (suc (suc before))) [
      | none ↦ false
      | some br ↦ is_check ldr cmp br
    ]
  ]
]

-- `runtime_check[idx]`: a group is found at the index before, the index itself or the index after.
unfoldable pub is_runtime_check : List AsmInstruction → ℕ → Bool
unfolding check_at
is_runtime_check instrs idx =
    check_at instrs (suc idx)
    || check_at instrs idx
    || (if nat_eq idx 0 then false else check_at instrs (idx - 1))

abbrev pub printed : AsmInstruction → Text
printed ins = if is_empty ins.op_str then ins.mnemonic else ins.mnemonic ++ chars " " ++ ins.op_str

abbrev pub is_pool_load : AsmInstruction → Bool
is_pool_load ins =
    is_text ins.mnemonic "ldr"
    && (starts_with (chars "pool[") ins.annotation || starts_with (chars "poolOff[") ins.annotation)

abbrev pub is_branch : Text → Bool
is_branch m =
    is_text m "b.cond"
    || starts_with (chars "b.") m
    || is_text m "cbz"
    || is_text m "cbnz"
    || is_text m "tbz"
    || is_text m "tbnz"

-- The `match` on the mnemonic.
unfoldable pub lifted : AsmInstruction → LlirInstr
lifted ins =
    if is_text ins.mnemonic "bl" || is_text ins.mnemonic "blr"
    then record { va = ins.va; op = call; src = printed ins; target = ins.op_str }
    else if is_branch ins.mnemonic
    then record { va = ins.va; op = branch; src = printed ins; target = ins.op_str }
    else if is_text ins.mnemonic "b"
    then record { va = ins.va; op = jump; src = printed ins; target = ins.op_str }
    else if is_text ins.mnemonic "ret"
    then record { va = ins.va; op = return; src = printed ins; target = [] }
    else if is_pool_load ins
    then record { va = ins.va; op = load_pool; src = ins.op_str; target = ins.annotation }
    else record { va = ins.va; op = other; src = printed ins; target = [] }

-- The early return for an instruction of a check.
unfoldable pub marked_check : AsmInstruction → LlirInstr
marked_check ins = record {
  va = ins.va;
  op = runtime_check;
  src = printed ins ++ chars " /* dart stack-overflow check */";
  target = ins.op_str;
}

-- The closure of `map`, from an index on.
unfoldable pub lift_from : List AsmInstruction → ℕ → List AsmInstruction → List LlirInstr
unfolding is_runtime_check lifted marked_check
lift_from instrs idx [] = []
lift_from instrs idx (ins ∷ rest) =
    (if is_runtime_check instrs idx then marked_check ins else lifted ins)
    ∷ lift_from instrs (suc idx) rest

unfoldable pub llir_from_disasm : List AsmInstruction → List LlirInstr
unfolding lift_from
llir_from_disasm instrs = lift_from instrs 0 instrs
