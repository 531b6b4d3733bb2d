-- ===== src/Ir/Functions.antt =====
-- crates/flutterdec-ir/src/lib.rs: `FunctionIr`, `build_function_ir` and `build_program_ir`, and from
-- crates/flutterdec-disasm-arm64/src/lib.rs `FunctionDisassembly` with the label of a function.
use flutterdec.Common.{
  Text, chars, ltb, if◌then◌else◌, ℕ, zero, suc, ◌+◌, ◌-◌, ◌/◌, ◌%◌, Option, none, some, List, ◌∷◌,
  ◌++◌, map, [], ℕ_eq, List_eq, Option_eq, ℕ_order, Text_order,
}
use flutterdec.Ir.Instructions.{AsmInstruction}
use flutterdec.Ir.Splitting.{BasicBlock, build_blocks}

pub record FunctionDisassembly : Type 0 where
  pub function_id : ℕ
  pub function_name : Option Text
  pub owner_class : Option Text
  pub entry_va : ℕ
  pub size : ℕ
  pub instructions : List AsmInstruction

abbrev pub hex_digit : ℕ → ℕ
hex_digit d = if ltb d 10 then b'0' + d else b'a' + (d - 10)

-- The digits of a number below 16 ^ fuel, without leading zeros.
unfoldable pub hex_text : ℕ → ℕ → Text
hex_text zero n = []
hex_text (suc fuel) n =
    let front = hex_text fuel (n / 16) in
    if ltb n 16 then hex_digit n ∷ [] else front ++ hex_digit (n % 16) ∷ []

-- `{:x}` of a `u64`, which has 16 digits at most.
abbrev pub lower_hex : ℕ → Text
lower_hex n = hex_text 16 n

unfoldable pub display_name : FunctionDisassembly → Text
unfolding hex_text
display_name d = elim d.function_name [
  | none ↦ chars "fn_0x" ++ lower_hex d.entry_va
  | some name ↦ name
]

abbrev pub owner_label : FunctionDisassembly → Text
owner_label d = elim d.owner_class [ none ↦ [] | some owner ↦ owner ]

pub record FunctionIr : Type 0 where
  pub function_id : ℕ
  pub name : Text
  pub entry_va : ℕ
  pub blocks : List BasicBlock

abbrev pub with_blocks : FunctionDisassembly → Option (List BasicBlock) → Option FunctionIr
with_blocks d none = none
with_blocks d (some blocks) = some (record {
  function_id = d.function_id;
  name = display_name d;
  entry_va = d.entry_va;
  blocks = blocks;
})

-- `none` when the fuel of a search runs out.
unfoldable pub build_function_ir : FunctionDisassembly → Option FunctionIr
unfolding build_blocks
build_function_ir d = with_blocks d (build_blocks d.instructions)

unfoldable pub build_program_ir : List FunctionDisassembly → List (Option FunctionIr)
unfolding build_function_ir
build_program_ir disasm = map build_function_ir disasm
