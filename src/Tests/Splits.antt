-- ===== src/Tests/Splits.antt =====
-- Functions with a stack-overflow check, and with code behind a return.

use flutterdec.Common.{
  length, sort, dedup, chars, ℕ, ◌<◌, String, ◌≡◌, refl, ◌↔◌, Option, some, List, ◌∷◌, map, Memᴰ,
  arith, [], ℕ_eq, List_eq, Option_eq, ℕ_order, Text_order,
}
use flutterdec.Ir.Instructions.{AsmInstruction, return, other, LlirInstr, llir_from_disasm}
use flutterdec.Ir.Splitting.{
  BasicBlock, build_blocks, linked_blocks, leader_vec, leaders_from, leaders_of, split_blocks, link,
  last_succs, succs_by,
}
use flutterdec.Ir.Numbering.{IsNumbered}
use flutterdec.Ir.Dropping.{Kept, Stays, build_blocks_iff}
use flutterdec.Ir.Partition.{Ascends, collected}
use flutterdec.Ir.Coverage.{IsInOrder, IsElided, collected-build_blocks}
use flutterdec.Ir.Terminators.{IsStraight, linked_blocks-IsStraight}
use flutterdec.Decompiler.Regions.{BlockGraph, build_graph}
use flutterdec.Decompiler.Irreducible.Forward.{IsReducible}
use flutterdec.Decompiler.Build.{Regions, build_regions}
use flutterdec.Decompiler.FromIr.{region_block, regions_of_instructions}

abbrev ins : ℕ → String → String → AsmInstruction
ins va mnemonic op_str = record {
  va = va;
  word = 0;
  mnemonic = chars mnemonic;
  op_str = chars op_str;
  annotation = [];
}

abbrev guarded : List AsmInstruction
guarded =
    ins 0x1000 "ldr" "x16, [x26, #0x38]"
    ∷ ins 0x1004 "cmp" "x15, x16"
    ∷ ins 0x1008 "b.ls" "#0x1014"
    ∷ ins 0x100c "mov" "x0, x1"
    ∷ ins 0x1010 "ret" ""
    ∷ ins 0x1014 "bl" "#0x9000"
    ∷ ins 0x1018 "b" "#0x100c"
    ∷ []

build_blocks_iff_example :
    (out : List BasicBlock) × (build_blocks guarded ≡ some out)
    × IsNumbered out
    × ((start : ℕ) (part : List LlirInstr)
        → Kept out start part ↔ Stays (linked_blocks (llir_from_disasm guarded)) start part)
build_blocks_iff_example = build_blocks_iff guarded

abbrev two : List LlirInstr
two =
    record { va = 4; op = return; src = chars "ret"; target = [] }
    ∷ record { va = 8; op = other; src = chars "nop"; target = [] }
    ∷ []

abbrev first_block : BasicBlock
first_block = record {
  id = 0;
  start_va = 4;
  instrs = record { va = 4; op = return; src = chars "ret"; target = [] } ∷ [];
  succs = [];
  preds = [];
}

two-Ascends : Ascends two
two-Ascends = ((omega arith, tt), (tt, tt))

guarded-IsInOrder : IsInOrder guarded
guarded-IsInOrder = ground arith

collected-build_blocks_example :
    (out : List BasicBlock) × (build_blocks guarded ≡ some out)
    × (collected (linked_blocks (llir_from_disasm guarded)) ≡ llir_from_disasm guarded)
    × Ascends (collected out)
    × ((x : LlirInstr)
        → Memᴰ x (collected out) ↔ (
            Memᴰ x (llir_from_disasm guarded)
            × (¬ IsElided (linked_blocks (llir_from_disasm guarded)) x)))
collected-build_blocks_example = collected-build_blocks guarded guarded-IsInOrder

first_there : Memᴰ first_block (linked_blocks two)
unfolding linked_blocks leader_vec leaders_from leaders_of split_blocks link last_succs succs_by
    sort dedup
first_there = Memᴰ.head refl

linked_blocks-IsStraight_example : IsStraight first_block.instrs
linked_blocks-IsStraight_example = linked_blocks-IsStraight two first_block two-Ascends first_there

regions_of_instructions_example :
    (out : List BasicBlock) × (build_blocks guarded ≡ some out)
    × (((g : BlockGraph) × (build_graph (map region_block out) ≡ some g)) ↔ (0 < length out))
    × (o : Option Regions) × (build_regions (map region_block out) ≡ some o)
    × (((r : Regions) × (o ≡ some r))
        ↔ ((g : BlockGraph) × (build_graph (map region_block out) ≡ some g) × IsReducible g))
regions_of_instructions_example = regions_of_instructions guarded
