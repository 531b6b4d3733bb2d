-- ===== src/Decompiler/FromIr.antt =====
-- `Regions::build` of crates/flutterdec-decompiler/src/control_flow/regions.rs on the blocks that
-- crates/flutterdec-ir/src/lib.rs builds.

use flutterdec.Common.{
  length, get_elem?, All, ℕ, suc, ◌+◌, ◌≤◌, ◌<◌, ◌≡◌, refl, ap, ◌↔◌, Option, some, List, ◌∷◌, map,
  arith, [], ℕ_eq, List_eq, Option_eq, ℕ_order, Text_order,
}
use flutterdec.Ir.Instructions.{AsmInstruction}
use flutterdec.Ir.Splitting.{BasicBlock, build_blocks}
use flutterdec.Ir.Numbering.{IsNumbered}
use flutterdec.Ir.Dropping.{build_blocks_iff}
use flutterdec.Decompiler.Regions.{Block, BlockGraph, build_graph}
use flutterdec.Decompiler.Regions.Graph.{build_graph_iff}
use flutterdec.Decompiler.Irreducible.Forward.{IsReducible}
use flutterdec.Decompiler.Build.{Regions, build_regions, build_regions_iff}

-- What `build` reads of a block.
abbrev pub region_block : BasicBlock → Block
region_block b = record { id = b.id; succs = b.succs }

length-map : (f : BasicBlock → Block) (bs : List BasicBlock) → length (map f bs) ≡ length bs
length-map f [] = refl
length-map f (b ∷ bs) = ap suc (length-map f bs)

ids_below :
    (n k : ℕ) (bs : List BasicBlock)
    → ((i : ℕ) (b : BasicBlock) → get_elem? bs i ≡ some b → b.id ≡ k + i)
    → k + length bs ≤ n
    → All (λ (b : Block). b.id < n) (map region_block bs)
ids_below n k [] h l = tt
ids_below n k (b ∷ bs) h l = (
  omega (arith, h 0 b refl),
  ids_below n (suc k) bs (λ i c at. omega (arith, h (suc i) c at)) (omega arith),
)

-- The blocks of a function that has any have a graph.
graph_of_ir :
    (out : List BasicBlock)
    → IsNumbered out
    → ((g : BlockGraph) × (build_graph (map region_block out) ≡ some g)) ↔ (0 < length out)
graph_of_ir out numbered =
    let bs = map region_block out in
    let (has, _) = build_graph_iff bs in
    let count : length bs ≡ length out = length-map region_block out in
    (
      λ h. let (l, _) = has.0 h in omega (arith, count),
      λ l. has.1 (
        omega (arith, count),
        ids_below (length bs) 0 out (λ i b at. omega (arith, numbered.ids i b at))
            (omega (arith, count)),
      ),
    )

-- From the instructions of a function, its blocks and the facts of its regions are computed. There is
-- a graph exactly when there is a block, and there are facts exactly when the graph is reducible.
pub regions_of_instructions :
    (instrs : List AsmInstruction)
    → (out : List BasicBlock) × (build_blocks instrs ≡ some out)
      × (((g : BlockGraph) × (build_graph (map region_block out) ≡ some g)) ↔ (0 < length out))
      × (o : Option Regions) × (build_regions (map region_block out) ≡ some o)
      × (((r : Regions) × (o ≡ some r))
          ↔ ((g : BlockGraph) × (build_graph (map region_block out) ≡ some g) × IsReducible g))
regions_of_instructions instrs =
    let (out, ends, numbered, _) = build_blocks_iff instrs in
    let (o, built, decided, _) = build_regions_iff (map region_block out) in
    (out, ends, graph_of_ir out numbered, o, built, decided)
