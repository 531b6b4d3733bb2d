-- ===== src/Ir/Splitting.antt =====
-- crates/flutterdec-ir/src/lib.rs: `build_function_ir`.
use flutterdec.Common.{
  contains, length, get_elem?, keep, sort, dedup, Text, ltb, leb, nat_eq, if◌then◌else◌, is_some,
  u64_mod, ℕ, suc, ◌-◌, Bool, true, false, not, ◌&&◌, Option, none, some, List, ◌∷◌, ◌++◌, map, [],
  ℕ_eq, List_eq, Option_eq, ℕ_order, Text_order,
}
use flutterdec.Decompiler.Regions.{Edges, reachable_from}
use flutterdec.Ir.Targets.{parse_target_hex}
use flutterdec.Ir.Instructions.{
  AsmInstruction, IrOp, call, branch, jump, return, load_pool, runtime_check, other, LlirInstr,
  llir_from_disasm,
}

pub record BasicBlock : Type 0 where
  pub id : ℕ
  pub start_va : ℕ
  pub instrs : List LlirInstr
  pub succs : List ℕ
  pub preds : List ℕ

abbrev pub to_list {ℓ} : {A : Type ℓ} → Option A → List A
to_list none = []
to_list (some a) = a ∷ []

-- `llir.get(idx + 1)`.
abbrev pub next_va : List LlirInstr → List ℕ
next_va [] = []
next_va (ins ∷ rest) = ins.va ∷ []

-- The leaders that an instruction adds.
unfoldable pub leaders_of : IrOp → Text → List LlirInstr → List ℕ
leaders_of branch target rest = to_list (parse_target_hex target) ++ next_va rest
leaders_of jump target rest = to_list (parse_target_hex target) ++ next_va rest
leaders_of return target rest = next_va rest
leaders_of call target rest = []
leaders_of load_pool target rest = []
leaders_of runtime_check target rest = []
leaders_of other target rest = []

unfoldable pub leaders_from : List LlirInstr → List ℕ
unfolding leaders_of
leaders_from [] = []
leaders_from (ins ∷ rest) = leaders_of ins.op ins.target rest ++ leaders_from rest

-- `leaders.into_iter().collect()`: the set in ascending order.
unfoldable pub leader_vec : List LlirInstr → List ℕ
unfolding leaders_from sort dedup
leader_vec llir = dedup (sort (next_va llir ++ leaders_from llir))

-- `u64::MAX` after the last leader.
abbrev pub block_end : List ℕ → ℕ
block_end [] = u64_mod - 1
block_end (next ∷ rest) = next

abbrev pub in_range : ℕ → ℕ → LlirInstr → Bool
in_range start end ins = leb start ins.va && ltb ins.va end

abbrev pub push_block : ℕ → ℕ → List LlirInstr → (ℕ → List BasicBlock) → List BasicBlock
push_block id start [] rest = rest id
push_block id start (ins ∷ more) rest =
    record { id = id; start_va = start; instrs = ins ∷ more; succs = []; preds = [] }
    ∷ rest (suc id)

-- The loop over the leaders; `id` is `blocks.len()`.
unfoldable pub split_blocks : List LlirInstr → List ℕ → ℕ → List BasicBlock
split_blocks llir [] id = []
split_blocks llir (start ∷ rest) id =
    push_block id start (keep (in_range start (block_end rest)) llir)
      (λ i. split_blocks llir rest i)

-- `start_to_id.get(&t)`: a later block replaces an earlier one.
unfoldable pub start_to_id : List BasicBlock → ℕ → Option ℕ
start_to_id [] t = none
start_to_id (b ∷ bs) t =
    let later = start_to_id bs t in
    if is_some later then later else if nat_eq b.start_va t then some b.id else none

-- The block that a target names.
unfoldable pub target_block : List BasicBlock → Text → List ℕ
unfolding start_to_id
target_block blocks target = elim (parse_target_hex target) [
  | none ↦ []
  | some t ↦ to_list (start_to_id blocks t)
]

abbrev pub next_id : List BasicBlock → List ℕ
next_id [] = []
next_id (b ∷ bs) = b.id ∷ []

-- The `match` on the last instruction.
unfoldable pub succs_by : List BasicBlock → IrOp → Text → List BasicBlock → List ℕ
unfolding target_block
succs_by blocks branch target rest = target_block blocks target ++ next_id rest
succs_by blocks jump target rest = target_block blocks target
succs_by blocks return target rest = []
succs_by blocks call target rest = next_id rest
succs_by blocks load_pool target rest = next_id rest
succs_by blocks runtime_check target rest = next_id rest
succs_by blocks other target rest = next_id rest

unfoldable pub last_succs : List BasicBlock → List LlirInstr → List BasicBlock → List ℕ
unfolding succs_by
last_succs blocks [] rest = []
last_succs blocks (ins ∷ []) rest = succs_by blocks ins.op ins.target rest
last_succs blocks (ins ∷ next ∷ more) rest = last_succs blocks (next ∷ more) rest

-- The loop that fills `succs`.
unfoldable pub link : List BasicBlock → List BasicBlock → List BasicBlock
unfolding last_succs sort dedup
link blocks [] = []
link blocks (b ∷ bs) =
    record {
      id = b.id;
      start_va = b.start_va;
      instrs = b.instrs;
      succs = dedup (sort (last_succs blocks b.instrs bs));
      preds = b.preds;
    }
    ∷ link blocks bs

-- The targets of the runtime checks of a block.
unfoldable pub guard_targets : List BasicBlock → List LlirInstr → List ℕ
unfolding target_block
guard_targets blocks [] = []
guard_targets blocks (ins ∷ rest) = elim ins.op [
  | runtime_check ↦ target_block blocks ins.target ++ guard_targets blocks rest
  | call ↦ guard_targets blocks rest
  | branch ↦ guard_targets blocks rest
  | jump ↦ guard_targets blocks rest
  | return ↦ guard_targets blocks rest
  | load_pool ↦ guard_targets blocks rest
  | other ↦ guard_targets blocks rest
]

-- `blocks.iter().position(|b| b.id == s)`.
unfoldable pub position : List BasicBlock → ℕ → Option ℕ
position [] s = none
position (b ∷ bs) s =
    if nat_eq b.id s then some 0 else elim (position bs s) [ none ↦ none | some i ↦ some (suc i) ]

unfoldable pub positions : List BasicBlock → List ℕ → List ℕ
unfolding position
positions blocks [] = []
positions blocks (s ∷ ss) = to_list (position blocks s) ++ positions blocks ss

-- The blocks that the closure `reach` visits from a block.
unfoldable pub edges_of : List BasicBlock → Bool → Option BasicBlock → List ℕ
unfolding positions guard_targets
edges_of blocks extra none = []
edges_of blocks extra (some b) =
    positions blocks (b.succs ++ (if extra then guard_targets blocks b.instrs else []))

abbrev pub reach_edges : List BasicBlock → Bool → Edges
reach_edges blocks extra i = edges_of blocks extra (get_elem? blocks i)

-- `reach(&blocks, extra)`, as the list of the indexes that are set.
unfoldable pub reach : List BasicBlock → Bool → Option (List ℕ)
unfolding reachable_from edges_of
reach [] extra = some []
reach (b ∷ bs) extra = reachable_from (length (b ∷ bs)) (reach_edges (b ∷ bs) extra)

-- The blocks from index `i` on that are kept.
unfoldable pub kept_from : List ℕ → List ℕ → ℕ → List BasicBlock → List BasicBlock
kept_from with_guard without_guard i [] = []
kept_from with_guard without_guard i (b ∷ bs) =
    let rest = kept_from with_guard without_guard (suc i) bs in
    if contains with_guard i && not (contains without_guard i) then rest else b ∷ rest

-- `remap` of the kept blocks is `position`; `b.id = i` and `filter_map(|s| remap.get(s))`.
unfoldable pub renumber : List BasicBlock → ℕ → List BasicBlock → List BasicBlock
unfolding positions
renumber kept i [] = []
renumber kept i (b ∷ bs) =
    record {
      id = i;
      start_va = b.start_va;
      instrs = b.instrs;
      succs = positions kept b.succs;
      preds = b.preds;
    }
    ∷ renumber kept (suc i) bs

-- `target.preds.push(pred_id)` for each edge to the block with id `s`.
unfoldable pub pushed_preds : ℕ → List BasicBlock → List ℕ
pushed_preds s [] = []
pushed_preds s (p ∷ ps) = map (λ t. p.id) (keep (λ t. nat_eq t s) p.succs) ++ pushed_preds s ps

unfoldable pub fill_preds : List BasicBlock → List BasicBlock → List BasicBlock
unfolding pushed_preds sort dedup
fill_preds blocks [] = []
fill_preds blocks (b ∷ bs) =
    record {
      id = b.id;
      start_va = b.start_va;
      instrs = b.instrs;
      succs = b.succs;
      preds = dedup (sort (b.preds ++ pushed_preds b.id blocks));
    }
    ∷ fill_preds blocks bs

unfoldable pub finish : List BasicBlock → List BasicBlock
unfolding renumber fill_preds
finish kept = fill_preds (renumber kept 0 kept) (renumber kept 0 kept)

-- The blocks before the elided slow paths are dropped.
unfoldable pub linked_blocks : List LlirInstr → List BasicBlock
unfolding split_blocks leader_vec link
linked_blocks llir = let blocks = split_blocks llir (leader_vec llir) 0 in link blocks blocks

abbrev pub dropped : List BasicBlock → Option (List ℕ) → Option (List ℕ) → Option (List BasicBlock)
dropped blocks none without_guard = none
dropped blocks (some a) none = none
dropped blocks (some a) (some b) = some (finish (kept_from a b 0 blocks))

-- The blocks of `build_function_ir`; `none` when the fuel of a search runs out.
unfoldable pub build_blocks : List AsmInstruction → Option (List BasicBlock)
unfolding linked_blocks reach kept_from finish llir_from_disasm
build_blocks instrs =
    let blocks = linked_blocks (llir_from_disasm instrs) in
    dropped blocks (reach blocks true) (reach blocks false)
