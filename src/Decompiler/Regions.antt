-- ===== src/Decompiler/Regions.antt =====
-- crates/flutterdec-decompiler/src/control_flow/regions.rs: the first part of `Regions::build`, from
-- the blocks of a function to the graph of its reachable blocks. A vector that is indexed by block
-- is the function of the index, and a vector of flags is the list of the indexes that are set.
pub mod Reach
pub mod Ascending
pub mod BlockEdges
pub mod Predecessors
pub mod Graph
use flutterdec.Common.{
  contains, length, keep, ltb, leb, nat_eq, if◌then◌else◌, ℕ, zero, suc, not, Option, none, some,
  List, ◌∷◌, ◌++◌, [], ℕ_eq, List_eq, Option_eq, ℕ_order, Text_order, Eq,
}

-- What `build` reads of a block of the intermediate representation.
pub record Block : Type 0 where
  pub id : ℕ
  pub succs : List ℕ

abbrev pub Edges : Type 0
Edges = ℕ → List ℕ

-- `edges[i] = xs`.
abbrev pub put : Edges → ℕ → List ℕ → Edges
put edges i xs j = if nat_eq j i then xs else edges j

-- The loop over the blocks that fills `succs`.
unfoldable pub fill : ℕ → List Block → Edges → Option Edges
fill n [] succs = some succs
fill n (b ∷ bs) succs =
    let rest = fill n bs (put succs b.id (keep (λ s. ltb s n) b.succs)) in
    if leb n b.id then none else rest

-- The loop over `succs[u]`: what was not reached before is marked and pushed.
unfoldable pub visit : List ℕ → List ℕ × List ℕ → List ℕ × List ℕ
visit [] found = found
visit (v ∷ vs) (reachable, stack) =
    if contains reachable v
    then visit vs (reachable, stack)
    else visit vs (v ∷ reachable, v ∷ stack)

-- `while let Some(u) = stack.pop()`; `none` when the fuel runs out.
unfoldable pub search : ℕ → Edges → List ℕ × List ℕ → Option (List ℕ)
unfolding visit
search zero succs found = none
search (suc fuel) succs (reachable, []) = some reachable
search (suc fuel) succs (reachable, u ∷ stack) =
    search fuel succs (visit (succs u) (reachable, stack))

-- One round for each of the `n` blocks, and one to find the stack empty.
unfoldable pub reachable_from : ℕ → Edges → Option (List ℕ)
unfolding search
reachable_from n succs = search (suc n) succs (0 ∷ [], 0 ∷ [])

-- `succs[u].clear()` for each block that is not reachable.
abbrev pub restrict : List ℕ → Edges → Edges
restrict reachable succs u = if contains reachable u then succs u else []

-- `preds[v].push(u)` for each `v` of a list.
unfoldable pub push_all : ℕ → List ℕ → Edges → Edges
push_all u [] preds = preds
push_all u (v ∷ vs) preds = push_all u vs (put preds v (preds v ++ u ∷ []))

-- The loop `for u in 0..n` over the reachable blocks.
unfoldable pub predecessors_below : ℕ → List ℕ → Edges → Edges
unfolding push_all
predecessors_below zero reachable succs = λ v. []
predecessors_below (suc u) reachable succs =
    let before = predecessors_below u reachable succs in
    if contains reachable u then push_all u (succs u) before else before

pub record BlockGraph : Type 0 where
  pub succs : Edges
  pub preds : Edges
  pub reachable : List ℕ

abbrev pub graph_of : ℕ → Edges → Option (List ℕ) → Option BlockGraph
graph_of n succs none = none
graph_of n succs (some reachable) = some (record {
  succs = restrict reachable succs;
  preds = predecessors_below n reachable (restrict reachable succs);
  reachable = reachable;
})

abbrev pub graph_of_edges : ℕ → Option Edges → Option BlockGraph
graph_of_edges n none = none
graph_of_edges n (some succs) = graph_of n succs (reachable_from n succs)

unfoldable pub build_graph : List Block → Option BlockGraph
unfolding fill reachable_from predecessors_below
build_graph [] = none
build_graph (b ∷ bs) = graph_of_edges (length (b ∷ bs)) (fill (length (b ∷ bs)) (b ∷ bs) (λ u. []))
