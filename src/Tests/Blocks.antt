-- ===== src/Tests/Blocks.antt =====
-- The graph of a loop with a block that nothing leads to.
use mathlib.Core.List.Memᴰ
use flutterdec.Common.{
  length, All, ltb, if◌then◌else◌, Bool-cases, ℕ, ◌<◌, ◌≡◌, refl, ◌↔◌, inl, inr, some, List, ◌∷◌,
  Memᴰ, arith, [], ℕ_eq, List_eq, Option_eq, ℕ_order, Text_order,
}
use flutterdec.Decompiler.Regions.{
  Edges, Block, BlockGraph, visit, search, reachable_from, build_graph,
}
use flutterdec.Decompiler.Regions.Reach.{Leads, IsBounded, reachable_iff}
use flutterdec.Decompiler.Regions.Graph.{IsGraph, IsGraphOf, build_graph_iff}

abbrev blocks : List Block
blocks =
    record { id = 0; succs = 1 ∷ [] }
    ∷ record { id = 1; succs = 1 ∷ 2 ∷ 9 ∷ [] }
    ∷ record { id = 2; succs = [] }
    ∷ record { id = 3; succs = 2 ∷ [] }
    ∷ []

abbrev edges : Edges
edges u = if ltb u 2 then 1 ∷ [] else []

edges-IsBounded : IsBounded 4 edges
edges-IsBounded u v m = elim (Bool-cases (ltb u 2)) [
  | inl near ↦ omega (arith, Memᴰ.eq_of_singleton (rw near at m))
  | inr far ↦ absurd (Memᴰ.not-nil (rw far at m))
]

found : reachable_from 4 edges ≡ some (1 ∷ 0 ∷ [])
unfolding reachable_from search visit
found = refl

reachable_iff_example :
    (out : List ℕ) × (reachable_from 4 edges ≡ some out) × ((v : ℕ) → Memᴰ v out ↔ Leads edges 0 v)
reachable_iff_example = reachable_iff 4 edges (omega arith) edges-IsBounded

build_graph_iff_example :
    (((g : BlockGraph) × (build_graph blocks ≡ some g))
      ↔ ((0 < length blocks) × All (λ (b : Block). b.id < length blocks) blocks))
    × ((g : BlockGraph)
        → build_graph blocks ≡ some g
        → IsGraph (length blocks) g × IsGraphOf blocks g)
build_graph_iff_example = build_graph_iff blocks
