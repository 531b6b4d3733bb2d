-- ===== src/Decompiler/Regions/Graph.antt =====
-- The graph that `Regions::build` of crates/flutterdec-decompiler/src/control_flow/regions.rs works
-- on: which functions have one, and what its edges are.
use mathlib.Core.List.Memᴰ
use flutterdec.Common.{
  contains, contains_iff, length, All, IsWeaklyAscending, Bool-cases, ℕ, ◌<◌, ◌≡◌, refl, ap, subst,
  ◌↔◌, inl, inr, Option, none, some, List, ◌∷◌, Memᴰ, arith, [], ℕ_eq, List_eq, Option_eq, ℕ_order,
  Text_order,
}
use flutterdec.Decompiler.Regions.{
  Edges, Block, BlockGraph, fill, restrict, reachable_from, graph_of, graph_of_edges, build_graph,
}
use flutterdec.Decompiler.Regions.BlockEdges.{
  IsEdge, Route, start, along, fill-IsBounded, fill_iff, fill_edges,
}
use flutterdec.Decompiler.Regions.Ascending.{predecessors-IsWeaklyAscending}
use flutterdec.Decompiler.Regions.Predecessors.{predecessors_iff}
use flutterdec.Decompiler.Regions.Reach.{Leads, stay, step, IsBounded, reachable_iff}

-- A path along the edges is one along the edges of the blocks that it reaches.
restricted :
    (succs : Edges) (r : List ℕ)
    → ((v : ℕ) → Memᴰ v r ↔ Leads succs 0 v)
    → {u : ℕ} {v : ℕ} → Leads succs u v
    → u ≡ 0
    → Leads (restrict r succs) u v
restricted succs r found stay e = stay
restricted succs r found (step {u = u} {v = v} {w = w} p m) e =
    let there = (contains_iff r v).1 ((found v).1 (subst (λ x. Leads succs x v) e p)) in
    step (restricted succs r found p e) (rw there m)

unrestricted :
    (succs : Edges) (r : List ℕ) {u : ℕ} {v : ℕ} → Leads (restrict r succs) u v → Leads succs u v
unrestricted succs r stay = stay
unrestricted succs r (step {v = v} p m) = elim (Bool-cases (contains r v)) [
  | inl on ↦ step (unrestricted succs r p) (rw on at m)
  | inr off ↦ absurd (Memᴰ.not-nil (rw off at m))
]

led_below :
    (n : ℕ) (succs : Edges)
    → 0 < n
    → IsBounded n succs
    → {u : ℕ} {v : ℕ} → Leads succs u v
    → u ≡ 0
    → v < n
led_below n succs h b stay e = rw e h
led_below n succs h b (step {v = v} {w = w} p m) e = b v w m

-- What structuring relies on: the marked blocks are the ones that the entry leads to, and the
-- predecessors are the edges the other way round.
pub record IsGraph (n : ℕ) (g : BlockGraph) : Type 0 where
  pub reachable : (v : ℕ) → Memᴰ v g.reachable ↔ Leads g.succs 0 v
  pub inverse : (u v : ℕ) → Memᴰ u (g.preds v) ↔ Memᴰ v (g.succs u)
  pub ordered : (v : ℕ) → IsWeaklyAscending (g.preds v)
  pub inside : (v : ℕ) → Memᴰ v g.reachable → v < n
  pub only_reachable : (u v : ℕ) → Memᴰ v (g.succs u) → Memᴰ u g.reachable

-- The graph is the one of the blocks: it marks the blocks that the entry leads to along the edges of
-- the blocks, and its edges are those edges of the blocks that start at a marked block.
pub record IsGraphOf (blocks : List Block) (g : BlockGraph) : Type 0 where
  pub marked : (v : ℕ) → Memᴰ v g.reachable ↔ Route blocks 0 v
  pub edges : (u v : ℕ) → Memᴰ v (g.succs u) ↔ (Memᴰ u g.reachable × IsEdge blocks u v)

module _ (blocks : List Block) (succs : Edges)
    (same : (u v : ℕ) → Memᴰ v (succs u) ↔ IsEdge blocks u v) where
  Leads-Route : {u : ℕ} {v : ℕ} → Leads succs u v → Route blocks u v
  Leads-Route stay = start
  Leads-Route (step {v = v} {w = w} p m) = along (Leads-Route p) ((same v w).0 m)

  Route-Leads : {u : ℕ} {v : ℕ} → Route blocks u v → Leads succs u v
  Route-Leads start = stay
  Route-Leads (along {v = v} {w = w} p m) = step (Route-Leads p) ((same v w).1 m)

mem-restrict :
    (succs : Edges) (r : List ℕ) (u v : ℕ)
    → Memᴰ v (restrict r succs u) ↔ (Memᴰ u r × Memᴰ v (succs u))
mem-restrict succs r u v = elim (Bool-cases (contains r u)) [
  | inl on ↦ rw on (λ m. ((contains_iff r u).0 on, m), λ m. m.1)
  | inr off ↦
      rw off (λ m. absurd (Memᴰ.not-nil m), λ m. let on = (contains_iff r u).1 m.0 in absurd (cc))
]

graph_of-IsGraph :
    (blocks : List Block) (succs : Edges)
    → 0 < length blocks
    → IsBounded (length blocks) succs
    → ((u v : ℕ) → Memᴰ v (succs u) ↔ IsEdge blocks u v)
    → (g : BlockGraph) × (graph_of (length blocks) succs (reachable_from (length blocks) succs)
        ≡ some g)
      × IsGraph (length blocks) g
      × IsGraphOf blocks g
graph_of-IsGraph blocks succs h b same =
    let n = length blocks in
    let (r, ends, found) = reachable_iff n succs h b in
    let held = mem-restrict succs r in
    let below : (v : ℕ) → Memᴰ v r → v < n = λ v m. led_below n succs h b ((found v).0 m) refl in
    (
      _,
      ap (graph_of n succs) ends,
      record {
        reachable = λ v. (
          λ m. restricted succs r found ((found v).0 m) refl,
          λ p. (found v).1 (unrestricted succs r p),
        );
        inside = below;
        only_reachable = λ u v m. ((held u v).0 m).0;
        ordered = λ v. (predecessors-IsWeaklyAscending n r (restrict r succs) v).0;
        inverse = λ u v.
            let each = predecessors_iff n r (restrict r succs) v u in
            (
              λ m. (each.0 m).2,
              λ m. let (on, _) = (held u v).0 m in each.1 (below u on, (contains_iff r u).1 on, m),
            );
      },
      record {
        marked = λ v. (
          λ m. Leads-Route blocks succs same ((found v).0 m),
          λ p. (found v).1 (Route-Leads blocks succs same p),
        );
        edges = λ u v. (
          λ m. let (on, edge) = (held u v).0 m in (on, (same u v).0 edge),
          λ m. (held u v).1 (m.0, (same u v).1 m.1),
        );
      },
    )

graph_of_edges_iff :
    (blocks : List Block) (o : Option Edges)
    → 0 < length blocks
    → ((e : Edges) → o ≡ some e → IsBounded (length blocks) e)
    → ((e : Edges) → o ≡ some e → (u v : ℕ) → Memᴰ v (e u) ↔ IsEdge blocks u v)
    → (((g : BlockGraph) × (graph_of_edges (length blocks) o ≡ some g))
        ↔ ((e : Edges) × (o ≡ some e)))
      × ((g : BlockGraph)
          → graph_of_edges (length blocks) o ≡ some g
          → IsGraph (length blocks) g × IsGraphOf blocks g)
graph_of_edges_iff blocks none h b w =
    ((λ k. absurd (cc k.1), λ k. absurd (cc k.1)), λ g k. absurd (cc))
graph_of_edges_iff blocks (some e) h b w =
    let (g, made, good, of_blocks) = graph_of-IsGraph blocks e h (b e refl) (w e refl) in
    (
      (λ k. (e, refl), λ k. (g, made)),
      λ g' k.
          let same : g ≡ g' = cc in
          (subst (IsGraph (length blocks)) same good, subst (IsGraphOf blocks) same of_blocks),
    )

-- A function has a graph exactly when it has a block and every block's id is below their number.
-- The graph that is built marks the blocks that the entry, block 0, leads to along the edges of the
-- blocks, and its edges are the edges of the blocks that start at a marked block. Here the blocks
-- have an edge from one id to another exactly when the last block with the first id lists the
-- second among its successors, and the second is below the number of blocks. The predecessors are
-- the graph's edges the other way round, in the order of their ids.
pub build_graph_iff :
    (blocks : List Block)
    → (((g : BlockGraph) × (build_graph blocks ≡ some g))
        ↔ ((0 < length blocks) × All (λ (b : Block). b.id < length blocks) blocks))
      × ((g : BlockGraph)
          → build_graph blocks ≡ some g
          → IsGraph (length blocks) g × IsGraphOf blocks g)
unfolding build_graph
build_graph_iff [] = ((λ h. absurd (cc h.1), λ h. absurd (omega (arith, h.0))), λ g h. absurd (cc))
build_graph_iff (b ∷ bs) =
    let n = length (b ∷ bs) in
    let filled = fill_iff n (b ∷ bs) (λ u. []) in
    let (built, good) =
      graph_of_edges_iff (b ∷ bs) (fill n (b ∷ bs) (λ u. [])) (omega arith)
        (λ e q. fill-IsBounded n (b ∷ bs) (λ u. []) (λ u v m. absurd (Memᴰ.not-nil m)) q)
        (λ e q u v.
          let each = fill_edges n (b ∷ bs) (λ w. []) {out = e} u v q in
          (
            λ m. elim (each.0 m) [ inl a ↦ a | inr a ↦ absurd (Memᴰ.not-nil a.1) ],
            λ m. each.1 (inl m),
          )) in
    ((λ h. (omega arith, filled.0 (built.0 h)), λ h. built.1 (filled.1 h.1)), good)
