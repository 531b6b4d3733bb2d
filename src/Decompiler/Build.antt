-- ===== src/Decompiler/Build.antt =====
-- crates/flutterdec-decompiler/src/control_flow/regions.rs: `Regions`, `Regions::build` and the
-- queries on what it built.
use flutterdec.Common.{
  contains, length, ltb, if◌then◌else◌, Bool-cases, Option-cases, ℕ, ◌≡◌, refl, sym, ap, ◌∙◌, subst,
  ◌↔◌, inl, inr, Bool, Option, none, some, List, ℕ_eq, List_eq, Option_eq, ℕ_order, Text_order,
}
use flutterdec.Decompiler.Regions.{Edges, Block, BlockGraph, build_graph}
use flutterdec.Decompiler.Regions.Graph.{IsGraph, IsGraphOf, build_graph_iff}
use flutterdec.Decompiler.Dominance.{dominators, immediate_post_dominators}
use flutterdec.Decompiler.Dominance.FollowNodes.{follow_nodes_lem}
use flutterdec.Decompiler.Loops.{Bodies, loops_below, loop_follow}
use flutterdec.Decompiler.Loops.Bodies.{natural_loops_iff}
use flutterdec.Decompiler.Irreducible.{is_irreducible}
use flutterdec.Decompiler.Irreducible.Forward.{IsReducible}
use flutterdec.Decompiler.Irreducible.Search.{irreducible_iff}

pub record Regions : Type 0 where
  pub graph : BlockGraph
  pub ipdom : ℕ → Option ℕ
  pub loop_body : Bodies

-- A fuel that ran out is passed on.
abbrev and_then {ℓ κ} : {A : Type ℓ} {B : Type κ} → Option A → (A → Option B) → Option B
and_then none f = none
and_then (some a) f = f a

-- What is computed of a graph that is not irreducible.
abbrev pub structured : ℕ → BlockGraph → Edges → Option (Option Regions)
structured n g dom = and_then (immediate_post_dominators n g.succs g.reachable) λ ipdom.
    and_then (loops_below n n g dom)
      λ bodies. some (some (record { graph = g; ipdom = ipdom; loop_body = bodies }))

abbrev pub facts_of : ℕ → BlockGraph → Option (Option Regions)
facts_of n g = and_then (dominators n g.preds g.reachable) λ dom.
    and_then (is_irreducible n g dom)
      λ irreducible. if irreducible then some none else structured n g dom

abbrev pub facts_of_graph : ℕ → Option BlockGraph → Option (Option Regions)
facts_of_graph n none = some none
facts_of_graph n (some g) = facts_of n g

-- `Regions::build`; the outer `none` when the fuel runs out.
unfoldable pub build_regions : List Block → Option (Option Regions)
build_regions blocks = facts_of_graph (length blocks) (build_graph blocks)

module _ (r : Regions) where
  abbrev pub is_reachable : ℕ → Bool
  is_reachable id = contains r.graph.reachable id

  abbrev pub predecessors : ℕ → List ℕ
  predecessors id = r.graph.preds id

  abbrev pub successors : ℕ → List ℕ
  successors id = r.graph.succs id

  abbrev pub is_join : ℕ → Bool
  is_join id = ltb 1 (length (r.graph.preds id))

  abbrev pub follow_of : ℕ → Option ℕ
  follow_of id = r.ipdom id

  abbrev pub loop_follow_of : ℕ → Option ℕ
  loop_follow_of header = and_then (loop_follow r.graph.succs r.ipdom r.loop_body header) λ o. o

-- The graph behind the facts, and how they were computed from it.
pub record IsRegions (n : ℕ) (r : Regions) : Type 0 where
  pub graph : IsGraph n r.graph
  pub reducible : IsReducible r.graph
  pub dom : Edges
  pub dominates : dominators n r.graph.preds r.graph.reachable ≡ some dom
  pub follows : immediate_post_dominators n r.graph.succs r.graph.reachable ≡ some r.ipdom
  pub loops : loops_below n n r.graph dom ≡ some r.loop_body

facts_of_iff :
    (n : ℕ) (g : BlockGraph)
    → IsGraph n g
    → (o : Option Regions) × (facts_of n g ≡ some o)
      × (((r : Regions) × (o ≡ some r)) ↔ IsReducible g)
      × ((r : Regions) → o ≡ some r → (r.graph ≡ g) × IsRegions n r)
facts_of_iff n g is_graph =
    let (dom, ends, b, searched, decided) = irreducible_iff n g is_graph in
    let (ipdom, found, _, _) = follow_nodes_lem n g is_graph in
    let (dom', ends', bodies, collected, _, _) = natural_loops_iff n g is_graph in
    let same_dom : dom' ≡ dom = cc in
    let collected_here : loops_below n n g dom ≡ some bodies = rw (← same_dom) collected in
    elim (Bool-cases b) [
      | inl yes_b ↦ (
        none,
        rw (ends, searched, yes_b) refl,
        (λ h. absurd (cc h.1), λ h. let no_b = decided.1 h in absurd (cc)),
        λ r e. absurd (cc),
      )
      | inr no_b ↦
          let facts : Regions = record { graph = g; ipdom = ipdom; loop_body = bodies } in
          (
            some facts,
            rw (ends, searched, no_b, found, collected_here) refl,
            (λ h. decided.0 no_b, λ h. (facts, refl)),
            λ r e.
                let same : facts ≡ r = cc in
                (
                  ap (λ (f : Regions). f.graph) (sym same),
                  subst (IsRegions n) same (record {
                    graph = is_graph;
                    reducible = decided.0 no_b;
                    dom = dom;
                    dominates = ends;
                    follows = found;
                    loops = collected_here;
                  }),
                ),
          )
    ]

-- Structuring facts are computed for every function, within the rounds of each loop. There are none
-- exactly when the function has no graph or its graph is irreducible. Otherwise their graph is the
-- one that is built of the function's blocks, whose marked blocks are those that the entry leads to
-- along the edges of the blocks and whose edges are the edges of the blocks from there, and the
-- facts are the dominators', the follow nodes' and the loops' of that graph.
pub build_regions_iff :
    (blocks : List Block)
    → (o : Option Regions) × (build_regions blocks ≡ some o)
      × (((r : Regions) × (o ≡ some r))
          ↔ ((g : BlockGraph) × (build_graph blocks ≡ some g) × IsReducible g))
      × ((r : Regions)
          → o ≡ some r
          → (build_graph blocks ≡ some r.graph)
            × IsGraphOf blocks r.graph
            × IsRegions (length blocks) r)
unfolding build_regions
build_regions_iff blocks =
    let (_, good) = build_graph_iff blocks in
    elim (Option-cases (build_graph blocks)) [
      | inl e ↦ (none, rw e refl, (λ h. absurd (cc h.1), λ h. absurd (cc h.1)), λ r q. absurd (cc))
      | inr (g, e) ↦
          let (is_graph, of_blocks) = good g e in
          let (o, ends, decided, facts) = facts_of_iff (length blocks) g is_graph in
          (
            o,
            rw e ends,
            (
              λ h. (g, e, decided.0 h),
              λ (g', e', h). let same : g' ≡ g = cc in decided.1 (subst IsReducible same h),
            ),
            λ r q.
                let (same, regions) = facts r q in
                (e ∙ ap some (sym same), subst (IsGraphOf blocks) (sym same) of_blocks, regions),
          )
    ]
