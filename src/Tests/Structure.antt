-- ===== src/Tests/Structure.antt =====
-- The regions of a function with a loop and a block that nothing leads to.

use flutterdec.Common.{
  length, sort, dedup, nat_eq, if◌then◌else◌, ℕ, ◌≡◌, refl, sym, ◌↔◌, ◌⊎◌, inl, Bool, true, false,
  Option, none, some, List, ◌∷◌, Memᴰ, [], ℕ_eq, List_eq, Option_eq, ℕ_order, Text_order,
}
use flutterdec.Decompiler.Regions.{
  Edges, Block, BlockGraph, build_graph, fill, reachable_from, search, visit, predecessors_below,
  push_all,
}
use flutterdec.Decompiler.Regions.Graph.{IsGraph, IsGraphOf, build_graph_iff}
use flutterdec.Decompiler.Dominance.{dominators, post_dominators, immediate_post_dominators}
use flutterdec.Decompiler.Dominance.Dominators.{Avoids, start, go, dominators_iff}
use flutterdec.Decompiler.Dominance.PostDominators.{Escapes, post_dominators_iff}
use flutterdec.Decompiler.Dominance.Escaping.{Ends, last, onward}
use flutterdec.Decompiler.Dominance.FollowNodes.{IsBehind, IsFollow, IsFollow-iff}
use flutterdec.Decompiler.Loops.{Bodies, loops_below, is_loop_header, in_loop, loop_follow}
use flutterdec.Decompiler.Loops.Collect.{Around}
use flutterdec.Decompiler.Loops.Sources.{IsBackEdge}
use flutterdec.Decompiler.Loops.Bodies.{natural_loops_iff, loop_entered_at_header}
use flutterdec.Decompiler.Loops.Exits.{LeavesLoop, loop_follow_leaves}
use flutterdec.Decompiler.Irreducible.{is_irreducible}
use flutterdec.Decompiler.Irreducible.Forward.{IsReducible}
use flutterdec.Decompiler.Irreducible.Search.{irreducible_iff}
use flutterdec.Decompiler.Build.{Regions, IsRegions, build_regions, build_regions_iff}

abbrev blocks : List Block
blocks =
    record { id = 0; succs = 1 ∷ [] }
    ∷ record { id = 1; succs = 1 ∷ 2 ∷ 9 ∷ [] }
    ∷ record { id = 2; succs = [] }
    ∷ record { id = 3; succs = 2 ∷ [] }
    ∷ []

abbrev or_empty : Option BlockGraph → BlockGraph
or_empty none = record { succs = λ u. []; preds = λ u. []; reachable = [] }
or_empty (some g) = g

sample : BlockGraph
sample = or_empty (build_graph blocks)

made : build_graph blocks ≡ some sample
unfolding build_graph fill reachable_from search visit sample predecessors_below push_all
made = refl

sample-IsGraph : IsGraph 4 sample
sample-IsGraph = ((build_graph_iff blocks).1 sample made).0

edge : Memᴰ 1 (sample.succs 0)
unfolding build_graph fill reachable_from search visit sample
edge = Memᴰ.head refl

self_edge : Memᴰ 1 (sample.succs 1)
unfolding build_graph fill reachable_from search visit sample
self_edge = Memᴰ.head refl

exit_edge : Memᴰ 2 (sample.succs 1)
unfolding build_graph fill reachable_from search visit sample
exit_edge = Memᴰ.tail (Memᴰ.head refl)

no_edge : sample.succs 2 ≡ []
unfolding build_graph fill reachable_from search visit sample
no_edge = refl

dominators_iff_example :
    (dom : Edges) × (dominators 4 sample.preds sample.reachable ≡ some dom)
    × ((u v : ℕ) → Memᴰ v (dom u) ↔ (Memᴰ u sample.reachable × (¬ Avoids sample.succs v u)))
dominators_iff_example = dominators_iff 4 sample sample-IsGraph

post_dominators_iff_example :
    (pdom : Edges) × (post_dominators 4 sample.succs sample.reachable ≡ some pdom)
    × ((u v : ℕ)
        → Memᴰ v (pdom u)
          ↔ (Memᴰ u sample.reachable × Memᴰ v sample.reachable × (¬ Escapes sample.succs v u)))
post_dominators_iff_example = post_dominators_iff 4 sample sample-IsGraph

ending : Ends sample.succs 0
ending = onward edge (onward exit_edge (last no_edge))

IsFollow-iff_example :
    (follow : ℕ → Option ℕ) × (immediate_post_dominators 4 sample.succs sample.reachable
      ≡ some follow)
    × ((follow 0 ≡ none) ↔ ((p : ℕ) → ¬ IsBehind sample 0 p))
    × ((f : ℕ) → (follow 0 ≡ some f) ↔ IsFollow sample 0 f)
IsFollow-iff_example = IsFollow-iff 4 sample sample-IsGraph 0 ending

natural_loops_iff_example :
    (dom : Edges) × (dominators 4 sample.preds sample.reachable ≡ some dom)
    × (bodies : Bodies) × (loops_below 4 4 sample dom ≡ some bodies)
    × ((h : ℕ) → (is_loop_header bodies h ≡ true) ↔ ((u : ℕ) × IsBackEdge sample u h))
    × ((h x : ℕ)
        → (in_loop bodies h x ≡ true)
          ↔ ((u : ℕ) × IsBackEdge sample u h × ((x ≡ h) ⊎ Around sample.preds h x u)))
natural_loops_iff_example = natural_loops_iff 4 sample sample-IsGraph

dom_sets : Edges
dom_sets = (natural_loops_iff 4 sample sample-IsGraph).0

dom_found : dominators 4 sample.preds sample.reachable ≡ some dom_sets
unfolding dom_sets
dom_found = (natural_loops_iff 4 sample sample-IsGraph).1

bodies : Bodies
bodies = (natural_loops_iff 4 sample sample-IsGraph).2

bodies_found : loops_below 4 4 sample dom_sets ≡ some bodies
unfolding dom_sets bodies
bodies_found = (natural_loops_iff 4 sample sample-IsGraph).3

own_path : {u : ℕ} → Avoids sample.succs 1 u → u ≡ 1 → ⊥
own_path (start e d) q = d (sym q)
own_path (go a m d) q = d (sym q)

own_header : in_loop bodies 1 1 ≡ true
unfolding bodies
own_header =
    ((natural_loops_iff 4 sample sample-IsGraph).5 1 1).1
      (1, (self_edge, λ a. own_path a refl), inl refl)

loop_entered_at_header_example :
    (¬ Avoids sample.succs 1 1) × ((in_loop bodies 1 0 ≡ true) ⊎ ◌≡◌ {A = ℕ} 1 1)
loop_entered_at_header_example =
    loop_entered_at_header 4 sample sample-IsGraph dom_sets bodies 1 0 1 dom_found bodies_found edge
      own_header

abbrev loop_edges : Edges
loop_edges u = if nat_eq u 1 then 1 ∷ 2 ∷ [] else []

abbrev loop_bodies : Bodies
loop_bodies h = if nat_eq h 1 then some (1 ∷ []) else none

loop_left : loop_follow loop_edges (λ u. none) loop_bodies 1 ≡ some (some 2)
unfolding sort dedup
loop_left = refl

loop_follow_leaves_example :
    (in_loop loop_bodies 1 2 ≡ false)
    × ((LeavesLoop loop_edges loop_bodies 1 2
          × ((t : ℕ) → LeavesLoop loop_edges loop_bodies 1 t → t ≡ 2))
        ⊎ ◌≡◌ {A = Option ℕ} none (some 2))
loop_follow_leaves_example = loop_follow_leaves loop_edges (λ u. none) loop_bodies 1 2 loop_left

irreducible_iff_example :
    (dom : Edges) × (dominators 4 sample.preds sample.reachable ≡ some dom)
    × (b : Bool) × (is_irreducible 4 sample dom ≡ some b)
    × ((b ≡ false) ↔ IsReducible sample)
irreducible_iff_example = irreducible_iff 4 sample sample-IsGraph

build_regions_iff_example :
    (o : Option Regions) × (build_regions blocks ≡ some o)
    × (((r : Regions) × (o ≡ some r))
        ↔ ((g : BlockGraph) × (build_graph blocks ≡ some g) × IsReducible g))
    × ((r : Regions)
        → o ≡ some r
        → (build_graph blocks ≡ some r.graph)
          × IsGraphOf blocks r.graph
          × IsRegions (length blocks) r)
build_regions_iff_example = build_regions_iff blocks
