-- ===== src/Decompiler/Dominance/Dominators.antt =====
-- `dominators` of crates/flutterdec-decompiler/src/control_flow/regions.rs and the paths of the
-- graph.
use mathlib.Core.List.Memᴰ
use flutterdec.Common.{
  contains, contains_iff, keep, mem-keep, nat_eq, nat_eq_iff, Bool-cases, ℕ, ◌<◌, ◌≡◌, refl, sym,
  ap, ◌∙◌, ◌≢◌, ◌↔◌, ◌⊎◌, inl, inr, false, not, some, List, ◌∷◌, Memᴰ, arith, [], ℕ_eq, List_eq,
  Option_eq, ℕ_order, Text_order,
}
use flutterdec.Decompiler.Regions.{Edges, BlockGraph, put}
use flutterdec.Decompiler.Regions.Reach.{Leads, stay, step}
use flutterdec.Decompiler.Regions.Graph.{IsGraph}
use flutterdec.Decompiler.Dominance.{all_blocks, start_sets, rounds, refined, dominators}
use flutterdec.Decompiler.Dominance.Iteration.{IsSubset, mem-refined, IsDescending}
use flutterdec.Decompiler.Dominance.Rounds.{iterate_ends}
use flutterdec.Decompiler.Dominance.BlockLists.{mem-all_blocks, enough_rounds}

-- A path from the entry to a block that does not pass `v`.
pub data Avoids (succs : Edges) (v : ℕ) : ℕ → Type 0 where
  start : {u : ℕ} → u ≡ 0 → v ≢ u → Avoids succs v u
  go : {w u : ℕ} → Avoids succs v w → Memᴰ u (succs w) → v ≢ u → Avoids succs v u

mem-order :
    (n : ℕ) (r : List ℕ) (x : ℕ)
    → Memᴰ x (keep (λ u. not (nat_eq u 0)) (all_blocks n r)) ↔ ((x < n) × Memᴰ x r × (x ≢ 0))
mem-order n r x =
    let k = mem-keep (λ u. not (nat_eq u 0)) x (all_blocks n r) in
    let a = mem-all_blocks n r x in
    (
      λ m. let (b, c) = k.0 m in ((a.0 b).0, (a.0 b).1, ground (arith, nat_eq_iff x 0)),
      λ (b, c, d). k.1 (a.1 (b, c), ground (arith, nat_eq_iff x 0)),
    )

-- A path avoids what is no block on any path.
Avoids-all :
    (succs : Edges) (v : ℕ)
    → ((w : ℕ) → Leads succs 0 w → v ≢ w)
    → {u x : ℕ} → Leads succs u x
    → u ≡ 0
    → Avoids succs v x
Avoids-all succs v off {u = u} stay e = start e (off u (rw e stay))
Avoids-all succs v off (step {w = w} p m) e =
    go (Avoids-all succs v off p e) m (off w (step (rw (← e) p) m))

module _ (n : ℕ) (g : BlockGraph) (is_graph : IsGraph n g) where
  abbrev Keeps : ℕ → ℕ → Type 0
  Keeps u x = Memᴰ u g.reachable × (¬ Avoids g.succs x u)

  abbrev blocks : List ℕ
  blocks = keep (λ u. not (nat_eq u 0)) (all_blocks n g.reachable)

  abbrev sets : Edges
  sets = put (start_sets n g.reachable) 0 (0 ∷ [])

  entry_reachable : Memᴰ 0 g.reachable
  entry_reachable = (is_graph.reachable 0).1 stay

  sets-subset : (u x : ℕ) → Memᴰ x (sets u) → Memᴰ x (all_blocks n g.reachable)
  sets-subset u x m = elim (Bool-cases (nat_eq u 0)) [
    | inl e ↦
        let zero_only = Memᴰ.eq_of_singleton (rw e at m) in
        rw zero_only
          ((mem-all_blocks n g.reachable 0).1 (is_graph.inside 0 entry_reachable, entry_reachable))
    | inr e ↦ elim (Bool-cases (contains g.reachable u)) [
      | inl on ↦ rw (e, on) at m
      | inr off ↦ absurd (Memᴰ.not-nil (rw (e, off) at m))
    ]
  ]

  -- What lies on every path to a reachable block is reachable.
  keeps_reachable : (u x : ℕ) → Keeps u x → Memᴰ x g.reachable
  keeps_reachable u x (m, all_pass) = elim (Bool-cases (contains g.reachable x)) [
    | inl on ↦ (contains_iff g.reachable x).0 on
    | inr off ↦ absurd (
        all_pass (
          Avoids-all g.succs x
            (λ w p e.
              let there = (contains_iff g.reachable w).1 ((is_graph.reachable w).1 p) in
              let same : contains g.reachable x ≡ contains g.reachable w =
                ap (contains g.reachable) e in
              cc)
            ((is_graph.reachable u).0 m) refl))
  ]

  kept_at_start : (u x : ℕ) → Keeps u x → Memᴰ x (sets u)
  kept_at_start u x k = elim (Bool-cases (nat_eq u 0)) [
    | inl e ↦ elim (Bool-cases (nat_eq x u)) [
      | inl same ↦ rw e (Memᴰ.head (ground (arith, nat_eq_iff x u, nat_eq_iff u 0)))
      | inr other ↦
          absurd (k.1 (start ((nat_eq_iff u 0).0 e) λ q. ground (arith, (nat_eq_iff x u).1 q)))
    ]
    | inr e ↦
        let on = (contains_iff g.reachable u).1 k.0 in
        let there = keeps_reachable u x k in
        rw (e, on) ((mem-all_blocks n g.reachable x).1 (is_graph.inside x there, there))
  ]

  last_step : {u x : ℕ} → Leads g.succs u x → u ≡ 0 → x ≢ 0 → (p : ℕ) × Memᴰ x (g.succs p)
  last_step stay e other = absurd (other e)
  last_step (step {v = v} p m) e other = (v, m)

  own-Keeps :
      (u x : ℕ)
      → Memᴰ u blocks
      → Keeps u x
      → (x ≡ u) ⊎ (((p : ℕ) × Memᴰ p (g.preds u)) × ((p : ℕ) → Memᴰ p (g.preds u) → Keeps p x))
  own-Keeps u x m k = elim (Bool-cases (nat_eq x u)) [
    | inl e ↦ inl ((nat_eq_iff x u).0 e)
    | inr e ↦
        let (_, there, other) = (mem-order n g.reachable u).0 m in
        let (p, edge) = last_step ((is_graph.reachable u).0 there) refl other in
        inr (
          (p, (is_graph.inverse p u).1 edge),
          λ q n'.
              let edge' = (is_graph.inverse q u).0 n' in
              (
                is_graph.only_reachable q u edge',
                λ around. k.1 (go around edge' λ s. ground (arith, (nat_eq_iff x u).1 s)),
              ),
        )
  ]

  start-IsDescending : IsDescending n g.preds blocks Keeps sets sets
  start-IsDescending = record {
    bounded = λ u x m. ((mem-all_blocks n g.reachable x).0 (sets-subset u x m)).0;
    within = λ u x m. m;
    fixed = λ u off. refl;
    shrinks = λ u m x q.
        let (below, there, other) = (mem-order n g.reachable u).0 m in
        let on = (contains_iff g.reachable u).1 there in
        let off : nat_eq u 0 ≡ false = ground (arith, nat_eq_iff u 0) in
        rw (off, on)
          (elim ((mem-refined g.preds sets u x).0 q) [
            | inl e ↦ rw e ((mem-all_blocks n g.reachable u).1 (below, there))
            | inr (one, each) ↦ sets-subset one.0 x (each one.0 one.1)
          ]);
    kept = kept_at_start;
  }

  only_entry :
      (dom : Edges) (v u : ℕ)
      → IsDescending n g.preds blocks Keeps sets dom
      → u ≡ 0
      → Memᴰ v (dom u)
      → v ≡ u
  only_entry dom v u inv e m =
      let outside : contains blocks u ≡ false = elim (Bool-cases (contains blocks u)) [
        | inl on ↦
            let (_, _, other) = (mem-order n g.reachable u).0 ((contains_iff blocks u).0 on) in
            absurd (other e)
        | inr off ↦ off
      ] in
      let at_start : Memᴰ v (sets u) = rw (← (inv.fixed u outside)) m in
      let zero_test = (nat_eq_iff u 0).1 e in
      Memᴰ.eq_of_singleton (rw zero_test at at_start) ∙ sym e

  -- At rest, what is in the set of a block is on every path to it.
  on_every_path :
      (dom : Edges)
      → IsDescending n g.preds blocks Keeps sets dom
      → ((u : ℕ) → Memᴰ u blocks → IsSubset (dom u) (refined g.preds dom u))
      → (v u : ℕ) → Avoids g.succs v u
      → Memᴰ v (dom u)
      → ⊥
  on_every_path dom inv still v u (start e d) m = d (only_entry dom v u inv e m)
  on_every_path dom inv still v u (go {w = p} around edge d) m = elim (Bool-cases (nat_eq u 0)) [
    | inl e ↦ d (only_entry dom v u inv ((nat_eq_iff u 0).0 e) m)
    | inr e ↦
        let there =
          (is_graph.reachable u).1
            (step ((is_graph.reachable p).0 (is_graph.only_reachable p u edge)) edge) in
        let ordered =
          (mem-order n g.reachable u).1
            (is_graph.inside u there, there, λ z. ground (arith, (nat_eq_iff u 0).1 z)) in
        elim ((mem-refined g.preds dom u v).0 (still u ordered v m)) [
          | inl same ↦ d same
          | inr (_, each) ↦
              on_every_path dom inv still v p around (each p ((is_graph.inverse p u).1 edge))
        ]
  ]

  has_set :
      (dom : Edges) (u v : ℕ)
      → IsDescending n g.preds blocks Keeps sets dom
      → Memᴰ v (dom u)
      → Memᴰ u g.reachable
  has_set dom u v inv m = elim (Bool-cases (contains blocks u)) [
    | inl on ↦ ((mem-order n g.reachable u).0 ((contains_iff blocks u).0 on)).1
    | inr outside ↦
        let at_start : Memᴰ v (sets u) = rw (← (inv.fixed u outside)) m in
        elim (Bool-cases (nat_eq u 0)) [
          | inl e ↦ rw ((nat_eq_iff u 0).0 e) entry_reachable
          | inr e ↦ elim (Bool-cases (contains g.reachable u)) [
            | inl on ↦ (contains_iff g.reachable u).0 on
            | inr off ↦ absurd (Memᴰ.not-nil (rw (e, off) at at_start))
          ]
        ]
  ]

  -- The computation of dominators ends within its rounds. The set of a reachable block is then
  -- exactly the blocks that no path from the entry to it avoids, and any other block has no set.
  pub dominators_iff :
      (dom : Edges) × (dominators n g.preds g.reachable ≡ some dom)
      × ((u v : ℕ) → Memᴰ v (dom u) ↔ (Memᴰ u g.reachable × (¬ Avoids g.succs v u)))
  unfolding dominators
  dominators_iff =
      let (dom, ends, inv, still) =
        iterate_ends n g.preds blocks Keeps sets own-Keeps (rounds n) sets start-IsDescending
          (enough_rounds n (λ u. not (nat_eq u 0)) (contains g.reachable) sets) in
      (
        dom,
        ends,
        λ u v. (
          λ m. (has_set dom u v inv m, λ around. on_every_path dom inv still v u around m),
          λ k. inv.kept u v k,
        ),
      )
