-- ===== src/Decompiler/Dominance/PostDominators.antt =====
-- `immediate_post_dominators` of crates/flutterdec-decompiler/src/control_flow/regions.rs: the sets
-- of post-dominators and the paths of the graph.

use mathlib.Core.List.Memᴰ
use flutterdec.Common.{
  contains, contains_iff, keep, mem-keep, nat_eq, if◌then◌else◌, nat_eq_iff, Bool-cases, ℕ, ◌≡◌,
  refl, ◌∙◌, ◌≢◌, ◌↔◌, ◌⊎◌, inl, inr, true, false, not, some, List, ◌∷◌, Memᴰ, arith, [], ℕ_eq,
  List_eq, Option_eq, ℕ_order, Text_order,
}
use flutterdec.Decompiler.Regions.{Edges, BlockGraph, put}
use flutterdec.Decompiler.Regions.Reach.{step}
use flutterdec.Decompiler.Regions.Graph.{IsGraph}
use flutterdec.Decompiler.Dominance.{
  all_blocks, start_sets, rounds, refined, is_nil, put_exits, is_exit, exits, backwards,
  inner_blocks, reachable_succs, post_dominators,
}
use flutterdec.Decompiler.Dominance.BlockLists.{
  mem-all_blocks, mem-backwards, enough_rounds-backwards,
}
use flutterdec.Decompiler.Dominance.Iteration.{IsSubset, mem-refined, IsDescending}
use flutterdec.Decompiler.Dominance.Rounds.{iterate_ends}

-- A path from a block to one without a successor that does not pass `v`.
pub data Escapes (succs : Edges) (v : ℕ) : ℕ → Type 0 where
  out : {u : ℕ} → succs u ≡ [] → v ≢ u → Escapes succs v u
  onward : {u w : ℕ} → v ≢ u → Memᴰ w (succs u) → Escapes succs v w → Escapes succs v u

is_nil_iff : (xs : List ℕ) → (is_nil xs ≡ true) ↔ (xs ≡ [])
is_nil_iff [] = (λ h. refl, λ h. refl)
is_nil_iff (x ∷ xs) = (λ h. cc, λ h. cc)

some_member : (xs : List ℕ) → is_nil xs ≡ false → (x : ℕ) × Memᴰ x xs
some_member [] h = absurd (cc)
some_member (x ∷ xs) h = (x, Memᴰ.head refl)

put_exits_at :
    (es : List ℕ) (sets : Edges) (u : ℕ)
    → put_exits es sets u ≡ (if contains es u then u ∷ [] else sets u)
unfolding put_exits
put_exits_at [] sets u = refl
put_exits_at (e ∷ es) sets u =
    ground (arith, put_exits_at es (put sets e (e ∷ [])) u, nat_eq_iff u e)

module _ (n : ℕ) (g : BlockGraph) (is_graph : IsGraph n g) where
  abbrev Keeps : ℕ → ℕ → Type 0
  Keeps u x = Memᴰ u g.reachable × Memᴰ x g.reachable × (¬ Escapes g.succs x u)

  abbrev blocks : List ℕ
  blocks = inner_blocks n g.succs g.reachable

  abbrev sets : Edges
  sets = put_exits (exits n g.succs g.reachable) (start_sets n g.reachable)

  abbrev ins : Edges
  ins = reachable_succs g.succs g.reachable

  mem-blocks : (u : ℕ) → Memᴰ u blocks ↔ (Memᴰ u g.reachable × (is_exit g.succs u ≡ false))
  mem-blocks u =
      let outer =
        mem-keep (λ k. not (is_exit g.succs k)) u (keep (contains g.reachable) (backwards n)) in
      let inner = mem-keep (contains g.reachable) u (backwards n) in
      (
        λ m. let (a, b) = outer.0 m in ((contains_iff g.reachable u).0 (inner.0 a).1, ground arith),
        λ (a, b). outer.1 (
          inner.1 ((mem-backwards n u).1 (is_graph.inside u a), (contains_iff g.reachable u).1 a),
          ground arith,
        ),
      )

  mem-exits :
      (u : ℕ)
      → Memᴰ u (exits n g.succs g.reachable) ↔ (Memᴰ u g.reachable × (is_exit g.succs u ≡ true))
  mem-exits u =
      let k = mem-keep (is_exit g.succs) u (all_blocks n g.reachable) in
      let a = mem-all_blocks n g.reachable u in
      (λ m. let (b, c) = k.0 m in ((a.0 b).1, c), λ (b, c). k.1 (a.1 (is_graph.inside u b, b), c))

  mem-ins : (u v : ℕ) → Memᴰ v (ins u) ↔ (Memᴰ v (g.succs u) × Memᴰ v g.reachable)
  mem-ins u v =
      let k = mem-keep (contains g.reachable) v (g.succs u) in
      (
        λ m. let (a, b) = k.0 m in (a, (contains_iff g.reachable v).0 b),
        λ (a, b). k.1 (a, (contains_iff g.reachable v).1 b),
      )

  succ_reachable : (u v : ℕ) → Memᴰ v (g.succs u) → Memᴰ v g.reachable
  succ_reachable u v m =
      (is_graph.reachable v).1 (step ((is_graph.reachable u).0 (is_graph.only_reachable u v m)) m)

  -- The three kinds of blocks, and what their sets start with.
  sets_cases :
      (u : ℕ)
      → (Memᴰ u g.reachable × (is_exit g.succs u ≡ true) × (sets u ≡ u ∷ []))
        ⊎ (Memᴰ u g.reachable × (is_exit g.succs u ≡ false) × (sets u ≡ all_blocks n g.reachable))
        ⊎ ((contains g.reachable u ≡ false) × (sets u ≡ []))
  sets_cases u =
      let at = put_exits_at (exits n g.succs g.reachable) (start_sets n g.reachable) u in
      let e = contains_iff (exits n g.succs g.reachable) u in
      elim (Bool-cases (contains (exits n g.succs g.reachable) u)) [
        | inl yes_exit ↦
            let (m, x) = (mem-exits u).0 (e.0 yes_exit) in inl (m, x, at ∙ rw yes_exit refl)
        | inr no_exit ↦ elim (Bool-cases (contains g.reachable u)) [
          | inl on ↦ elim (Bool-cases (is_exit g.succs u)) [
            | inl x ↦
                let clash = e.1 ((mem-exits u).1 ((contains_iff g.reachable u).0 on, x)) in
                absurd (cc)
            | inr x ↦ inr (inl ((contains_iff g.reachable u).0 on, x, at ∙ rw (no_exit, on) refl))
          ]
          | inr off ↦ inr (inr (off, at ∙ rw (no_exit, off) refl))
        ]
      ]

  sets-subset : (u x : ℕ) → Memᴰ x (sets u) → Memᴰ x (all_blocks n g.reachable)
  sets-subset u x m = elim (sets_cases u) [
    | inl (there, _, e) ↦
        let same = Memᴰ.eq_of_singleton (rw e at m) in
        rw same ((mem-all_blocks n g.reachable u).1 (is_graph.inside u there, there))
    | inr (inl (_, _, e)) ↦ rw e at m
    | inr (inr (_, e)) ↦ absurd (Memᴰ.not-nil (rw e at m))
  ]

  kept_at_start : (u x : ℕ) → Keeps u x → Memᴰ x (sets u)
  kept_at_start u x (there, target, all_pass) = elim (sets_cases u) [
    | inl (_, last, e) ↦ elim (Bool-cases (nat_eq x u)) [
      | inl same ↦ rw e (Memᴰ.head ((nat_eq_iff x u).0 same))
      | inr other ↦ absurd (
          all_pass
            (out ((is_nil_iff (g.succs u)).0 last) λ q. ground (arith, (nat_eq_iff x u).1 q)))
    ]
    | inr (inl (_, _, e)) ↦
        rw e ((mem-all_blocks n g.reachable x).1 (is_graph.inside x target, target))
    | inr (inr (off, _)) ↦ let on = (contains_iff g.reachable u).1 there in absurd (cc)
  ]

  own-Keeps :
      (u x : ℕ)
      → Memᴰ u blocks
      → Keeps u x
      → (x ≡ u) ⊎ (((p : ℕ) × Memᴰ p (ins u)) × ((p : ℕ) → Memᴰ p (ins u) → Keeps p x))
  own-Keeps u x m (there, target, all_pass) = elim (Bool-cases (nat_eq x u)) [
    | inl e ↦ inl ((nat_eq_iff x u).0 e)
    | inr e ↦
        let (_, inner) = (mem-blocks u).0 m in
        let (w, edge) = some_member (g.succs u) inner in
        inr (
          (w, (mem-ins u w).1 (edge, succ_reachable u w edge)),
          λ p k.
              let (edge', reached) = (mem-ins u p).0 k in
              (
                reached,
                target,
                λ around.
                    all_pass (onward (λ q. ground (arith, (nat_eq_iff x u).1 q)) edge' around),
              ),
        )
  ]

  start-IsDescending : IsDescending n ins blocks Keeps sets sets
  start-IsDescending = record {
    bounded = λ u x m. ((mem-all_blocks n g.reachable x).0 (sets-subset u x m)).0;
    within = λ u x m. m;
    fixed = λ u off. refl;
    shrinks = λ u m x q.
        let (there, inner) = (mem-blocks u).0 m in
        let wide : sets u ≡ all_blocks n g.reachable = elim (sets_cases u) [
          | inl (_, last, _) ↦ absurd (cc)
          | inr (inl (_, _, e)) ↦ e
          | inr (inr (off, _)) ↦ let on = (contains_iff g.reachable u).1 there in absurd (cc)
        ] in
        rw wide (elim ((mem-refined ins sets u x).0 q) [
          | inl e ↦ rw e ((mem-all_blocks n g.reachable u).1 (is_graph.inside u there, there))
          | inr (one, each) ↦ sets-subset one.0 x (each one.0 one.1)
        ]);
    kept = kept_at_start;
  }

  -- The set of a block that is not refined is the one that it starts with.
  at_start :
      (dom : Edges) (u : ℕ)
      → IsDescending n ins blocks Keeps sets dom
      → (¬ Memᴰ u blocks)
      → dom u ≡ sets u
  at_start dom u inv outside = elim (Bool-cases (contains blocks u)) [
    | inl on ↦ absurd (outside ((contains_iff blocks u).0 on))
    | inr off ↦ inv.fixed u off
  ]

  on_every_path :
      (dom : Edges)
      → IsDescending n ins blocks Keeps sets dom
      → ((u : ℕ) → Memᴰ u blocks → IsSubset (dom u) (refined ins dom u))
      → (v u : ℕ) → Escapes g.succs v u
      → Memᴰ v (dom u)
      → ⊥
  on_every_path dom inv still v u (out last d) m =
      let x = (is_nil_iff (g.succs u)).1 last in
      let same = at_start dom u inv λ k. let (_, y) = (mem-blocks u).0 k in cc in
      elim (sets_cases u) [
        | inl (_, _, e) ↦ d (Memᴰ.eq_of_singleton (rw (same, e) at m))
        | inr (inl (_, y, _)) ↦ absurd (cc)
        | inr (inr (_, e)) ↦ Memᴰ.not-nil (rw (same, e) at m)
      ]
  on_every_path dom inv still v u (onward {w = w} d edge around) m =
      let there = is_graph.only_reachable u w edge in
      let inner : is_exit g.succs u ≡ false = elim (Bool-cases (is_exit g.succs u)) [
        | inl x ↦ absurd (Memᴰ.not-nil (rw ((is_nil_iff (g.succs u)).0 x) at edge))
        | inr x ↦ x
      ] in
      elim ((mem-refined ins dom u v).0 (still u ((mem-blocks u).1 (there, inner)) v m)) [
        | inl same ↦ d same
        | inr (_, each) ↦
            on_every_path dom inv still v w around
              (each w ((mem-ins u w).1 (edge, succ_reachable u w edge)))
      ]

  reached :
      (dom : Edges) (u v : ℕ)
      → IsDescending n ins blocks Keeps sets dom
      → ((u : ℕ) → Memᴰ u blocks → IsSubset (dom u) (refined ins dom u))
      → Memᴰ v (dom u)
      → Memᴰ u g.reachable
  reached dom u v inv still m = elim (Bool-cases (contains blocks u)) [
    | inl on ↦ ((mem-blocks u).0 ((contains_iff blocks u).0 on)).0
    | inr off ↦ elim (sets_cases u) [
      | inl (there, _, _) ↦ there
      | inr (inl (there, _, _)) ↦ there
      | inr (inr (_, e)) ↦ absurd (Memᴰ.not-nil (rw (inv.fixed u off, e) at m))
    ]
  ]

  -- The computation of post-dominators ends within its rounds. The set of a reachable block is then
  -- exactly the reachable blocks that no path from it to a block without a successor avoids, and any
  -- other block has no set.
  pub post_dominators_iff :
      (pdom : Edges) × (post_dominators n g.succs g.reachable ≡ some pdom)
      × ((u v : ℕ)
          → Memᴰ v (pdom u) ↔ (Memᴰ u g.reachable × Memᴰ v g.reachable × (¬ Escapes g.succs v u)))
  unfolding post_dominators
  post_dominators_iff =
      let (dom, ends, inv, still) =
        iterate_ends n ins blocks Keeps sets own-Keeps (rounds n) sets start-IsDescending
          (enough_rounds-backwards n (λ u. not (is_exit g.succs u)) (contains g.reachable) sets) in
      (
        dom,
        ends,
        λ u v. (
          λ m. (
            reached dom u v inv still m,
            ((mem-all_blocks n g.reachable v).0 (sets-subset u v (inv.within u v m))).1,
            λ around. on_every_path dom inv still v u around m,
          ),
          λ k. inv.kept u v k,
        ),
      )
