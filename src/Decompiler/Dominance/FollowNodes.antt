-- ===== src/Decompiler/Dominance/FollowNodes.antt =====
-- The follow nodes of `immediate_post_dominators`, in
-- crates/flutterdec-decompiler/src/control_flow/regions.rs.
use mathlib.Core.List.Memᴰ
use flutterdec.Common.{
  contains, contains_iff, keep, mem-keep, nat_eq, nat_eq_iff, Bool-cases, Option-cases, ℕ, ◌≡◌,
  refl, sym, ap, ◌∙◌, ◌≢◌, ◌↔◌, inl, inr, false, not, Option, none, some, List, Memᴰ, arith, [],
  ℕ_eq, List_eq, Option_eq, ℕ_order, Text_order,
}
use flutterdec.Decompiler.Regions.{Edges, BlockGraph}
use flutterdec.Decompiler.Dominance.{nearest, follow_node, immediate_post_dominators}
use flutterdec.Decompiler.Dominance.Iteration.{IsSubset}
use flutterdec.Decompiler.Dominance.PostDominators.{Escapes, post_dominators_iff}
use flutterdec.Decompiler.Regions.Graph.{IsGraph}
use flutterdec.Decompiler.Dominance.Nearest.{
  nearest-none, nearest_nil, nearest-eq-some, empty_if, size-lt,
}
use flutterdec.Decompiler.Dominance.Escaping.{
  Ends, avoids_one, rest_avoids, avoids_both, Escapes-other,
}

-- A block on every path from `u` to the end, other than `u`.
pub IsBehind : BlockGraph → ℕ → ℕ → Type 0
IsBehind g u p = (p ≢ u) × Memᴰ u g.reachable × Memᴰ p g.reachable × (¬ Escapes g.succs p u)

-- The first of those blocks that a path from `u` meets.
pub IsFollow : BlockGraph → ℕ → ℕ → Type 0
IsFollow g u f = IsBehind g u f × ((p : ℕ) → IsBehind g u p → ¬ Escapes g.succs p f)

module _ (n : ℕ) (g : BlockGraph) (is_graph : IsGraph n g) where
  -- The list that the closure takes the maximum of.
  abbrev candidates : Edges → ℕ → List ℕ
  candidates pdom u = keep (λ p. not (nat_eq p u)) (pdom u)

  abbrev IsPdom : Edges → Type 0
  IsPdom pdom =
      (u v : ℕ)
      → Memᴰ v (pdom u) ↔ (Memᴰ u g.reachable × Memᴰ v g.reachable × (¬ Escapes g.succs v u))

  candidates_iff :
      (pdom : Edges) → IsPdom pdom → (u p : ℕ) → Memᴰ p (candidates pdom u) ↔ IsBehind g u p
  unfolding IsBehind
  candidates_iff pdom is u p =
      let k = mem-keep (λ q. not (nat_eq q u)) p (pdom u) in
      (
        λ m.
            let (a, b) = k.0 m in
            let (x, y, z) = (is u p).0 a in (ground (arith, nat_eq_iff p u), x, y, z),
        λ (d, x, y, z). k.1 ((is u p).1 (x, y, z), ground (arith, nat_eq_iff p u)),
      )

  -- The chosen block lies before the others.
  chosen_first :
      (pdom : Edges)
      → IsPdom pdom
      → (u f p : ℕ) → Ends g.succs u
      → nearest pdom (candidates pdom u) ≡ some f
      → IsBehind g u p
      → ¬ Escapes g.succs p f
  unfolding IsBehind
  chosen_first pdom is u f p ends found behind escapes =
      let (m, best) = nearest-eq-some pdom (candidates pdom u) f found in
      let (f_off, u_in, f_in, f_on) = (candidates_iff pdom is u f).0 m in
      let (p_off, _, p_in, p_on) = behind in
      let not_after : ¬ Escapes g.succs f p = λ after.
        elim (avoids_one g.succs p f (Escapes-other g.succs p escapes) escapes after ends) [
          | inl x ↦ p_on x
          | inr x ↦ f_on x
        ] in
      let sub : IsSubset (pdom f) (pdom p) = λ v k.
        let (_, v_in, v_on) = (is f v).0 k in
        (is p v).1 (
          p_in,
          v_in,
          λ x. elim (rest_avoids g.succs v f x) [ inl y ↦ not_after y | inr y ↦ v_on y ],
        ) in
      let own = (is p p).1 (p_in, p_in, λ x. Escapes-other g.succs p x refl) in
      let off : contains (pdom f) p ≡ false = elim (Bool-cases (contains (pdom f) p)) [
        | inl on ↦
            let (_, _, p_on_f) = (is f p).0 ((contains_iff (pdom f) p).0 on) in
            absurd (p_on_f escapes)
        | inr off ↦ off
      ] in
      let smaller =
        size-lt n (pdom f) (pdom p) p
          (λ y k. let (_, y_in, _) = (is p y).0 k in is_graph.inside y y_in) sub own off in
      let first = best p ((candidates_iff pdom is u p).1 behind) in ground arith

  -- A block that no path needs has no candidate.
  follow_node_at :
      (pdom : Edges)
      → IsPdom pdom
      → (u : ℕ) → follow_node pdom g.reachable u ≡ nearest pdom (candidates pdom u)
  unfolding nearest
  follow_node_at pdom is u = elim (Bool-cases (contains g.reachable u)) [
    | inl on ↦ rw on refl
    | inr off ↦
        let nothing : pdom u ≡ [] = empty_if (pdom u) λ v m.
          let (there, _, _) = (is u v).0 m in let on = (contains_iff g.reachable u).1 there in cc in
        rw (off, nothing) refl
  ]

  -- There is at most one first block.
  first_unique :
      (u f p : ℕ)
      → Ends g.succs u
      → IsBehind g u f
      → IsBehind g u p
      → (¬ Escapes g.succs p f)
      → (¬ Escapes g.succs f p)
      → p ≡ f
  unfolding IsBehind
  first_unique u f p ends (_, _, _, f_on) (_, _, _, p_on) a b = elim (Bool-cases (nat_eq p f)) [
    | inl same ↦ (nat_eq_iff p f).0 same
    | inr other ↦
        absurd (elim (avoids_both g.succs p f (λ e. ground (arith, (nat_eq_iff p f).1 e)) ends) [
          | inl (x, _) ↦ p_on x
          | inr (inl x) ↦ a x
          | inr (inr x) ↦ b x
        ])
  ]

  pub follow_nodes_lem :
      (follow : ℕ → Option ℕ) × (immediate_post_dominators n g.succs g.reachable ≡ some follow)
      × ((u : ℕ) → (follow u ≡ none) ↔ ((p : ℕ) → ¬ IsBehind g u p))
      × ((u f : ℕ) → Ends g.succs u → (follow u ≡ some f) ↔ IsFollow g u f)
  unfolding immediate_post_dominators IsFollow
  follow_nodes_lem =
      let (pdom, ends, is) = post_dominators_iff n g is_graph in
      (
        follow_node pdom g.reachable,
        rw ends refl,
        λ u.
            let at = follow_node_at pdom is u in
            (
              λ e p behind.
                  let none_left = nearest-none pdom (candidates pdom u) (sym at ∙ e) in
                  Memᴰ.not-nil (rw none_left at ((candidates_iff pdom is u p).1 behind)),
              λ none_behind.
                  let nothing : candidates pdom u ≡ [] =
                    empty_if (candidates pdom u)
                      λ p m. none_behind p ((candidates_iff pdom is u p).0 m) in
                  at ∙ rw nothing (nearest_nil pdom),
            ),
        λ u f e.
            let at = follow_node_at pdom is u in
            (
              λ found.
                  let there = sym at ∙ found in
                  let (m, _) = nearest-eq-some pdom (candidates pdom u) f there in
                  (
                    (candidates_iff pdom is u f).0 m,
                    λ p behind. chosen_first pdom is u f p e there behind,
                  ),
              λ (behind, first). elim (Option-cases (nearest pdom (candidates pdom u))) [
                | inl n' ↦
                    let none_left = nearest-none pdom (candidates pdom u) n' in
                    absurd (Memᴰ.not-nil (rw none_left at ((candidates_iff pdom is u f).1 behind)))
                | inr (q, found) ↦
                    let (m, _) = nearest-eq-some pdom (candidates pdom u) q found in
                    let q_behind = (candidates_iff pdom is u q).0 m in
                    let same =
                      first_unique u f q e behind q_behind (first q q_behind)
                        (chosen_first pdom is u q f e found behind) in
                    at ∙ found ∙ ap some same
              ],
            ),
      )

  -- The follow nodes are found. A block that leads to a block without a successor has none exactly
  -- when no other block is on all its paths to the end, and its follow node is exactly the one of
  -- those blocks from which every path to the end passes each other one of them.
  pub IsFollow-iff :
      (u : ℕ)
      → Ends g.succs u
      → (follow : ℕ → Option ℕ) × (immediate_post_dominators n g.succs g.reachable ≡ some follow)
        × ((follow u ≡ none) ↔ ((p : ℕ) → ¬ IsBehind g u p))
        × ((f : ℕ) → (follow u ≡ some f) ↔ IsFollow g u f)
  IsFollow-iff u e =
      let (follow, ends, nothing, found) = follow_nodes_lem in
      (follow, ends, nothing u, λ f. found u f e)
