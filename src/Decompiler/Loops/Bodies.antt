-- ===== src/Decompiler/Loops/Bodies.antt =====
-- `natural_loops` of crates/flutterdec-decompiler/src/control_flow/regions.rs: the bodies of the
-- loops, as `Regions::in_loop` reads them.
use mathlib.Core.List.Memᴰ
use flutterdec.Common.{
  contains, contains_iff, nat_eq, nat_eq_iff, Bool-cases, some_injective, ℕ, zero, suc, ◌≤◌, ◌<◌,
  ◌≡◌, refl, sym, ap, ◌∙◌, subst, ◌≢◌, ◌↔◌, ◌⊎◌, inl, inr, true, Option, none, some, List, Memᴰ,
  arith, ℕ_eq, List_eq, Option_eq, ℕ_order, Text_order,
}
use flutterdec.Decompiler.Regions.{Edges, BlockGraph}
use flutterdec.Decompiler.Regions.Graph.{IsGraph}
use flutterdec.Decompiler.Dominance.{dominators}
use flutterdec.Decompiler.Dominance.Dominators.{Avoids, start, go, dominators_iff}
use flutterdec.Decompiler.Loops.{Bodies, loops_below, is_loop_header, in_body, in_loop}
use flutterdec.Decompiler.Loops.Collect.{Around, arrive, onward}
use flutterdec.Decompiler.Loops.Sources.{IsBackEdge, IsLoop, same_sources, IsBodies, add_all}

module _ (n : ℕ) (g : BlockGraph) (is_graph : IsGraph n g) (dom : Edges) where
  preds_below : (u p : ℕ) → Memᴰ p (g.preds u) → p < n
  preds_below u p m = is_graph.inside p (is_graph.only_reachable p u ((is_graph.inverse p u).0 m))

  loops_end :
      (k : ℕ)
      → k ≤ n
      → (out : Bodies) × (loops_below n k g dom ≡ some out)
        × IsBodies g.preds (λ a h. (a < k) × Memᴰ h (g.succs a) × Memᴰ h (dom a)) out
  unfolding loops_below
  loops_end zero le = (
    (λ h. none),
    refl,
    λ h. record {
      present = (λ m. cc, λ (u, (d, _, _)). absurd (omega arith));
      members = λ x. (
        λ m. inl (Memᴰ.eq_of_singleton m),
        λ m. elim m [ inl e ↦ Memᴰ.head e | inr (u, (d, _, _), _) ↦ absurd (omega arith) ],
      );
      closed = λ x p m d k q. absurd (d (Memᴰ.eq_of_singleton m));
    },
  )
  loops_end (suc u) le =
      let (before, ends, good) = loops_end u (omega arith) in
      elim (Bool-cases (contains g.reachable u)) [
        | inl on ↦
            let (out, more, all_good) =
              add_all n g.preds preds_below (λ a h. (a < u) × Memᴰ h (g.succs a) × Memᴰ h (dom a))
                dom u (g.succs u) before (omega arith) good in
            (
              out,
              rw (on, ends) more,
              λ h.
                  same_sources g.preds h (out h)
                    (λ a. (
                      λ m. elim m [
                        | inl (l, s, d) ↦ (omega arith, s, d)
                        | inr (e, s, d) ↦ rw e (omega arith, s, d)
                      ],
                      λ (l, s, d). elim (Bool-cases (nat_eq a u)) [
                        | inl e ↦
                            let same = (nat_eq_iff a u).0 e in
                            inr (same, rw (← same) s, rw (← same) d)
                        | inr e ↦ inl (ground arith, s, d)
                      ],
                    ))
                    (all_good h),
            )
        | inr off ↦ (
          before,
          rw off ends,
          λ h.
              same_sources g.preds h (before h)
                (λ a. (
                  λ (l, s, d). (omega arith, s, d),
                  λ (l, s, d).
                      let there = (contains_iff g.reachable a).1 (is_graph.only_reachable a h s) in
                      let other : a ≢ u = λ e.
                        let same : contains g.reachable a ≡ contains g.reachable u =
                          ap (contains g.reachable) e in
                        cc in
                      (omega (arith, other), s, d),
                ))
                (good h),
        )
      ]

in_body_iff :
    (preds : Edges) (h : ℕ) (D : ℕ → Type 0) (loop : Option (List ℕ)) (x : ℕ)
    → IsLoop preds h D loop
    → (in_body loop x ≡ true) ↔ ((u : ℕ) × D u × ((x ≡ h) ⊎ Around preds h x u))
in_body_iff preds h D none x is =
    (λ m. absurd (cc), λ (u, d, _). let there = is.present.1 (u, d) in absurd (cc))
in_body_iff preds h D (some body) x is = (
  λ m. elim ((is.members x).0 ((contains_iff body x).0 m)) [
    | inl e ↦ let (u, d) = is.present.0 refl in (u, d, inl e)
    | inr (u, d, a) ↦ (u, d, inr a)
  ],
  λ (u, d, m).
      (contains_iff body x).1 ((is.members x).1 (elim m [ inl e ↦ inl e | inr a ↦ inr (u, d, a) ])),
)

Avoids-other : (succs : Edges) (v : ℕ) {u : ℕ} → Avoids succs v u → v ≢ u
Avoids-other succs v (start e d) = d
Avoids-other succs v (go a m d) = d

-- A path that starts one block earlier.
Around-from :
    (preds : Edges) (h p x : ℕ) {u : ℕ}
    → Around preds h x u
    → Memᴰ p (preds x)
    → h ≢ p
    → Around preds h p u
Around-from preds h p x (arrive {u = u} e d) m q = onward (arrive refl q) (rw e m) d
Around-from preds h p x (onward r k d) m q = onward (Around-from preds h p x r m q) k d

-- A path that avoids the header and then leads on without passing it avoids it to the end.
Avoids-on :
    (g : BlockGraph) (n : ℕ)
    → IsGraph n g
    → (h x : ℕ) {u : ℕ} → Around g.preds h x u
    → Avoids g.succs h x
    → Avoids g.succs h u
Avoids-on g n is_graph h x (arrive e d) a = subst (Avoids g.succs h) (sym e) a
Avoids-on g n is_graph h x (onward {p = p} {u = u} r m d) a =
    go (Avoids-on g n is_graph h x r a) ((is_graph.inverse p u).0 m) d

module _ (n : ℕ) (g : BlockGraph) (is_graph : IsGraph n g) where
  -- The loops are found. A block is a loop header exactly when it is the target of an edge from a
  -- block that it dominates, and the loop of a header contains the header and the blocks that lead
  -- to the source of such an edge without passing the header.
  pub natural_loops_iff :
      (dom : Edges) × (dominators n g.preds g.reachable ≡ some dom)
      × (bodies : Bodies) × (loops_below n n g dom ≡ some bodies)
      × ((h : ℕ) → (is_loop_header bodies h ≡ true) ↔ ((u : ℕ) × IsBackEdge g u h))
      × ((h x : ℕ)
          → (in_loop bodies h x ≡ true)
            ↔ ((u : ℕ) × IsBackEdge g u h × ((x ≡ h) ⊎ Around g.preds h x u)))
  natural_loops_iff =
      let (dom, ends, is) = dominators_iff n g is_graph in
      let (bodies, found, good) = loops_end n g is_graph dom n (omega arith) in
      let back : (h u : ℕ)
          → ((u < n) × Memᴰ h (g.succs u) × Memᴰ h (dom u))
            ↔ (Memᴰ h (g.succs u) × (¬ Avoids g.succs h u)) =
        λ h u. (
          λ (_, s, d). (s, ((is u h).0 d).1),
          λ (s, d).
              let there = is_graph.only_reachable u h s in
              (is_graph.inside u there, s, (is u h).1 (there, d)),
        ) in
      let loop = λ (h : ℕ). same_sources g.preds h (bodies h) (back h) (good h) in
      (
        dom,
        ends,
        bodies,
        found,
        λ h. (loop h).present,
        λ h x. in_body_iff g.preds h (λ u. IsBackEdge g u h) (bodies h) x (loop h),
      )

  -- The header is on every path to each block of its loop, and an edge into the loop from outside it
  -- leads to the header.
  pub loop_entered_at_header :
      (dom : Edges) (bodies : Bodies) (h p x : ℕ)
      → dominators n g.preds g.reachable ≡ some dom
      → loops_below n n g dom ≡ some bodies
      → Memᴰ x (g.succs p)
      → in_loop bodies h x ≡ true
      → (¬ Avoids g.succs h x) × ((in_loop bodies h p ≡ true) ⊎ (x ≡ h))
  loop_entered_at_header dom bodies h p x d b edge m =
      let (dom', d', bodies', b', _, loops) = natural_loops_iff in
      let same_dom : dom' ≡ dom = cc in
      let same : bodies' ≡ bodies = some_injective (sym b' ∙ rw same_dom b) in
      let (u, back, place) = (loops h x).0 (rw same m) in
      elim place [
        | inl e ↦ (λ a. Avoids-other g.succs h a (sym e), inr e)
        | inr r ↦ (
          λ a. back.1 (Avoids-on g n is_graph h x r a),
          inl (
              rw (← same) (
                (loops h p).1 (
                  u,
                  back,
                  elim (Bool-cases (nat_eq p h)) [
                    | inl e ↦ inl ((nat_eq_iff p h).0 e)
                    | inr e ↦ inr (
                        Around-from g.preds h p x r ((is_graph.inverse p x).1 edge)
                          λ q. ground (arith, (nat_eq_iff p h).1 (sym q)))
                  ],
                ))),
        )
      ]
