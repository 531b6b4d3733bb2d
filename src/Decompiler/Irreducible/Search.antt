-- ===== src/Decompiler/Irreducible/Search.antt =====
-- The search of `is_irreducible` in crates/flutterdec-decompiler/src/control_flow/regions.rs: its
-- invariant, its end and what it finds.
use mathlib.Core.List.Memᴰ
use flutterdec.Common.{
  contains, contains_iff, get_elem?, Memᴰ-cons, mem-keep, nat_eq, nat_eq_iff, Bool-cases,
  Option-cases, ℕ, zero, suc, ◌+◌, ◌<◌, ◌≡◌, refl, sym, ap, ◌∙◌, subst, ◌↔◌, ◌⊎◌, inl, inr, Bool,
  true, false, not, none, some, List, ◌∷◌, Memᴰ, arith, [], ℕ_eq, List_eq, Option_eq, ℕ_order,
  Text_order,
}
use flutterdec.Decompiler.Regions.{Edges, BlockGraph}
use flutterdec.Decompiler.Regions.Graph.{IsGraph}
use flutterdec.Decompiler.Regions.Reach.{stay, step}
use flutterdec.Decompiler.Dominance.Dominators.{Avoids, dominators_iff}
use flutterdec.Decompiler.Loops.{pending}
use flutterdec.Decompiler.Loops.Collect.{pending-taken}
use flutterdec.Decompiler.Irreducible.{
  SearchState, Round, returned, more, take_edge, leave, take_entry, round, after_round, run,
  search_rounds, is_irreducible,
}
use flutterdec.Decompiler.Irreducible.Forward.{
  Settles, IsReducible, no_cycle, Settles-on, forward_to,
}
use flutterdec.Decompiler.Irreducible.Stack.{
  mem-get, nodes, IsPath, stack-Avoids, stack_forward, settled, Checked-on, Checked-more, left,
}
use flutterdec.Decompiler.Dominance.{dominators}

-- The variables of the search: the stack is a path, the flags say what is on it, and what was seen
-- and is not on it is settled.
record IsSearch (n : ℕ) (g : BlockGraph) (s : SearchState) : Type 0 where
  path : IsPath g (λ v. ⊥) s.stack
  flags : (x : ℕ) → Memᴰ x s.on_stack ↔ Memᴰ x (nodes s.stack)
  done : (x : ℕ) → Memᴰ x s.seen → Memᴰ x s.on_stack ⊎ Settles g x
  entry : Memᴰ 0 s.seen
  known : (x : ℕ) → Memᴰ x (nodes s.stack) → Memᴰ x g.reachable

module _ (n : ℕ) (g : BlockGraph) (is_graph : IsGraph n g) (dom : Edges)
    (is_dom : (u v : ℕ) → Memᴰ v (dom u) ↔ (Memᴰ u g.reachable × (¬ Avoids g.succs v u))) where
  abbrev work : SearchState → ℕ
  work s = left g.succs s.stack + pending n (λ u. u ∷ g.succs u) s.seen

  -- What is known after a round.
  abbrev Good : SearchState → Round → Type 0
  Good s (returned true) = ¬ IsReducible g
  Good s (returned false) = Settles g 0
  Good s (more s') = IsSearch n g s' × (work s' < work s)

  abbrev at_index : ℕ → ℕ → List (ℕ × ℕ) → List ℕ → List ℕ → SearchState
  at_index u idx rest seen on_stack = record {
    stack = (u, idx) ∷ rest;
    seen = seen;
    on_stack = on_stack;
  }

  -- The edge is taken and the search stays at the block.
  edge_taken :
      (u idx v : ℕ) (rest : List (ℕ × ℕ)) (seen on_stack : List ℕ)
      → get_elem? (g.succs u) idx ≡ some v
      → (Avoids g.succs v u → Settles g v)
      → IsSearch n g (at_index u idx rest seen on_stack)
      → Good (at_index u idx rest seen on_stack) (more (at_index u (suc idx) rest seen on_stack))
  edge_taken u idx v rest seen on_stack at fine is =
      let (checked, enters, fresh, below) = is.path in
      (
        record {
          path = (
            Checked-more g (λ w. ⊥) u idx v at (λ a. inl (fine a)) checked,
            enters,
            fresh,
            below,
          );
          flags = is.flags;
          done = is.done;
          entry = is.entry;
          known = is.known;
        },
        omega (arith, (mem-get idx (g.succs u) v at).1),
      )

  -- The block behind the edge is entered.
  block_entered :
      (u idx v : ℕ) (rest : List (ℕ × ℕ)) (seen on_stack : List ℕ)
      → get_elem? (g.succs u) idx ≡ some v
      → contains seen v ≡ false
      → contains on_stack v ≡ false
      → Memᴰ v g.reachable
      → IsSearch n g (at_index u idx rest seen on_stack)
      → Good
          (at_index u idx rest seen on_stack)
          (more (at_index v 0 ((u, suc idx) ∷ rest) (v ∷ seen) (v ∷ on_stack)))
  block_entered u idx v rest seen on_stack at new free there is =
      let (checked, enters, fresh, below) = is.path in
      let off : ¬ Memᴰ v (u ∷ nodes rest) =
        λ m. let on = (contains_iff on_stack v).1 ((is.flags v).1 m) in cc in
      let (edge, less) = mem-get idx (g.succs u) v at in
      (
        record {
          path = (
            λ w m a. absurd (Memᴰ.not-nil m),
            (edge, stack-Avoids g (λ w. ⊥) u idx rest v is.path off),
            off,
            (
              Checked-more g (λ w. w ≡ v) u idx v at (λ a. inr refl)
                  (Checked-on g (λ w. ⊥) (λ w. w ≡ v) u idx (λ w e. absurd e) checked),
              enters,
              fresh,
              below,
            ),
          );
          flags = λ x.
              ground (arith, is.flags x, Memᴰ-cons x v on_stack, Memᴰ-cons x v (u ∷ nodes rest));
          done = λ x m. elim (Memᴰ.cases_cons m) [
            | inl e ↦ inl (Memᴰ.head e)
            | inr t ↦ elim (is.done x t) [ inl a ↦ inl (Memᴰ.tail a) | inr b ↦ inr b ]
          ];
          entry = Memᴰ.tail is.entry;
          known = λ x m. elim (Memᴰ.cases_cons m) [ inl e ↦ rw e there | inr t ↦ is.known x t ];
        },
        omega (
          arith,
          less,
          pending-taken n (λ w. w ∷ g.succs w) v seen (is_graph.inside v there) new,
        ),
      )

  take_edge-Good :
      (u idx v : ℕ) (rest : List (ℕ × ℕ)) (seen on_stack : List ℕ)
      → get_elem? (g.succs u) idx ≡ some v
      → IsSearch n g (at_index u idx rest seen on_stack)
      → Good
          (at_index u idx rest seen on_stack)
          (take_edge g dom u v ((u, suc idx) ∷ rest) (at_index u idx rest seen on_stack))
  unfolding take_edge IsReducible
  take_edge-Good u idx v rest seen on_stack at is =
      let taken =
        λ (f : Avoids g.succs v u → Settles g v). edge_taken u idx v rest seen on_stack at f is in
      let (edge, _) = mem-get idx (g.succs u) v at in
      let here = is.known u (Memᴰ.head refl) in
      let there = (is_graph.reachable v).1 (step ((is_graph.reachable u).0 here) edge) in
      elim (Bool-cases (contains g.reachable v)) [
        | inr off ↦ let on = (contains_iff g.reachable v).1 there in absurd (cc)
        | inl on ↦ elim (Bool-cases (contains on_stack v)) [
          | inl busy ↦ elim (Bool-cases (contains (dom u) v)) [
            | inl back ↦
                rw (on, busy, back)
                  (taken λ a. absurd (((is_dom u v).0 ((contains_iff (dom u) v).0 back)).1 a))
            | inr forward ↦
                rw (on, busy, forward)
                  λ reducible.
                    let avoided : ¬ ¬ Avoids g.succs v u = λ k.
                      let in_dom = (contains_iff (dom u) v).1 ((is_dom u v).1 (here, k)) in cc in
                    let on_path = (is.flags v).0 ((contains_iff on_stack v).0 busy) in
                    avoided λ a.
                      no_cycle g (reducible u here) v edge a
                        (stack_forward g (λ w. ⊥) u idx rest v is.path on_path)
          ]
          | inr free ↦ elim (Bool-cases (contains seen v)) [
            | inl old ↦
                rw (on, free, old)
                  (taken λ a. elim (is.done v ((contains_iff seen v).0 old)) [
                    | inl b ↦ let clash = (contains_iff on_stack v).1 b in absurd (cc)
                    | inr b ↦ b
                  ])
            | inr new ↦
                rw (on, free, new) (block_entered u idx v rest seen on_stack at new free there is)
          ]
        ]
      ]

  -- The entry below the one that is left.
  path_below :
      (u : ℕ) (rest : List (ℕ × ℕ))
      → Settles g u
      → IsPath g (λ v. v ≡ u) rest
      → IsPath g (λ v. ⊥) rest
  path_below u [] s p = tt
  path_below u ((a, i) ∷ rest) s (checked, enters, fresh, below) = (
    Checked-on g (λ v. v ≡ u) (λ v. ⊥) a i (λ v e. inl (subst (Settles g) (sym e) s)) checked,
    enters,
    fresh,
    below,
  )

  entry_left :
      (u idx : ℕ) (rest : List (ℕ × ℕ)) (seen on_stack : List ℕ)
      → get_elem? (g.succs u) idx ≡ none
      → IsSearch n g (at_index u idx rest seen on_stack)
      → Good
          (at_index u idx rest seen on_stack)
          (more (record { stack = rest; seen = seen; on_stack = leave u on_stack }))
  entry_left u idx rest seen on_stack at is =
      let (_, _, fresh, below) = is.path in
      let finished = settled g u idx rest is.path at in
      let on = λ (x : ℕ). mem-keep (λ w. not (nat_eq w u)) x on_stack in
      (
        record {
          path = path_below u rest finished below;
          flags = λ x. (
            λ m. elim (Memᴰ.cases_cons ((is.flags x).0 ((on x).0 m).0)) [
              | inl e ↦ absurd (ground (arith, ((on x).0 m).1, nat_eq_iff x u))
              | inr t ↦ t
            ],
            λ m. (on x).1 (
              (is.flags x).1 (Memᴰ.tail m),
              elim (Bool-cases (nat_eq x u)) [
                | inl e ↦ absurd (fresh (rw ((nat_eq_iff x u).0 e) at m))
                | inr e ↦ rw e
              ],
            ),
          );
          done = λ x m. elim (is.done x m) [
            | inl a ↦ elim (Bool-cases (nat_eq x u)) [
              | inl e ↦ inr (rw ((nat_eq_iff x u).0 e) finished)
              | inr e ↦ inl ((on x).1 (a, rw e))
            ]
            | inr b ↦ inr b
          ];
          entry = is.entry;
          known = λ x m. is.known x (Memᴰ.tail m);
        },
        omega arith,
      )

  round-Good :
      (stack : List (ℕ × ℕ)) (seen on_stack : List ℕ)
      → IsSearch n g (record { stack = stack; seen = seen; on_stack = on_stack })
      → Good
          (record { stack = stack; seen = seen; on_stack = on_stack })
          (round g dom stack (record { stack = stack; seen = seen; on_stack = on_stack }))
  unfolding round take_entry
  round-Good [] seen on_stack is = elim (is.done 0 is.entry) [
    | inl a ↦ absurd (Memᴰ.not-nil ((is.flags 0).0 a))
    | inr b ↦ b
  ]
  round-Good ((u, idx) ∷ rest) seen on_stack is = elim (Option-cases (get_elem? (g.succs u) idx)) [
    | inl at ↦ rw at (entry_left u idx rest seen on_stack at is)
    | inr (v, at) ↦ rw at (take_edge-Good u idx v rest seen on_stack at is)
  ]

  abbrev Answer : Bool → Type 0
  Answer true = ¬ IsReducible g
  Answer false = IsReducible g

  Round-cases : (r : Round) → ((b : Bool) × (r ≡ returned b)) ⊎ ((s : SearchState) × (r ≡ more s))
  Round-cases (returned b) = inl (b, refl)
  Round-cases (more s) = inr (s, refl)

  answer : (s : SearchState) (b : Bool) → Good s (returned b) → Answer b
  unfolding IsReducible
  answer s true h = h
  answer s false h = λ u m. Settles-on g h (forward_to g ((is_graph.reachable u).0 m) refl)

  decided : (b : Bool) → Answer b → (b ≡ false) ↔ IsReducible g
  decided true cyclic = (λ e. absurd (cc), λ told. absurd (cyclic told))
  decided false told = (λ e. told, λ r. refl)

  run_ends :
      (fuel : ℕ) (s : SearchState)
      → IsSearch n g s
      → work s < fuel
      → (b : Bool) × (run fuel g dom s ≡ some b) × Answer b
  unfolding run
  run_ends zero s is h = absurd (omega arith)
  run_ends (suc fuel) s is h =
      let good = round-Good s.stack s.seen s.on_stack is in
      elim (Round-cases (round g dom s.stack s)) [
        | inl (b, e) ↦ (
          b,
          ap (λ r. after_round r (λ next. run fuel g dom next)) e,
          answer s b (subst (Good s) e good),
        )
        | inr (t, e) ↦
            let next_good : IsSearch n g t × (work t < work s) = subst (Good s) e good in
            let (is', less) = next_good in
            let (b, ends, told) = run_ends fuel t is' (omega arith) in
            (b, ap (λ r. after_round r (λ next. run fuel g dom next)) e ∙ ends, told)
      ]

module _ (n : ℕ) (g : BlockGraph) (is_graph : IsGraph n g) where
  -- The search ends within its rounds, and it finds that the graph is not irreducible exactly when
  -- every path of edges to blocks that do not dominate their source ends.
  pub irreducible_iff :
      (dom : Edges) × (dominators n g.preds g.reachable ≡ some dom)
      × (b : Bool) × (is_irreducible n g dom ≡ some b)
      × ((b ≡ false) ↔ IsReducible g)
  unfolding is_irreducible
  irreducible_iff =
      let (dom, ends, is_dom) = dominators_iff n g is_graph in
      let entry = (is_graph.reachable 0).1 stay in
      let (b, answered, told) =
        run_ends n g is_graph dom is_dom (search_rounds n g.succs)
          (record { stack = (0, 0) ∷ []; seen = 0 ∷ []; on_stack = 0 ∷ [] })
          (record {
            path = (λ v m a. absurd (Memᴰ.not-nil m), refl, λ m. Memᴰ.not-nil m, tt);
            flags = λ x. (λ m. m, λ m. m);
            done = λ x m. inl m;
            entry = Memᴰ.head refl;
            known = λ x m. rw (Memᴰ.eq_of_singleton m) entry;
          })
          (omega
            (arith, pending-taken n (λ u. u ∷ g.succs u) 0 [] (is_graph.inside 0 entry) refl)) in
      (dom, ends, b, answered, decided n g is_graph dom is_dom b told)
