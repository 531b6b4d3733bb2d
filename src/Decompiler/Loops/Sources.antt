-- ===== src/Decompiler/Loops/Sources.antt =====
-- `natural_loops` of crates/flutterdec-decompiler/src/control_flow/regions.rs: the loop of a header
-- while its back edges are added.
use mathlib.Core.List.Memᴰ
use flutterdec.Common.{
  contains, contains_iff, Memᴰ-cons, nat_eq, if◌then◌else◌, nat_eq_iff, Bool-cases, is_some, ℕ, ◌<◌,
  ◌≡◌, refl, sym, subst, ◌↔◌, ◌⊎◌, inl, inr, true, Option, some, List, ◌∷◌, Memᴰ, arith, [], ℕ_eq,
  List_eq, Option_eq, ℕ_order, Text_order,
}
use flutterdec.Decompiler.Regions.{Edges, BlockGraph}
use flutterdec.Decompiler.Dominance.Dominators.{Avoids}
use flutterdec.Decompiler.Loops.{Bodies, collect, collect_rounds, body_or, put_body, add_loops}
use flutterdec.Decompiler.Loops.Collect.{Around, IsClosed, collect_iff}

-- The header is on every path to the source of an edge to it.
abbrev pub IsBackEdge : BlockGraph → ℕ → ℕ → Type 0
IsBackEdge g u h = Memᴰ h (g.succs u) × (¬ Avoids g.succs h u)

-- The loop of a header whose back edges start at the blocks of `D`.
pub record IsLoop (preds : Edges) (h : ℕ) (D : ℕ → Type 0) (loop : Option (List ℕ)) : Type 0 where
  pub present : (is_some loop ≡ true) ↔ ((u : ℕ) × D u)
  pub members : (x : ℕ) → Memᴰ x (body_or h loop) ↔ ((x ≡ h) ⊎ ((u : ℕ) × D u × Around preds h x u))
  pub closed : IsClosed preds h (body_or h loop) []

pub same_sources :
    (preds : Edges) (h : ℕ) {D E : ℕ → Type 0} (loop : Option (List ℕ))
    → ((u : ℕ) → D u ↔ E u)
    → IsLoop preds h D loop
    → IsLoop preds h E loop
same_sources preds h loop same is = record {
  present = (
    λ m. let (u, d) = is.present.0 m in (u, (same u).0 d),
    λ (u, e). is.present.1 (u, (same u).1 e),
  );
  members = λ x. (
    λ m. elim ((is.members x).0 m) [ inl a ↦ inl a | inr (u, d, a) ↦ inr (u, (same u).0 d, a) ],
    λ m. (is.members x).1 (elim m [ inl a ↦ inl a | inr (u, e, a) ↦ inr (u, (same u).1 e, a) ]),
  );
  closed = is.closed;
}

-- The bodies of the loops whose back edges are those of `D`.
abbrev pub IsBodies : Edges → (ℕ → ℕ → Type 0) → Bodies → Type 0
IsBodies preds D bodies = (h : ℕ) → IsLoop preds h (λ u. D u h) (bodies h)

module _ (n : ℕ) (preds : Edges) (bounded : (u p : ℕ) → Memᴰ p (preds u) → p < n) where
  add_source :
      (h u : ℕ) {D : ℕ → Type 0} (loop : Option (List ℕ))
      → u < n
      → IsLoop preds h D loop
      → (body : List ℕ) × (collect (collect_rounds n preds) preds h (body_or h loop, u ∷ [])
          ≡ some body)
        × IsLoop preds h (λ a. D a ⊎ (a ≡ u)) (some body)
  add_source h u loop below is =
      let (body, ends, mem, shut) =
        collect_iff n preds h bounded (body_or h loop) u below ((is.members h).1 (inl refl))
          is.closed in
      (
        body,
        ends,
        record {
          present = (λ m. (u, inr refl), λ m. refl);
          members = λ x. (
            λ m. elim ((mem x).0 m) [
              | inl old ↦ elim ((is.members x).0 old) [
                | inl e ↦ inl e
                | inr (a, d, r) ↦ inr (a, inl d, r)
              ]
              | inr r ↦ inr (u, inr refl, r)
            ],
            λ m. (mem x).1 (elim m [
              | inl e ↦ inl ((is.members x).1 (inl e))
              | inr (a, inl d, r) ↦ inl ((is.members x).1 (inr (a, d, r)))
              | inr (a, inr e, r) ↦ inr (subst (Around preds h x) e r)
            ]),
          );
          closed = shut;
        },
      )

  -- The edges of `D`, and one more.
  add_one :
      (D : ℕ → ℕ → Type 0) (bodies : Bodies) (u v : ℕ)
      → u < n
      → IsBodies preds D bodies
      → (out : Bodies) × (put_body bodies v
            (collect (collect_rounds n preds) preds v (body_or v (bodies v), u ∷ []))
          ≡ some out)
        × IsBodies preds (λ a h. D a h ⊎ (a ≡ u) × (h ≡ v)) out
  add_one D bodies u v below is =
      let (body, ends, grown) = add_source v u (bodies v) below (is v) in
      (
        (λ j. if nat_eq j v then some body else bodies j),
        rw ends refl,
        λ h. elim (Bool-cases (nat_eq h v)) [
          | inl same ↦
              let e = (nat_eq_iff h v).0 same in
              let there : IsLoop preds v (λ a. D a v ⊎ (a ≡ u) × (v ≡ v)) (some body) =
                same_sources preds v (some body)
                  (λ a. (
                    λ m. elim m [ inl d ↦ inl d | inr q ↦ inr (q, refl) ],
                    λ m. elim m [ inl d ↦ inl d | inr (q, _) ↦ inr q ],
                  ))
                  grown in
              rw same (
                subst (λ k. IsLoop preds k (λ a. D a k ⊎ (a ≡ u) × (k ≡ v)) (some body)) (sym e)
                  there)
          | inr other ↦ rw other (
              same_sources preds h (bodies h)
                (λ a. (
                  λ d. inl d,
                  λ m. elim m [
                    | inl d ↦ d
                    | inr (_, e) ↦ absurd (ground (arith, (nat_eq_iff h v).1 e))
                  ],
                ))
                (is h))
        ],
      )

  -- The edges of `D`, and those of a block to its dominators.
  pub add_all :
      (D : ℕ → ℕ → Type 0) (dom : Edges) (u : ℕ) (vs : List ℕ) (bodies : Bodies)
      → u < n
      → IsBodies preds D bodies
      → (out : Bodies) × (add_loops n preds dom u vs (some bodies) ≡ some out)
        × IsBodies preds (λ a h. D a h ⊎ (a ≡ u) × Memᴰ h vs × Memᴰ h (dom u)) out
  unfolding add_loops
  add_all D dom u [] bodies below is = (
    bodies,
    refl,
    λ h.
        same_sources preds h (bodies h)
          (λ a. (λ d. inl d, λ m. elim m [ inl d ↦ d | inr (_, k, _) ↦ absurd (Memᴰ.not-nil k) ]))
          (is h),
  )
  add_all D dom u (v ∷ vs) bodies below is = elim (Bool-cases (contains (dom u) v)) [
    | inl back ↦
        let (one, added, good) = add_one D bodies u v below is in
        let (out, ends, all_good) =
          add_all (λ a h. D a h ⊎ (a ≡ u) × (h ≡ v)) dom u vs one below good in
        (
          out,
          rw (back, added) ends,
          λ h.
              same_sources preds h (out h)
                (λ a.
                  let v_in : h ≡ v → Memᴰ h (dom u) = λ e. rw e ((contains_iff (dom u) v).0 back) in
                  ground (arith, Memᴰ-cons h v vs, v_in))
                (all_good h),
        )
    | inr not_back ↦
        let (out, ends, all_good) = add_all D dom u vs bodies below is in
        (
          out,
          rw not_back ends,
          λ h.
              same_sources preds h (out h)
                (λ a.
                  let v_out : h ≡ v → ¬ Memᴰ h (dom u) =
                    λ e m. let on = (contains_iff (dom u) v).1 (rw e at m) in cc in
                  ground (arith, Memᴰ-cons h v vs, v_out))
                (all_good h),
        )
  ]
