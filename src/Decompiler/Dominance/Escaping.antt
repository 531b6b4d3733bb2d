-- ===== src/Decompiler/Dominance/Escaping.antt =====
-- Paths to a block without a successor, for the follow nodes of `immediate_post_dominators` in
-- crates/flutterdec-decompiler/src/control_flow/regions.rs.
use flutterdec.Common.{
  nat_eq, nat_eq_iff, Bool-cases, ℕ, ◌≡◌, sym, ◌∙◌, subst, ◌≢◌, ◌⊎◌, inl, inr, Memᴰ, arith, [],
  ℕ_eq, List_eq, Option_eq, ℕ_order, Text_order,
}
use flutterdec.Decompiler.Regions.{Edges}
use flutterdec.Decompiler.Dominance.PostDominators.{Escapes, out}

-- A path to a block without a successor.
pub data Ends (succs : Edges) : ℕ → Type 0 where
  last : {u : ℕ} → succs u ≡ [] → Ends succs u
  onward : {u w : ℕ} → Memᴰ w (succs u) → Ends succs w → Ends succs u

-- Of two blocks that neither lies behind the other, every path to the end avoids one.
pub avoids_one :
    (succs : Edges) (p f : ℕ)
    → p ≢ f
    → Escapes succs p f
    → Escapes succs f p
    → {u : ℕ} → Ends succs u
    → Escapes succs p u ⊎ Escapes succs f u
avoids_one succs p f d a b (last {u = u} e) = elim (Bool-cases (nat_eq p u)) [
  | inl same ↦ inr (out e λ q. d ((nat_eq_iff p u).0 same ∙ sym q))
  | inr other ↦ inl (out e λ q. ground (arith, (nat_eq_iff p u).1 q))
]
avoids_one succs p f d a b (onward {u = u} m r) = elim (avoids_one succs p f d a b r) [
  | inl x ↦ elim (Bool-cases (nat_eq p u)) [
    | inl same ↦ inr (subst (Escapes succs f) ((nat_eq_iff p u).0 same) b)
    | inr other ↦ inl (Escapes.onward (λ q. ground (arith, (nat_eq_iff p u).1 q)) m x)
  ]
  | inr x ↦ elim (Bool-cases (nat_eq f u)) [
    | inl same ↦ inl (subst (Escapes succs p) ((nat_eq_iff f u).0 same) a)
    | inr other ↦ inr (Escapes.onward (λ q. ground (arith, (nat_eq_iff f u).1 q)) m x)
  ]
]

-- A path that avoids `v` avoids `f` too, or its rest from `f` on avoids `v`.
pub rest_avoids :
    (succs : Edges) (v f : ℕ) → {u : ℕ} → Escapes succs v u → Escapes succs f u ⊎ Escapes succs v f
rest_avoids succs v f (out {u = u} e d) = elim (Bool-cases (nat_eq f u)) [
  | inl same ↦ inr (subst (Escapes succs v) (sym ((nat_eq_iff f u).0 same)) (out e d))
  | inr other ↦ inl (out e λ q. ground (arith, (nat_eq_iff f u).1 q))
]
rest_avoids succs v f (Escapes.onward {u = u} d m r) = elim (rest_avoids succs v f r) [
  | inl x ↦ elim (Bool-cases (nat_eq f u)) [
    | inl same ↦
        inr (subst (Escapes succs v) (sym ((nat_eq_iff f u).0 same)) (Escapes.onward d m r))
    | inr other ↦ inl (Escapes.onward (λ q. ground (arith, (nat_eq_iff f u).1 q)) m x)
  ]
  | inr x ↦ inr x
]

-- A path to the end avoids two blocks, or its rest from the one that it meets last avoids the other.
pub avoids_both :
    (succs : Edges) (p f : ℕ)
    → p ≢ f
    → {u : ℕ} → Ends succs u
    → (Escapes succs p u × Escapes succs f u) ⊎ Escapes succs p f ⊎ Escapes succs f p
avoids_both succs p f d (last {u = u} e) = elim (Bool-cases (nat_eq p u)) [
  | inl same ↦
      let at_p = (nat_eq_iff p u).0 same in
      inr (inr (subst (Escapes succs f) (sym at_p) (out e λ q. d (at_p ∙ sym q))))
  | inr off_p ↦ elim (Bool-cases (nat_eq f u)) [
    | inl same ↦
        let at_f = (nat_eq_iff f u).0 same in
        inr (inl (subst (Escapes succs p) (sym at_f) (out e λ q. d (q ∙ sym at_f))))
    | inr off_f ↦ inl (
      out e λ q. ground (arith, (nat_eq_iff p u).1 q),
      out e λ q. ground (arith, (nat_eq_iff f u).1 q),
    )
  ]
]
avoids_both succs p f d (onward {u = u} m r) = elim (avoids_both succs p f d r) [
  | inr found ↦ inr found
  | inl (x, y) ↦ elim (Bool-cases (nat_eq p u)) [
    | inl same ↦
        let at_p = (nat_eq_iff p u).0 same in
        inr (inr (subst (Escapes succs f) (sym at_p) (Escapes.onward (λ q. d (at_p ∙ sym q)) m y)))
    | inr off_p ↦ elim (Bool-cases (nat_eq f u)) [
      | inl same ↦
          let at_f = (nat_eq_iff f u).0 same in
          inr
            (inl (subst (Escapes succs p) (sym at_f) (Escapes.onward (λ q. d (q ∙ sym at_f)) m x)))
      | inr off_f ↦ inl (
        Escapes.onward (λ q. ground (arith, (nat_eq_iff p u).1 q)) m x,
        Escapes.onward (λ q. ground (arith, (nat_eq_iff f u).1 q)) m y,
      )
    ]
  ]
]

pub Escapes-other : (succs : Edges) (v : ℕ) → {u : ℕ} → Escapes succs v u → v ≢ u
Escapes-other succs v (out e d) = d
Escapes-other succs v (Escapes.onward d m r) = d
