-- ===== src/Decompiler/Regions/Predecessors.antt =====
-- The predecessors that `Regions::build` of crates/flutterdec-decompiler/src/control_flow/regions.rs
-- collects from the successors.
use mathlib.Core.List.Memᴰ
use flutterdec.Common.{
  contains, Memᴰ-cons, nat_eq, nat_eq_iff, Bool-cases, ℕ, zero, suc, ◌<◌, ◌≡◌, ap, subst, ◌↔◌, ◌⊎◌,
  inl, inr, true, List, ◌∷◌, ◌++◌, Memᴰ, arith, [], ℕ_eq, List_eq, Option_eq, ℕ_order, Text_order,
}
use flutterdec.Decompiler.Regions.{Edges, put, push_all, predecessors_below}

put_iff :
    (u w : ℕ) (p : Edges) (v x : ℕ)
    → Memᴰ x (put p w (p w ++ u ∷ []) v) ↔ (Memᴰ x (p v) ⊎ (x ≡ u) × (v ≡ w))
put_iff u w p v x = elim (Bool-cases (nat_eq v w)) [
  | inl here ↦
      let same = (nat_eq_iff v w).0 here in
      rw here (
        λ m. elim (Memᴰ.append_cases (p w) m) [
          | inl a ↦ inl (rw same a)
          | inr a ↦ inr (Memᴰ.eq_of_singleton a, same)
        ],
        λ m. elim m [
          | inl a ↦ Memᴰ.append_left (u ∷ []) (rw same at a)
          | inr (e, _) ↦ Memᴰ.append_right (p w) (Memᴰ.head e)
        ],
      )
  | inr there ↦
      rw there (
        λ m. inl m,
        λ m. elim m [ inl a ↦ a | inr (_, e) ↦ absurd (ground (arith, nat_eq_iff v w)) ],
      )
]

push_all_iff :
    (u : ℕ) (vs : List ℕ) (p : Edges) (v x : ℕ)
    → Memᴰ x (push_all u vs p v) ↔ (Memᴰ x (p v) ⊎ (x ≡ u) × Memᴰ v vs)
unfolding push_all
push_all_iff u [] p v x =
    (λ m. inl m, λ m. elim m [ inl a ↦ a | inr a ↦ absurd (Memᴰ.not-nil a.1) ])
push_all_iff u (w ∷ vs) p v x =
    ground
      (arith, push_all_iff u vs (put p w (p w ++ u ∷ [])) v x, put_iff u w p v x, Memᴰ-cons v w vs)

-- Among the blocks below `n`, the predecessors of `v` are the reachable blocks with an edge to it.
pub predecessors_iff :
    (n : ℕ) (r : List ℕ) (succs : Edges) (v x : ℕ)
    → Memᴰ x (predecessors_below n r succs v) ↔ ((x < n) × (contains r x ≡ true) × Memᴰ v (succs x))
unfolding predecessors_below
predecessors_iff zero r succs v x = (λ m. absurd (Memᴰ.not-nil m), λ m. absurd (omega (arith, m.0)))
predecessors_iff (suc u) r succs v x =
    let ih = predecessors_iff u r succs v x in
    let pushed = push_all_iff u (succs u) (predecessors_below u r succs) v x in
    elim (Bool-cases (contains r u)) [
      | inl on ↦ rw on (
        λ m. elim (pushed.0 m) [
          | inl old ↦ let (less, flag, edge) = ih.0 old in (omega arith, flag, edge)
          | inr (e, edge) ↦ rw e (omega arith, on, edge)
        ],
        λ (less, flag, edge). elim (Bool-cases (nat_eq x u)) [
          | inl e ↦
              let same = (nat_eq_iff x u).0 e in
              pushed.1 (inr (same, subst (λ y. Memᴰ v (succs y)) same edge))
          | inr e ↦ pushed.1 (inl (ih.1 (ground arith, flag, edge)))
        ],
      )
      | inr off ↦ rw off (
        λ m. let (less, flag, edge) = ih.0 m in (omega arith, flag, edge),
        λ (less, flag, edge). elim (Bool-cases (nat_eq x u)) [
          | inl e ↦ let same = (nat_eq_iff x u).0 e in absurd (ground (arith, ap (contains r) same))
          | inr e ↦ ih.1 (ground arith, flag, edge)
        ],
      )
    ]
