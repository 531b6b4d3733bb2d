-- ===== src/Decompiler/Irreducible/Forward.antt =====
-- Paths of edges that do not lead back to a dominator, and the graphs where they all end. Such a
-- graph is reducible: `is_irreducible` of
-- crates/flutterdec-decompiler/src/control_flow/regions.rs looks for one that is not.

use flutterdec.Common.{
  nat_eq, nat_eq_iff, Bool-cases, ℕ, ◌≡◌, refl, sym, ◌∙◌, subst, ◌⊎◌, inl, inr, Memᴰ, arith, ℕ_eq,
  List_eq, Option_eq, ℕ_order, Text_order,
}
use flutterdec.Decompiler.Regions.{BlockGraph}
use flutterdec.Decompiler.Regions.Reach.{Leads, stay, step}
use flutterdec.Decompiler.Dominance.Dominators.{Avoids, start, go}

-- Every path from a block along edges to blocks that do not dominate their source ends.
pub data Settles (g : BlockGraph) : ℕ → Type 0 where
  settle : {u : ℕ} → ((v : ℕ) → Memᴰ v (g.succs u) → Avoids g.succs v u → Settles g v) → Settles g u

unfoldable pub IsReducible : BlockGraph → Type 0
IsReducible g = (u : ℕ) → Memᴰ u g.reachable → Settles g u

-- A path along such edges.
pub data Forward (g : BlockGraph) (a : ℕ) : ℕ → Type 0 where
  same : {b : ℕ} → b ≡ a → Forward g a b
  next : {b c : ℕ} → Forward g a b → Memᴰ c (g.succs b) → Avoids g.succs c b → Forward g a c

first_edge :
    (g : BlockGraph) {a c : ℕ}
    → Forward g a c
    → (c ≡ a) ⊎ ((b : ℕ) × Memᴰ b (g.succs a) × Avoids g.succs b a × Forward g b c)
first_edge g (same e) = inl e
first_edge g (next {b = b} {c = c} p m d) = elim (first_edge g p) [
  | inl e ↦ inr (c, rw (← e) m, subst (Avoids g.succs c) e d, same refl)
  | inr (x, k, q, r) ↦ inr (x, k, q, next r m d)
]

-- No such path comes back to where it started.
pub no_cycle :
    (g : BlockGraph) {u : ℕ}
    → Settles g u
    → (w : ℕ) → Memᴰ w (g.succs u)
    → Avoids g.succs w u
    → Forward g w u
    → ⊥
no_cycle g {u} (settle f) w m d p = elim (first_edge g p) [
  | inl e ↦ no_cycle g (f w m d) w (rw e at m) (subst (Avoids g.succs w) e d) (same refl)
  | inr (x, k, q, r) ↦ no_cycle g (f w m d) x k q (next r m d)
]

pub Settles-on : (g : BlockGraph) {a b : ℕ} → Settles g a → Forward g a b → Settles g b
Settles-on g s (same e) = subst (Settles g) (sym e) s
Settles-on g s (next {c = c} p m d) = elim (Settles-on g s p) [ settle f ↦ f c m d ]

-- Such a path to `a` avoids a block, or a part of it leads to that block.
part_or_Avoids :
    (g : BlockGraph) (x : ℕ) {a b : ℕ} → Forward g a b → a ≡ 0 → Forward g a x ⊎ Avoids g.succs x b
part_or_Avoids g x {a} (same e) z = elim (Bool-cases (nat_eq x a)) [
  | inl h ↦ inl (same ((nat_eq_iff x a).0 h))
  | inr h ↦ inr (start (e ∙ z) λ q. ground (arith, (nat_eq_iff x a).1 (q ∙ e)))
]
part_or_Avoids g x (next {b = b} {c = c} p m d) z = elim (part_or_Avoids g x p z) [
  | inl q ↦ inl q
  | inr v ↦ elim (Bool-cases (nat_eq x c)) [
    | inl h ↦ inl (rw ((nat_eq_iff x c).0 h) (next p m d))
    | inr h ↦ inr (go v m λ q. ground (arith, (nat_eq_iff x c).1 q))
  ]
]

-- What the entry leads to, it leads to along such edges.
pub forward_to : (g : BlockGraph) {u v : ℕ} → Leads g.succs u v → u ≡ 0 → Forward g u v
forward_to g stay z = same refl
forward_to g (step {v = v} {w = w} p m) z = elim (part_or_Avoids g w (forward_to g p z) z) [
  | inl q ↦ q
  | inr a ↦ next (forward_to g p z) m a
]
