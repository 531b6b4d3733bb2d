-- ===== src/Decompiler/Regions/BlockEdges.antt =====
-- The edges that `Regions::build` of crates/flutterdec-decompiler/src/control_flow/regions.rs
-- collects from the blocks, and an independent description of them.

use flutterdec.Common.{
  length, All, keep, mem-keep, ltb, leb, nat_eq, nat_eq_iff, Bool-cases, ℕ, ◌<◌, ◌≡◌, refl, subst,
  ◌↔◌, ◌⊎◌, inl, inr, some, List, ◌∷◌, Memᴰ, arith, [], ℕ_eq, List_eq, Option_eq, ℕ_order,
  Text_order,
}
use flutterdec.Decompiler.Regions.{Edges, Block, put, fill}
use flutterdec.Decompiler.Regions.Reach.{IsBounded}

-- The blocks have an edge from `u` to `v`: the last block whose id is `u` lists `v`.
abbrev pub IsListed : List Block → ℕ → ℕ → Type 0
IsListed [] u v = ⊥
IsListed (b ∷ bs) u v =
    IsListed bs u v ⊎ All (λ (k : Block). ¬ (k.id ≡ u)) bs × (b.id ≡ u) × Memᴰ v b.succs

-- An edge that does not leave the function.
abbrev pub IsEdge : List Block → ℕ → ℕ → Type 0
IsEdge blocks u v = IsListed blocks u v × (v < length blocks)

-- A path along the edges of the blocks.
pub data Route (blocks : List Block) (u : ℕ) : ℕ → Type 0 where
  start : Route blocks u u
  along : {v w : ℕ} → Route blocks u v → IsEdge blocks v w → Route blocks u w

pub fill-IsBounded :
    (n : ℕ) (bs : List Block) (e : Edges) {out : Edges}
    → IsBounded n e
    → fill n bs e ≡ some out
    → IsBounded n out
unfolding fill
fill-IsBounded n [] e b h = subst (IsBounded n) (ground (arith, h)) b
fill-IsBounded n (k ∷ bs) e b h =
    fill-IsBounded n bs (put e k.id (keep (λ s. ltb s n) k.succs))
      (λ u v m. elim (Bool-cases (nat_eq u k.id)) [
        | inl here ↦ ground (arith, (mem-keep (λ s. ltb s n) v k.succs).0 (rw here at m))
        | inr there ↦ b u v (rw there at m)
      ])
      (ground arith)

pub fill_iff :
    (n : ℕ) (bs : List Block) (e : Edges)
    → ((out : Edges) × (fill n bs e ≡ some out)) ↔ All (λ (b : Block). b.id < n) bs
unfolding fill
fill_iff n [] e = (λ h. tt, λ h. (e, refl))
fill_iff n (k ∷ bs) e =
    let ih = fill_iff n bs (put e k.id (keep (λ s. ltb s n) k.succs)) in
    elim (Bool-cases (leb n k.id)) [
      | inl out ↦ rw out (λ h. absurd (cc h.1), λ h. absurd (ground (arith, h.0)))
      | inr within ↦ rw within (λ h. (ground arith, ih.0 h), λ h. ih.1 h.1)
    ]

pub fill_edges :
    (n : ℕ) (bs : List Block) (e : Edges) {out : Edges} (u v : ℕ)
    → fill n bs e ≡ some out
    → Memᴰ v (out u)
      ↔ (IsListed bs u v × (v < n) ⊎ All (λ (k : Block). ¬ (k.id ≡ u)) bs × Memᴰ v (e u))
unfolding fill
fill_edges n [] e {out} u v h =
    let same : e ≡ out = ground (arith, h) in
    (λ m. inr (tt, rw same m), λ m. elim m [ inl a ↦ absurd a.0 | inr a ↦ rw (← same) a.1 ])
fill_edges n (k ∷ bs) e {out} u v h =
    let ih =
      fill_edges n bs (put e k.id (keep (λ s. ltb s n) k.succs)) {out = out} u v (ground arith) in
    let kept = mem-keep (λ s. ltb s n) v k.succs in
    elim (Bool-cases (nat_eq u k.id)) [
      | inl here ↦
          let same = (nat_eq_iff u k.id).0 here in
          let mine : put e k.id (keep (λ s. ltb s n) k.succs) u ≡ keep (λ s. ltb s n) k.succs =
            ground arith in
          ground (arith, rw mine at ih, kept)
      | inr there ↦
          let other : put e k.id (keep (λ s. ltb s n) k.succs) u ≡ e u = ground arith in
          let apart : ¬ (k.id ≡ u) = ground (arith, nat_eq_iff u k.id) in
          ground (arith, rw other at ih)
    ]
