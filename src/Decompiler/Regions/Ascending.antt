-- ===== src/Decompiler/Regions/Ascending.antt =====
-- The order in which `Regions::build` of crates/flutterdec-decompiler/src/control_flow/regions.rs
-- lists predecessors.
use flutterdec.Common.{
  contains, All, All-map, IsWeaklyAscending, ltb, nat_eq, Bool-cases, ℕ, zero, suc, ◌≤◌, ◌<◌, ◌≡◌,
  inl, inr, false, List, ◌∷◌, ◌++◌, arith, [], ℕ_eq, List_eq, Option_eq, ℕ_order, Text_order,
}
use flutterdec.Decompiler.Regions.{Edges, put, push_all, predecessors_below}

-- In order, and none above `u`.
abbrev IsOrderedTo : ℕ → List ℕ → Type 0
IsOrderedTo u xs = IsWeaklyAscending xs × All (λ y. y ≤ u) xs

snoc-All : (P : ℕ → Type 0) (xs : List ℕ) (u : ℕ) → All P xs → P u → All P (xs ++ u ∷ [])
snoc-All P [] u h k = (k, tt)
snoc-All P (x ∷ xs) u h k = (h.0, snoc-All P xs u h.1 k)

snoc-IsOrderedTo : (xs : List ℕ) (u : ℕ) → IsOrderedTo u xs → IsOrderedTo u (xs ++ u ∷ [])
snoc-IsOrderedTo [] u h = ((tt, tt), (omega arith, tt))
snoc-IsOrderedTo (x ∷ xs) u (asc, below) =
    let (rest, bound) = snoc-IsOrderedTo xs u (asc.1, below.1) in
    ((snoc-All (λ y. ltb y x ≡ false) xs u asc.0 (ground (arith, below.0)), rest), (below.0, bound))

push_all-IsOrderedTo :
    (u : ℕ) (vs : List ℕ) (p : Edges)
    → ((v : ℕ) → IsOrderedTo u (p v))
    → (v : ℕ) → IsOrderedTo u (push_all u vs p v)
unfolding push_all
push_all-IsOrderedTo u [] p h v = h v
push_all-IsOrderedTo u (w ∷ vs) p h v =
    push_all-IsOrderedTo u vs (put p w (p w ++ u ∷ []))
      (λ k. elim (Bool-cases (nat_eq k w)) [
        | inl here ↦ rw here (snoc-IsOrderedTo (p w) u (h w))
        | inr there ↦ rw there (h k)
      ])
      v

pub predecessors-IsWeaklyAscending :
    (n : ℕ) (r : List ℕ) (succs : Edges) (v : ℕ)
    → IsWeaklyAscending (predecessors_below n r succs v)
      × All (λ y. y < n) (predecessors_below n r succs v)
unfolding predecessors_below
predecessors-IsWeaklyAscending zero r succs v = (tt, tt)
predecessors-IsWeaklyAscending (suc u) r succs v =
    let before = predecessors-IsWeaklyAscending u r succs in
    elim (Bool-cases (contains r u)) [
      | inl on ↦
          let (asc, below) =
            push_all-IsOrderedTo u (succs u) (predecessors_below u r succs)
              (λ k. (
                (before k).0,
                All-map (predecessors_below u r succs k) (λ y q. omega arith) (before k).1,
              ))
              v in
          rw on (
            asc,
            All-map (push_all u (succs u) (predecessors_below u r succs) v) (λ y q. omega arith)
                below,
          )
      | inr off ↦
          rw off (
            (before v).0,
            All-map (predecessors_below u r succs v) (λ y q. omega arith) (before v).1,
          )
    ]
