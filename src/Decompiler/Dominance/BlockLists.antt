-- ===== src/Decompiler/Dominance/BlockLists.antt =====
-- The lists of blocks and the number of rounds, for `dominators` and `immediate_post_dominators` of
-- crates/flutterdec-decompiler/src/control_flow/regions.rs.
use mathlib.Core.List.Memᴰ
use flutterdec.Common.{
  contains, contains_iff, length, keep, mem-keep, nat_eq, nat_eq_iff, Bool-cases, ℕ, zero, suc, ◌+◌,
  ◌≤◌, ◌<◌, ◌≡◌, refl, ◌↔◌, inl, inr, Bool, List, ◌∷◌, ◌++◌, Memᴰ, arith, [], ℕ_eq, List_eq,
  Option_eq, ℕ_order, Text_order,
}
use flutterdec.Decompiler.Regions.{Edges}
use flutterdec.Decompiler.Dominance.{range, all_blocks, rounds, backwards}
use flutterdec.Decompiler.Dominance.Rounds.{total, total-le_bound}

pub mem-range : (n x : ℕ) → Memᴰ x (range n) ↔ (x < n)
mem-range zero x = (λ m. absurd (Memᴰ.not-nil m), λ h. absurd (omega (arith, h)))
mem-range (suc k) x = (
  λ m. elim (Memᴰ.append_cases (range k) m) [
    | inl a ↦ omega (arith, (mem-range k x).0 a)
    | inr a ↦ omega (arith, Memᴰ.eq_of_singleton a)
  ],
  λ h. elim (Bool-cases (nat_eq x k)) [
    | inl e ↦ Memᴰ.append_right (range k) (Memᴰ.head ((nat_eq_iff x k).0 e))
    | inr e ↦ Memᴰ.append_left (k ∷ []) ((mem-range k x).1 (ground arith))
  ],
)

pub mem-all_blocks : (n : ℕ) (r : List ℕ) (x : ℕ) → Memᴰ x (all_blocks n r) ↔ ((x < n) × Memᴰ x r)
mem-all_blocks n r x =
    let k = mem-keep (contains r) x (range n) in
    (
      λ m. let (a, b) = k.0 m in ((mem-range n x).0 a, (contains_iff r x).0 b),
      λ (a, b). k.1 ((mem-range n x).1 a, (contains_iff r x).1 b),
    )

length-snoc : (xs : List ℕ) (x : ℕ) → length (xs ++ x ∷ []) ≡ length xs + 1
length-snoc [] x = refl
length-snoc (y ∷ ys) x = omega (arith, length-snoc ys x)

length-range : (n : ℕ) → length (range n) ≡ n
length-range zero = refl
length-range (suc k) = omega (arith, length-snoc (range k) k, length-range k)

length-keep : (p : ℕ → Bool) (xs : List ℕ) → length (keep p xs) ≤ length xs
length-keep p [] = omega arith
length-keep p (x ∷ xs) = ground (arith, length-keep p xs)

-- The rounds are enough for any sets of the blocks that are kept.
pub enough_rounds :
    (n : ℕ) (p q : ℕ → Bool) (dom : Edges) → total n (keep p (keep q (range n))) dom < rounds n
enough_rounds n p q dom =
    let few : length (keep p (keep q (range n))) ≤ n =
      omega (arith, length-keep p (keep q (range n)), length-keep q (range n), length-range n) in
    grind (arith, total-le_bound n (keep p (keep q (range n))) dom, few)

pub mem-backwards : (n x : ℕ) → Memᴰ x (backwards n) ↔ (x < n)
mem-backwards zero x = (λ m. absurd (Memᴰ.not-nil m), λ h. absurd (omega (arith, h)))
mem-backwards (suc k) x = (
  λ m. elim (Memᴰ.cases_cons m) [
    | inl e ↦ omega (arith, e)
    | inr t ↦ omega (arith, (mem-backwards k x).0 t)
  ],
  λ h. elim (Bool-cases (nat_eq x k)) [
    | inl e ↦ Memᴰ.head ((nat_eq_iff x k).0 e)
    | inr e ↦ Memᴰ.tail ((mem-backwards k x).1 (ground arith))
  ],
)

length-backwards : (n : ℕ) → length (backwards n) ≡ n
length-backwards zero = refl
length-backwards (suc k) = omega (arith, length-backwards k)

pub enough_rounds-backwards :
    (n : ℕ) (p q : ℕ → Bool) (dom : Edges) → total n (keep p (keep q (backwards n))) dom < rounds n
enough_rounds-backwards n p q dom =
    let few : length (keep p (keep q (backwards n))) ≤ n = omega (
      arith,
      length-keep p (keep q (backwards n)),
      length-keep q (backwards n),
      length-backwards n,
    ) in
    grind (arith, total-le_bound n (keep p (keep q (backwards n))) dom, few)
