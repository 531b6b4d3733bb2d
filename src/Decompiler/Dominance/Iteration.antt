-- ===== src/Decompiler/Dominance/Iteration.antt =====
-- The iteration that `dominators` and `immediate_post_dominators` share, in
-- crates/flutterdec-decompiler/src/control_flow/regions.rs.
use mathlib.Core.List.Memᴰ
use flutterdec.Common.{
  contains, contains_iff, Memᴰ-cons, All-of_mem, all_iff, mem-keep, All-mem, nat_eq, nat_eq_iff,
  Bool-cases, ℕ, ◌<◌, ◌≡◌, refl, subst, ◌↔◌, ◌⊎◌, inl, inr, true, false, List, ◌∷◌, Memᴰ, arith, [],
  ℕ_eq, List_eq, Option_eq, ℕ_order, Text_order,
}
use flutterdec.Decompiler.Regions.{Edges, put}
use flutterdec.Decompiler.Dominance.{same_set, set_insert, intersection, meet_from, meet, refined}

abbrev pub IsSubset : List ℕ → List ℕ → Type 0
IsSubset a b = (x : ℕ) → Memᴰ x a → Memᴰ x b

pub same_set_iff : (a b : List ℕ) → (same_set a b ≡ true) ↔ (IsSubset a b × IsSubset b a)
same_set_iff a b =
    let first = all_iff (contains b) a in
    let second = all_iff (contains a) b in
    (
      λ h. (
        λ x m.
            (contains_iff b x).0 (All-mem (λ y. contains b y ≡ true) a (first.0 (ground arith)) m),
        λ x m.
            (contains_iff a x).0 (All-mem (λ y. contains a y ≡ true) b (second.0 (ground arith)) m),
      ),
      λ (h, k).
          let p = first.1 (All-of_mem a λ x m. (contains_iff b x).1 (h x m)) in
          let q = second.1 (All-of_mem b λ x m. (contains_iff a x).1 (k x m)) in ground arith,
    )

mem-set_insert : (u : ℕ) (s : List ℕ) (x : ℕ) → Memᴰ x (set_insert u s) ↔ ((x ≡ u) ⊎ Memᴰ x s)
mem-set_insert u s x = elim (Bool-cases (contains s u)) [
  | inl e ↦ rw e (λ m. inr m, λ m. elim m [ inl q ↦ rw q ((contains_iff s u).0 e) | inr n ↦ n ])
  | inr e ↦ rw e (Memᴰ-cons x u s)
]

mem-meet_from :
    (acc ps : List ℕ) (dom : Edges) (x : ℕ)
    → Memᴰ x (meet_from acc ps dom) ↔ (Memᴰ x acc × ((p : ℕ) → Memᴰ p ps → Memᴰ x (dom p)))
unfolding meet_from
mem-meet_from acc [] dom x = (λ m. (m, λ p n. absurd (Memᴰ.not-nil n)), λ m. m.0)
mem-meet_from acc (p ∷ ps) dom x =
    let ih = mem-meet_from (intersection acc (dom p)) ps dom x in
    let kept = mem-keep (contains (dom p)) x acc in
    (
      λ m.
          let (first, rest) = ih.0 m in
          let (there, hit) = kept.0 first in
          (
            there,
            λ q n. elim (Memᴰ.cases_cons n) [
              | inl e ↦ rw e ((contains_iff (dom p) x).0 hit)
              | inr t ↦ rest q t
            ],
          ),
      λ (there, each). ih.1 (
        kept.1 (there, (contains_iff (dom p) x).1 (each p (Memᴰ.head refl))),
        λ q n. each q (Memᴰ.tail n),
      ),
    )

-- The meet of no sets is the empty set.
mem-meet :
    (ps : List ℕ) (dom : Edges) (x : ℕ)
    → Memᴰ x (meet ps dom) ↔ (((p : ℕ) × Memᴰ p ps) × ((p : ℕ) → Memᴰ p ps → Memᴰ x (dom p)))
unfolding meet
mem-meet [] dom x = (λ m. absurd (Memᴰ.not-nil m), λ m. absurd (Memᴰ.not-nil m.0.1))
mem-meet (p ∷ ps) dom x =
    let from = mem-meet_from (dom p) ps dom x in
    (
      λ m.
          let (first, rest) = from.0 m in
          (
            (p, Memᴰ.head refl),
            λ q n. elim (Memᴰ.cases_cons n) [ inl e ↦ rw e first | inr t ↦ rest q t ],
          ),
      λ (some_p, each). from.1 (each p (Memᴰ.head refl), λ q n. each q (Memᴰ.tail n)),
    )

-- A block stays in its own set, and what else stays is in the set of every neighbour.
pub mem-refined :
    (ins dom : Edges) (u x : ℕ)
    → Memᴰ x (refined ins dom u)
      ↔ ((x ≡ u) ⊎ (((p : ℕ) × Memᴰ p (ins u)) × ((p : ℕ) → Memᴰ p (ins u) → Memᴰ x (dom p))))
unfolding refined
mem-refined ins dom u x =
    let i = mem-set_insert u (meet (ins u) dom) x in
    let m = mem-meet (ins u) dom x in
    (
      λ h. elim (i.0 h) [ inl e ↦ inl e | inr k ↦ inr (m.0 k) ],
      λ h. i.1 (elim h [ inl e ↦ inl e | inr k ↦ inr (m.1 k) ]),
    )

refined_mono :
    (ins small large : Edges) (u : ℕ)
    → ((p : ℕ) → IsSubset (small p) (large p))
    → IsSubset (refined ins small u) (refined ins large u)
refined_mono ins small large u h x m =
    (mem-refined ins large u x).1 (elim ((mem-refined ins small u x).0 m) [
      | inl e ↦ inl e
      | inr (one, each) ↦ inr (one, λ p n. h p x (each p n))
    ])

-- What a round keeps of the sets: blocks below `n` only and none but what was there, those outside the order as they were, each
-- refinement only takes out, and what `Keep` protects is in.
pub record IsDescending (n : ℕ) (ins : Edges) (order : List ℕ) (Keep : ℕ → ℕ → Type 0)
    (base dom : Edges) : Type 0 where
  pub bounded : (u x : ℕ) → Memᴰ x (dom u) → x < n
  pub within : (u x : ℕ) → Memᴰ x (dom u) → Memᴰ x (base u)
  pub fixed : (u : ℕ) → contains order u ≡ false → dom u ≡ base u
  pub shrinks : (u : ℕ) → Memᴰ u order → IsSubset (refined ins dom u) (dom u)
  pub kept : (u x : ℕ) → Keep u x → Memᴰ x (dom u)

pub put_self : (e : Edges) (i : ℕ) (xs : List ℕ) → put e i xs i ≡ xs
put_self e i xs = ground arith

pub put-subset :
    (ins dom : Edges) (u : ℕ)
    → IsSubset (refined ins dom u) (dom u)
    → (p : ℕ) → IsSubset (put dom u (refined ins dom u) p) (dom p)
put-subset ins dom u h p x m = elim (Bool-cases (nat_eq p u)) [
  | inl e ↦ rw ((nat_eq_iff p u).0 e) (h x (rw e at m))
  | inr e ↦ rw e at m
]

module _ (n : ℕ) (ins : Edges) (order : List ℕ) (Keep : ℕ → ℕ → Type 0) (base : Edges)
    (own : (u x : ℕ)
      → Memᴰ u order
      → Keep u x
      → (x ≡ u) ⊎ (((p : ℕ) × Memᴰ p (ins u)) × ((p : ℕ) → Memᴰ p (ins u) → Keep p x))) where
  kept_refined :
      (dom : Edges) (u x : ℕ)
      → IsDescending n ins order Keep base dom
      → Memᴰ u order
      → Keep u x
      → Memᴰ x (refined ins dom u)
  kept_refined dom u x inv m k = (mem-refined ins dom u x).1 (elim (own u x m k) [
    | inl e ↦ inl e
    | inr (one, each) ↦ inr (one, λ p q. inv.kept p x (each p q))
  ])

  pub put-IsDescending :
      (dom : Edges) (u : ℕ)
      → IsDescending n ins order Keep base dom
      → Memᴰ u order
      → IsDescending n ins order Keep base (put dom u (refined ins dom u))
  put-IsDescending dom u inv m =
      let less = put-subset ins dom u (inv.shrinks u m) in
      record {
        bounded = λ v x k. inv.bounded v x (less v x k);
        within = λ v x k. inv.within v x (less v x k);
        fixed = λ v off. elim (Bool-cases (nat_eq v u)) [
          | inl e ↦ absurd (ground (arith, (contains_iff order u).1 m, (nat_eq_iff v u).0 e))
          | inr e ↦ rw e (inv.fixed v off)
        ];
        shrinks = λ v k x q. elim (Bool-cases (nat_eq v u)) [
          | inl e ↦ rw e (rw (← ((nat_eq_iff v u).0 e)) (refined_mono ins _ dom v less x q))
          | inr e ↦ rw e (inv.shrinks v k x (refined_mono ins _ dom v less x q))
        ];
        kept = λ v x k. elim (Bool-cases (nat_eq v u)) [
          | inl e ↦
              rw e (kept_refined dom u x inv m (subst (λ w. Keep w x) ((nat_eq_iff v u).0 e) k))
          | inr e ↦ rw e (inv.kept v x k)
        ];
      }
