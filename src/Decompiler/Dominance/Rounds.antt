-- ===== src/Decompiler/Dominance/Rounds.antt =====
-- The rounds of the iteration that `dominators` and `immediate_post_dominators` share, in
-- crates/flutterdec-decompiler/src/control_flow/regions.rs.
use mathlib.Core.List.Memᴰ
use flutterdec.Common.{
  contains, contains_iff, length, all, all_iff, All-mem, nat_eq, if◌then◌else◌, nat_eq_iff,
  Bool-cases, differ, ℕ, zero, suc, ◌+◌, ◌*◌, ◌≤◌, ◌<◌, ◌≡◌, refl, ◌⊎◌, inl, inr, Bool, true, false,
  some, List, ◌∷◌, Memᴰ, arith, [], ℕ_eq, List_eq, Option_eq, ℕ_order, Text_order,
}
use flutterdec.Decompiler.Regions.{Edges, put}
use flutterdec.Decompiler.Dominance.{same_set, refined, refine_one, pass, iterate}
use flutterdec.Decompiler.Dominance.Iteration.{
  IsSubset, same_set_iff, IsDescending, put_self, put-subset, put-IsDescending,
}

-- The members below `n`, counted.
unfoldable pub marked : ℕ → List ℕ → ℕ
marked zero xs = 0
marked (suc k) xs = let rest = marked k xs in if contains xs k then suc rest else rest

marked-le : (n : ℕ) (a b : List ℕ) → IsSubset a b → marked n a ≤ marked n b
unfolding marked
marked-le zero a b h = omega arith
marked-le (suc k) a b h = elim (Bool-cases (contains a k)) [
  | inl e ↦
      let there = (contains_iff b k).1 (h k ((contains_iff a k).0 e)) in
      ground (arith, marked-le k a b h)
  | inr e ↦ ground (arith, marked-le k a b h)
]

pub marked-lt :
    (n : ℕ) (a b : List ℕ) (x : ℕ)
    → IsSubset a b
    → x < n
    → Memᴰ x b
    → contains a x ≡ false
    → marked n a < marked n b
unfolding marked
marked-lt zero a b x h below m off = absurd (omega arith)
marked-lt (suc k) a b x h below m off = elim (Bool-cases (nat_eq x k)) [
  | inl e ↦
      let same = (nat_eq_iff x k).0 e in
      let there : contains b k ≡ true = (contains_iff b k).1 (rw (← same) m) in
      let out : contains a k ≡ false = rw (← same) off in ground (arith, marked-le k a b h)
  | inr e ↦
      let ih = marked-lt k a b x h (ground arith) m off in
      elim (Bool-cases (contains a k)) [
        | inl i ↦ let there = (contains_iff b k).1 (h k ((contains_iff a k).0 i)) in ground arith
        | inr i ↦ ground arith
      ]
]

marked-le_bound : (n : ℕ) (a : List ℕ) → marked n a ≤ n
unfolding marked
marked-le_bound zero a = omega arith
marked-le_bound (suc k) a = ground (arith, marked-le_bound k a)

pub total : ℕ → List ℕ → Edges → ℕ
unfolding marked
total n [] dom = 0
total n (u ∷ us) dom = marked n (dom u) + total n us dom

total-le :
    (n : ℕ) (us : List ℕ) (a b : Edges)
    → ((p : ℕ) → IsSubset (a p) (b p))
    → total n us a ≤ total n us b
unfolding total
total-le n [] a b h = omega arith
total-le n (u ∷ us) a b h = omega (arith, marked-le n (a u) (b u) (h u), total-le n us a b h)

total-lt :
    (n : ℕ) (us : List ℕ) (a b : Edges) (u : ℕ)
    → ((p : ℕ) → IsSubset (a p) (b p))
    → Memᴰ u us
    → marked n (a u) < marked n (b u)
    → total n us a < total n us b
unfolding total
total-lt n [] a b u h m less = absurd (Memᴰ.not-nil m)
total-lt n (v ∷ us) a b u h m less = elim (Memᴰ.cases_cons m) [
  | inl e ↦
      let here : marked n (a v) < marked n (b v) = rw (← e) less in
      omega (arith, here, total-le n us a b h)
  | inr t ↦ omega (arith, marked-le n (a v) (b v) (h v), total-lt n us a b u h t less)
]

pub total-le_bound : (n : ℕ) (us : List ℕ) (a : Edges) → total n us a ≤ length us * n
unfolding total
total-le_bound n [] a = omega arith
total-le_bound n (u ∷ us) a = grind (arith, marked-le_bound n (a u), total-le_bound n us a)

-- A set that is not the same as a smaller one has a member that is not in the smaller one.
lost_member :
    (small large : List ℕ)
    → IsSubset small large
    → same_set small large ≡ false
    → (x : ℕ) × Memᴰ x large × (contains small x ≡ false)
lost_member small large h differ = elim (Bool-cases (all (contains small) large)) [
  | inl e ↦
      let each = (all_iff (contains small) large).0 e in
      let same = (same_set_iff small large).1 (
        h,
        λ x m. (contains_iff small x).0 (All-mem (λ y. contains small y ≡ true) large each m),
      ) in
      absurd (cc)
  | inr e ↦ not_all large e
]
  where
    not_all :
        (xs : List ℕ)
        → all (contains small) xs ≡ false
        → (x : ℕ) × Memᴰ x xs × (contains small x ≡ false)
    not_all [] h = absurd (cc)
    not_all (x ∷ xs) h = elim (Bool-cases (contains small x)) [
      | inl e ↦ let (y, m, q) = not_all xs (ground arith) in (y, Memᴰ.tail m, q)
      | inr e ↦ (x, Memᴰ.head refl, e)
    ]

-- The iteration is at rest at a block.
abbrev pub IsAtRest : Edges → Edges → ℕ → Type 0
IsAtRest ins dom u = IsSubset (dom u) (refined ins dom u)

module _ (n : ℕ) (ins : Edges) (order : List ℕ) (Keep : ℕ → ℕ → Type 0) (base : Edges)
    (own : (u x : ℕ)
      → Memᴰ u order
      → Keep u x
      → (x ≡ u) ⊎ (((p : ℕ) × Memᴰ p (ins u)) × ((p : ℕ) → Memᴰ p (ins u) → Keep p x))) where
  abbrev Inv : Edges → Type 0
  Inv dom = IsDescending n ins order Keep base dom

  -- Refining one block changes nothing, at rest, or takes something away.
  refine_one_cases :
      (u : ℕ) (dom : Edges) (c : Bool)
      → Inv dom
      → Memᴰ u order
      → ((refine_one ins u (dom, c) ≡ (dom, c)) × IsAtRest ins dom u)
        ⊎ ((smaller : Edges) × (refine_one ins u (dom, c) ≡ (smaller, true))
            × Inv smaller
            × (total n order smaller < total n order dom))
  unfolding refine_one
  refine_one_cases u dom c inv m =
      let less = inv.shrinks u m in
      elim (Bool-cases (same_set (refined ins dom u) (dom u))) [
        | inl e ↦ inl (rw e refl, ((same_set_iff (refined ins dom u) (dom u)).0 e).1)
        | inr e ↦
            let (x, there, out) = lost_member (refined ins dom u) (dom u) less e in
            let here = put_self dom u (refined ins dom u) in
            inr (
              put dom u (refined ins dom u),
              rw e refl,
              put-IsDescending n ins order Keep base own dom u inv m,
              total-lt n order (put dom u (refined ins dom u)) dom u (put-subset ins dom u less) m (
                  rw here (
                    marked-lt n (refined ins dom u) (dom u) x less (inv.bounded u x there) there
                      out)),
            )
      ]

  pass_changed :
      (us : List ℕ) (dom : Edges)
      → Inv dom
      → IsSubset us order
      → (out : Edges) × (pass ins us (dom, true) ≡ (out, true))
        × Inv out
        × (total n order out ≤ total n order dom)
  unfolding pass
  pass_changed [] dom inv h = (dom, refl, inv, omega arith)
  pass_changed (u ∷ us) dom inv h = elim (refine_one_cases u dom true inv (h u (Memᴰ.head refl))) [
    | inl (same, _) ↦
        let (out, ends, inv', less) = pass_changed us dom inv (λ x m. h x (Memᴰ.tail m)) in
        (out, rw same ends, inv', less)
    | inr (smaller, made, kept, drop) ↦
        let (out, ends, inv', less) = pass_changed us smaller kept (λ x m. h x (Memᴰ.tail m)) in
        (out, rw made ends, inv', omega arith)
  ]

  pass_cases :
      (us : List ℕ) (dom : Edges)
      → Inv dom
      → IsSubset us order
      → ((pass ins us (dom, false) ≡ (dom, false)) × ((u : ℕ) → Memᴰ u us → IsAtRest ins dom u))
        ⊎ ((out : Edges) × (pass ins us (dom, false) ≡ (out, true))
            × Inv out
            × (total n order out < total n order dom))
  unfolding pass
  pass_cases [] dom inv h = inl (refl, λ u m. absurd (Memᴰ.not-nil m))
  pass_cases (u ∷ us) dom inv h = elim (refine_one_cases u dom false inv (h u (Memᴰ.head refl))) [
    | inl (same, rest) ↦ elim (pass_cases us dom inv (λ x m. h x (Memᴰ.tail m))) [
      | inl (ends, still) ↦
          inl (
            rw same ends,
            λ v m. elim (Memᴰ.cases_cons m) [ inl e ↦ rw e rest | inr t ↦ still v t ],
          )
      | inr (out, ends, inv', less) ↦ inr (out, rw same ends, inv', less)
    ]
    | inr (smaller, made, kept, drop) ↦
        let (out, ends, inv', less) = pass_changed us smaller kept (λ x m. h x (Memᴰ.tail m)) in
        inr (out, rw made ends, inv', omega arith)
  ]

  -- The loop ends, and where it ends every block of the order is at rest.
  pub iterate_ends :
      (fuel : ℕ) (dom : Edges)
      → IsDescending n ins order Keep base dom
      → total n order dom < fuel
      → (out : Edges) × (iterate fuel ins order dom ≡ some out)
        × IsDescending n ins order Keep base out
        × ((u : ℕ) → Memᴰ u order → IsAtRest ins out u)
  unfolding iterate
  iterate_ends zero dom inv h = absurd (omega arith)
  iterate_ends (suc fuel) dom inv h = elim (pass_cases order dom inv (λ x m. m)) [
    | inl (ends, still) ↦ (dom, rw ends refl, inv, still)
    | inr (smaller, made, kept, drop) ↦
        let (out, ends, inv', still) = iterate_ends fuel smaller kept (omega arith) in
        (out, rw made ends, inv', still)
  ]
