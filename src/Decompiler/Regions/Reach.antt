-- ===== src/Decompiler/Regions/Reach.antt =====
-- The search for reachable blocks in `Regions::build` of
-- crates/flutterdec-decompiler/src/control_flow/regions.rs.
use mathlib.Core.List.Memᴰ
use flutterdec.Common.{
  contains, contains_iff, length, Memᴰ-cons, nat_eq, if◌then◌else◌, Bool-cases, ℕ, zero, suc, ◌+◌,
  ◌≤◌, ◌<◌, ◌≡◌, refl, sym, subst, ◌↔◌, ◌⊎◌, inl, inr, false, some, List, ◌∷◌, Memᴰ, arith, [],
  ℕ_eq, List_eq, Option_eq, ℕ_order, Text_order,
}
use flutterdec.Decompiler.Regions.{reachable_from, Edges, visit, search}

-- `v` is reached from `u` along successor edges.
pub data Leads (succs : Edges) : ℕ → ℕ → Type 0 where
  stay : {u : ℕ} → Leads succs u u
  step : {u v w : ℕ} → Leads succs u v → Memᴰ w (succs v) → Leads succs u w

abbrev pub IsBounded : ℕ → Edges → Type 0
IsBounded n succs = (u v : ℕ) → Memᴰ v (succs u) → v < n

unmarked : ℕ → List ℕ → ℕ
unmarked zero r = 0
unmarked (suc k) r = let rest = unmarked k r in if contains r k then rest else suc rest

unmarked-le : (k v : ℕ) (r : List ℕ) → unmarked k (v ∷ r) ≤ unmarked k r
unfolding unmarked
unmarked-le zero v r = omega arith
unmarked-le (suc k) v r = ground (arith, unmarked-le k v r)

unmarked-lt :
    (k v : ℕ) (r : List ℕ) → v < k → contains r v ≡ false → unmarked k (v ∷ r) < unmarked k r
unfolding unmarked
unmarked-lt zero v r h new = absurd (omega arith)
unmarked-lt (suc k) v r h new = elim (Bool-cases (nat_eq v k)) [
  | inl same ↦ ground (arith, unmarked-le k v r)
  | inr other ↦ ground (arith, unmarked-lt k v r)
]

unmarked-le_bound : (k : ℕ) (r : List ℕ) → unmarked k r ≤ k
unfolding unmarked
unmarked-le_bound zero r = omega arith
unmarked-le_bound (suc k) r = ground (arith, unmarked-le_bound k r)

-- What is left to do does not grow in a visit.
visit-shrinks :
    (n : ℕ) (vs r s : List ℕ)
    → ((v : ℕ) → Memᴰ v vs → v < n)
    → length (visit vs (r, s)).1 + unmarked n (visit vs (r, s)).0 ≤ length s + unmarked n r
unfolding visit
visit-shrinks n [] r s h = omega arith
visit-shrinks n (v ∷ vs) r s h = elim (Bool-cases (contains r v)) [
  | inl old ↦ rw old (visit-shrinks n vs r s λ w m. h w (Memᴰ.tail m))
  | inr new ↦
      let ih = visit-shrinks n vs (v ∷ r) (v ∷ s) (λ w m. h w (Memᴰ.tail m)) in
      rw new (omega (arith, ih, unmarked-lt n v r (h v (Memᴰ.head refl)) new))
]

search_ends :
    (n fuel : ℕ) (succs : Edges) (r s : List ℕ)
    → IsBounded n succs
    → length s + unmarked n r < fuel
    → (out : List ℕ) × (search fuel succs (r, s) ≡ some out)
unfolding search
search_ends n zero succs r s b h = absurd (omega arith)
search_ends n (suc fuel) succs r [] b h = (r, refl)
search_ends n (suc fuel) succs r (u ∷ s) b h =
    search_ends n fuel succs (visit (succs u) (r, s)).0 (visit (succs u) (r, s)).1 b
      (omega (arith, visit-shrinks n (succs u) r s (b u)))

-- A visit marks the list, and pushes what it marks.
visit_iff : (vs r s : List ℕ) (x : ℕ) → Memᴰ x (visit vs (r, s)).0 ↔ (Memᴰ x r ⊎ Memᴰ x vs)
unfolding visit
visit_iff [] r s x = (λ m. inl m, λ m. elim m [ inl a ↦ a | inr a ↦ absurd (Memᴰ.not-nil a) ])
visit_iff (v ∷ vs) r s x = elim (Bool-cases (contains r v)) [
  | inl old ↦
      rw old (ground (arith, visit_iff vs r s x, Memᴰ-cons x v vs, (contains_iff r v).0 old))
  | inr new ↦
      rw new (ground (arith, visit_iff vs (v ∷ r) (v ∷ s) x, Memᴰ-cons x v vs, Memᴰ-cons x v r))
]

visit-keeps : (vs r s : List ℕ) (x : ℕ) → Memᴰ x s → Memᴰ x (visit vs (r, s)).1
unfolding visit
visit-keeps [] r s x m = m
visit-keeps (v ∷ vs) r s x m = elim (Bool-cases (contains r v)) [
  | inl old ↦ rw old (visit-keeps vs r s x m)
  | inr new ↦ rw new (visit-keeps vs (v ∷ r) (v ∷ s) x (Memᴰ.tail m))
]

visit-pushes :
    (vs r s : List ℕ) (x : ℕ) → Memᴰ x (visit vs (r, s)).0 → Memᴰ x r ⊎ Memᴰ x (visit vs (r, s)).1
unfolding visit
visit-pushes [] r s x m = inl m
visit-pushes (v ∷ vs) r s x m = elim (Bool-cases (contains r v)) [
  | inl old ↦ rw old (visit-pushes vs r s x (rw old at m))
  | inr new ↦ rw new (elim (visit-pushes vs (v ∷ r) (v ∷ s) x (rw new at m)) [
    | inl a ↦ elim (Memᴰ.cases_cons a) [
      | inl e ↦ inr (visit-keeps vs (v ∷ r) (v ∷ s) x (rw e (Memᴰ.head refl)))
      | inr t ↦ inl t
    ]
    | inr a ↦ inr a
  ])
]

visit-marks :
    (vs r s : List ℕ) (x : ℕ)
    → ((y : ℕ) → Memᴰ y s → Memᴰ y r)
    → Memᴰ x (visit vs (r, s)).1
    → Memᴰ x (visit vs (r, s)).0
unfolding visit
visit-marks [] r s x h m = h x m
visit-marks (v ∷ vs) r s x h m = elim (Bool-cases (contains r v)) [
  | inl old ↦ rw old (visit-marks vs r s x h (rw old at m))
  | inr new ↦ rw new (
      visit-marks vs (v ∷ r) (v ∷ s) x
        (λ y k. elim (Memᴰ.cases_cons k) [ inl e ↦ Memᴰ.head e | inr t ↦ Memᴰ.tail (h y t) ])
        (rw new at m))
]

search_sound :
    (fuel : ℕ) (succs : Edges) (r s : List ℕ) {out : List ℕ}
    → search fuel succs (r, s) ≡ some out
    → ((x : ℕ) → Memᴰ x r → Leads succs 0 x)
    → ((x : ℕ) → Memᴰ x s → Memᴰ x r)
    → (x : ℕ) → Memᴰ x out
    → Leads succs 0 x
unfolding search
search_sound zero succs r s h led marked x m = absurd (cc)
search_sound (suc fuel) succs r [] h led marked x m =
    let same : r ≡ _ = ground (arith, h) in led x (subst (Memᴰ x) (sym same) m)
search_sound (suc fuel) succs r (u ∷ s) h led marked x m =
    search_sound fuel succs (visit (succs u) (r, s)).0 (visit (succs u) (r, s)).1 h
      (λ y n. elim ((visit_iff (succs u) r s y).0 n) [
        | inl old ↦ led y old
        | inr new ↦ step (led u (marked u (Memᴰ.head refl))) new
      ])
      (λ y n. visit-marks (succs u) r s y (λ z k. marked z (Memᴰ.tail k)) n) x m

search_closed :
    (fuel : ℕ) (succs : Edges) (r s : List ℕ) {out : List ℕ}
    → search fuel succs (r, s) ≡ some out
    → ((x : ℕ) → Memᴰ x r → Memᴰ x s ⊎ ((w : ℕ) → Memᴰ w (succs x) → Memᴰ w r))
    → ((x : ℕ) → Memᴰ x r → Memᴰ x out) × ((x w : ℕ) → Memᴰ x out → Memᴰ w (succs x) → Memᴰ w out)
unfolding search
search_closed zero succs r s h inv = absurd (cc)
search_closed (suc fuel) succs r [] h inv =
    let same : r ≡ _ = ground (arith, h) in
    (
      λ x m. subst (Memᴰ x) same m,
      λ x w m e. elim (inv x (subst (Memᴰ x) (sym same) m)) [
        | inl k ↦ absurd (Memᴰ.not-nil k)
        | inr all_in ↦ subst (Memᴰ w) same (all_in w e)
      ],
    )
search_closed (suc fuel) succs r (u ∷ s) h inv =
    let kept = λ (x : ℕ) (m : Memᴰ x r). (visit_iff (succs u) r s x).1 (inl m) in
    let (grows, closed) =
      search_closed fuel succs (visit (succs u) (r, s)).0 (visit (succs u) (r, s)).1 h λ x m.
        elim (visit-pushes (succs u) r s x m) [
          | inl old ↦ elim (inv x old) [
            | inl k ↦ elim (Memᴰ.cases_cons k) [
              | inl e ↦
                  inr λ w n. (visit_iff (succs u) r s w).1 (inr (subst (λ y. Memᴰ w (succs y)) e n))
              | inr t ↦ inl (visit-keeps (succs u) r s x t)
            ]
            | inr all_in ↦ inr λ w n. kept w (all_in w n)
          ]
          | inr pushed ↦ inl pushed
        ] in
    (λ x m. grows x (kept x m), closed)

leads_in :
    (succs : Edges) (out : List ℕ)
    → Memᴰ 0 out
    → ((x w : ℕ) → Memᴰ x out → Memᴰ w (succs x) → Memᴰ w out)
    → {u : ℕ} {v : ℕ} → Leads succs u v
    → u ≡ 0
    → Memᴰ v out
leads_in succs out start closed stay e = rw e start
leads_in succs out start closed (step {v = v} {w = w} p m) e =
    closed v w (leads_in succs out start closed p e) m

-- The search ends within its rounds, whatever the edges between the `n` blocks are, and what it
-- finds is exactly the blocks that the entry leads to along successor edges.
pub reachable_iff :
    (n : ℕ) (succs : Edges)
    → 0 < n
    → IsBounded n succs
    → (out : List ℕ) × (reachable_from n succs ≡ some out)
      × ((v : ℕ) → Memᴰ v out ↔ Leads succs 0 v)
unfolding reachable_from
reachable_iff n succs h b =
    let (out, ends) =
      search_ends n (suc n) succs (0 ∷ []) (0 ∷ []) b
        (omega (arith, unmarked-lt n 0 [] h refl, unmarked-le_bound n [])) in
    let (start, closed) = search_closed (suc n) succs (0 ∷ []) (0 ∷ []) ends λ x m. inl m in
    (
      out,
      ends,
      λ v. (
        search_sound (suc n) succs (0 ∷ []) (0 ∷ []) ends (λ x m. rw (Memᴰ.eq_of_singleton m) stay)
            (λ x m. m) v,
        λ p. leads_in succs out (start 0 (Memᴰ.head refl)) closed p refl,
      ),
    )
