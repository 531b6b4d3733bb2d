-- ===== src/Decompiler/Loops/Collect.antt =====
-- The `while` loop of `natural_loops` in
-- crates/flutterdec-decompiler/src/control_flow/regions.rs, which collects the body of a loop.
use mathlib.Core.List.Memᴰ
use flutterdec.Common.{
  contains, contains_iff, length, Memᴰ-cons, nat_eq, nat_eq_iff, Bool-cases, ℕ, zero, suc, ◌+◌, ◌≤◌,
  ◌<◌, ◌≡◌, refl, sym, ap, subst, ◌≢◌, ◌↔◌, ◌⊎◌, inl, inr, false, some, List, ◌∷◌, Memᴰ, arith, [],
  ℕ_eq, List_eq, Option_eq, ℕ_order, Text_order,
}
use flutterdec.Decompiler.Regions.{Edges}
use flutterdec.Decompiler.Loops.{push_others, collect, pending, collect_rounds}

-- A path along the edges from `x` that does not pass `h`; `preds` has the edges backwards.
pub data Around (preds : Edges) (h x : ℕ) : ℕ → Type 0 where
  arrive : {u : ℕ} → u ≡ x → h ≢ u → Around preds h x u
  onward : {p u : ℕ} → Around preds h x p → Memᴰ p (preds u) → h ≢ u → Around preds h x u

Around-other : (preds : Edges) (h x : ℕ) → {u : ℕ} → Around preds h x u → h ≢ u
Around-other preds h x (arrive e d) = d
Around-other preds h x (onward a m d) = d

push_others_iff :
    (h : ℕ) (ps stack : List ℕ) (x : ℕ)
    → Memᴰ x (push_others h ps stack) ↔ (Memᴰ x stack ⊎ Memᴰ x ps × (x ≢ h))
unfolding push_others
push_others_iff h [] stack x =
    (λ m. inl m, λ m. elim m [ inl a ↦ a | inr a ↦ absurd (Memᴰ.not-nil a.0) ])
push_others_iff h (p ∷ ps) stack x = elim (Bool-cases (nat_eq p h)) [
  | inl same ↦
      rw same (ground (arith, push_others_iff h ps stack x, Memᴰ-cons x p ps, nat_eq_iff p h))
  | inr other ↦ rw other (
      ground (
        arith,
        push_others_iff h ps (p ∷ stack) x,
        Memᴰ-cons x p ps,
        Memᴰ-cons x p stack,
        nat_eq_iff p h,
      ))
]

length-push_others :
    (h : ℕ) (ps stack : List ℕ) → length (push_others h ps stack) ≤ length ps + length stack
unfolding push_others
length-push_others h [] stack = omega arith
length-push_others h (p ∷ ps) stack =
    ground (arith, length-push_others h ps stack, length-push_others h ps (p ∷ stack))

pending-le :
    (k : ℕ) (preds : Edges) (x : ℕ) (body : List ℕ)
    → pending k preds (x ∷ body) ≤ pending k preds body
unfolding pending
pending-le zero preds x body = omega arith
pending-le (suc k) preds x body = ground (arith, pending-le k preds x body)

pub pending-taken :
    (k : ℕ) (preds : Edges) (x : ℕ) (body : List ℕ)
    → x < k
    → contains body x ≡ false
    → length (preds x) + pending k preds (x ∷ body) ≤ pending k preds body
unfolding pending
pending-taken zero preds x body h new = absurd (omega arith)
pending-taken (suc k) preds x body h new = elim (Bool-cases (nat_eq x k)) [
  | inl same ↦
      let e = (nat_eq_iff x k).0 same in ground (arith, pending-le k preds x body, ap preds e)
  | inr other ↦ ground (arith, pending-taken k preds x body)
]

pending-nil : (k : ℕ) (preds : Edges) (body : List ℕ) → pending k preds body ≤ pending k preds []
unfolding pending
pending-nil zero preds body = omega arith
pending-nil (suc k) preds body = ground (arith, pending-nil k preds body)

-- A body that has the predecessors of its blocks, but for the header's, or will have them.
abbrev pub IsClosed : Edges → ℕ → List ℕ → List ℕ → Type 0
IsClosed preds h body stack =
    (x p : ℕ) → Memᴰ x body → x ≢ h → Memᴰ p (preds x) → p ≢ h → Memᴰ p body ⊎ Memᴰ p stack

module _ (n : ℕ) (preds : Edges) (h : ℕ) (bounded : (u p : ℕ) → Memᴰ p (preds u) → p < n) where
  collect_ends :
      (fuel : ℕ) (body stack : List ℕ)
      → ((x : ℕ) → Memᴰ x stack → x < n)
      → length stack + pending n preds body < fuel
      → (out : List ℕ) × (collect fuel preds h (body, stack) ≡ some out)
  unfolding collect
  collect_ends zero body stack below k = absurd (omega arith)
  collect_ends (suc fuel) body [] below k = (body, refl)
  collect_ends (suc fuel) body (x ∷ stack) below k = elim (Bool-cases (contains body x)) [
    | inl old ↦ rw old (collect_ends fuel body stack (λ y m. below y (Memᴰ.tail m)) (omega arith))
    | inr new ↦ rw new (
        collect_ends fuel (x ∷ body) (push_others h (preds x) stack)
          (λ y m. elim ((push_others_iff h (preds x) stack y).0 m) [
            | inl a ↦ below y (Memᴰ.tail a)
            | inr (a, _) ↦ bounded x y a
          ])
          (omega (
            arith,
            length-push_others h (preds x) stack,
            pending-taken n preds x body (below x (Memᴰ.head refl)) new,
          )))
  ]

  -- What is collected was in the body, or leads to a block of the stack.
  collect_sound :
      (fuel : ℕ) (body stack : List ℕ) {out : List ℕ}
      → collect fuel preds h (body, stack) ≡ some out
      → Memᴰ h body
      → (x : ℕ) → Memᴰ x out
      → Memᴰ x body ⊎ ((y : ℕ) × Memᴰ y stack × Around preds h x y)
  unfolding collect
  collect_sound zero body stack e own x m = absurd (cc)
  collect_sound (suc fuel) body [] e own x m =
      let same : body ≡ _ = ground (arith, e) in inl (subst (Memᴰ x) (sym same) m)
  collect_sound (suc fuel) body (y ∷ stack) e own x m = elim (Bool-cases (contains body y)) [
    | inl old ↦ elim (collect_sound fuel body stack (rw old at e) own x m) [
      | inl a ↦ inl a
      | inr (z, k, a) ↦ inr (z, Memᴰ.tail k, a)
    ]
    | inr new ↦
        let other : h ≢ y = λ q.
          let there = (contains_iff body h).1 own in
          let same : contains body h ≡ contains body y = ap (contains body) q in cc in
        elim (collect_sound fuel (y ∷ body) (push_others h (preds y) stack) (rw new at e)
          (Memᴰ.tail own) x m) [
            | inl a ↦ elim (Memᴰ.cases_cons a) [
              | inl q ↦ inr (y, Memᴰ.head refl, arrive (sym q) other)
              | inr t ↦ inl t
            ]
            | inr (z, k, a) ↦ elim ((push_others_iff h (preds y) stack z).0 k) [
              | inl t ↦ inr (z, Memᴰ.tail t, a)
              | inr (t, _) ↦ inr (y, Memᴰ.head refl, onward a t other)
            ]
          ]
  ]

  collect-IsClosed :
      (fuel : ℕ) (body stack : List ℕ) {out : List ℕ}
      → collect fuel preds h (body, stack) ≡ some out
      → IsClosed preds h body stack
      → ((x : ℕ) → Memᴰ x body → Memᴰ x out)
        × ((x : ℕ) → Memᴰ x stack → Memᴰ x out)
        × IsClosed preds h out []
  unfolding collect
  collect-IsClosed zero body stack e inv = absurd (cc)
  collect-IsClosed (suc fuel) body [] e inv =
      let same : body ≡ _ = ground (arith, e) in
      (
        λ x m. subst (Memᴰ x) same m,
        λ x m. absurd (Memᴰ.not-nil m),
        subst (λ b. IsClosed preds h b []) same inv,
      )
  collect-IsClosed (suc fuel) body (y ∷ stack) e inv = elim (Bool-cases (contains body y)) [
    | inl old ↦
        let (a, b, c) = collect-IsClosed fuel body stack (rw old at e) λ x p m d k q.
          elim (inv x p m d k q) [
            | inl t ↦ inl t
            | inr t ↦ elim (Memᴰ.cases_cons t) [
              | inl here ↦ inl (rw here ((contains_iff body y).0 old))
              | inr later ↦ inr later
            ]
          ] in
        (
          a,
          λ x m. elim (Memᴰ.cases_cons m) [
            | inl here ↦ rw here (a y ((contains_iff body y).0 old))
            | inr later ↦ b x later
          ],
          c,
        )
    | inr new ↦
        let pushed = push_others_iff h (preds y) stack in
        let (a, b, c) =
          collect-IsClosed fuel (y ∷ body) (push_others h (preds y) stack) (rw new at e)
            λ x p m d k q. elim (Memᴰ.cases_cons m) [
              | inl here ↦ inr ((pushed p).1 (inr (subst (λ z. Memᴰ p (preds z)) here k, q)))
              | inr t ↦ elim (inv x p t d k q) [
                | inl u ↦ inl (Memᴰ.tail u)
                | inr u ↦ elim (Memᴰ.cases_cons u) [
                  | inl here ↦ inl (Memᴰ.head here)
                  | inr later ↦ inr ((pushed p).1 (inl later))
                ]
              ]
            ] in
        (
          λ x m. a x (Memᴰ.tail m),
          λ x m. elim (Memᴰ.cases_cons m) [
            | inl here ↦ a x (Memᴰ.head here)
            | inr later ↦ b x ((pushed x).1 (inl later))
          ],
          c,
        )
  ]

  around_in :
      (out : List ℕ)
      → IsClosed preds h out []
      → (x : ℕ) {u : ℕ} → Around preds h x u
      → Memᴰ u out
      → Memᴰ x out
  around_in out closed x (arrive e d) m = subst (λ z. Memᴰ z out) e m
  around_in out closed x (onward {p = p} {u = u} a k d) m =
      elim (closed u p m (λ q. d (sym q)) k (λ q. Around-other preds h x a (sym q))) [
        | inl t ↦ around_in out closed x a t
        | inr t ↦ absurd (Memᴰ.not-nil t)
      ]

  -- The collection ends, and it adds the blocks that lead to the pushed block without passing the
  -- header.
  pub collect_iff :
      (body : List ℕ) (u : ℕ)
      → u < n
      → Memᴰ h body
      → IsClosed preds h body []
      → (out : List ℕ) × (collect (collect_rounds n preds) preds h (body, u ∷ []) ≡ some out)
        × ((x : ℕ) → Memᴰ x out ↔ (Memᴰ x body ⊎ Around preds h x u))
        × IsClosed preds h out []
  collect_iff body u below own closed =
      let (out, ends) =
        collect_ends (collect_rounds n preds) body (u ∷ [])
          (λ x m. rw (Memᴰ.eq_of_singleton m) below) (omega (arith, pending-nil n preds body)) in
      let (kept, found, still) =
        collect-IsClosed (collect_rounds n preds) body (u ∷ []) ends λ x p m d k q.
          elim (closed x p m d k q) [ inl t ↦ inl t | inr t ↦ absurd (Memᴰ.not-nil t) ] in
      (
        out,
        ends,
        λ x. (
          λ m. elim (collect_sound (collect_rounds n preds) body (u ∷ []) ends own x m) [
            | inl a ↦ inl a
            | inr (y, k, a) ↦ inr (subst (Around preds h x) (Memᴰ.eq_of_singleton k) a)
          ],
          λ m. elim m [
            | inl a ↦ kept x a
            | inr a ↦ around_in out still x a (found u (Memᴰ.head refl))
          ],
        ),
        still,
      )
