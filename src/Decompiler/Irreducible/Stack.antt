-- ===== src/Decompiler/Irreducible/Stack.antt =====
-- The stack of the depth-first search in `is_irreducible` of
-- crates/flutterdec-decompiler/src/control_flow/regions.rs.
use mathlib.Core.List.Memᴰ
use flutterdec.Common.{
  length, get_elem?, ℕ, zero, suc, ◌+◌, ◌-◌, ◌<◌, ◌≡◌, sym, ◌∙◌, subst, ◌⊎◌, inl, inr, none, some,
  List, ◌∷◌, Memᴰ, arith, [], ℕ_eq, List_eq, Option_eq, ℕ_order, Text_order,
}
use flutterdec.Decompiler.Regions.{Edges, BlockGraph}
use flutterdec.Decompiler.Dominance.Dominators.{Avoids, start, go}
use flutterdec.Decompiler.Irreducible.Forward.{Settles, settle, Forward, same, next}

abbrev pub take : ℕ → List ℕ → List ℕ
take zero xs = []
take (suc i) [] = []
take (suc i) (x ∷ xs) = x ∷ take i xs

pub mem-take-suc :
    (i : ℕ) (xs : List ℕ) (v x : ℕ)
    → get_elem? xs i ≡ some v
    → Memᴰ x (take (suc i) xs)
    → (x ≡ v) ⊎ Memᴰ x (take i xs)
mem-take-suc i [] v x e m = absurd (cc)
mem-take-suc zero (y ∷ ys) v x e m = let here : y ≡ v = cc in inl (Memᴰ.eq_of_singleton m ∙ here)
mem-take-suc (suc i) (y ∷ ys) v x e m = elim (Memᴰ.cases_cons m) [
  | inl h ↦ inr (Memᴰ.head h)
  | inr t ↦ elim (mem-take-suc i ys v x e t) [ inl h ↦ inl h | inr k ↦ inr (Memᴰ.tail k) ]
]

pub mem-take_all :
    (i : ℕ) (xs : List ℕ) (x : ℕ) → get_elem? xs i ≡ none → Memᴰ x xs → Memᴰ x (take i xs)
mem-take_all i [] x e m = absurd (Memᴰ.not-nil m)
mem-take_all zero (y ∷ ys) x e m = absurd (cc)
mem-take_all (suc i) (y ∷ ys) x e m = elim (Memᴰ.cases_cons m) [
  | inl h ↦ Memᴰ.head h
  | inr t ↦ Memᴰ.tail (mem-take_all i ys x e t)
]

pub mem-get : (i : ℕ) (xs : List ℕ) (v : ℕ) → get_elem? xs i ≡ some v → Memᴰ v xs × (i < length xs)
mem-get i [] v e = absurd (cc)
mem-get zero (y ∷ ys) v e = let here : y ≡ v = cc in (Memᴰ.head (sym here), omega arith)
mem-get (suc i) (y ∷ ys) v e = let (m, l) = mem-get i ys v e in (Memᴰ.tail m, omega arith)

-- The blocks of the stack.
abbrev pub nodes : List (ℕ × ℕ) → List ℕ
nodes [] = []
nodes ((u, i) ∷ rest) = u ∷ nodes rest

-- An entry is entered from the one below it, along an edge that does not lead to a dominator.
abbrev pub Enters : BlockGraph → ℕ → List (ℕ × ℕ) → Type 0
Enters g u [] = u ≡ 0
Enters g u ((a, i) ∷ rest) = Memᴰ u (g.succs a) × Avoids g.succs u a

-- The successors of `u` that were taken lead back to a dominator, or are settled, or satisfy `Q`.
abbrev pub Checked : BlockGraph → (ℕ → Type 0) → ℕ → ℕ → Type 0
Checked g Q u idx = (v : ℕ) → Memᴰ v (take idx (g.succs u)) → Avoids g.succs v u → Settles g v ⊎ Q v

-- The stack is such a path of distinct blocks.
abbrev pub IsPath : BlockGraph → (ℕ → Type 0) → List (ℕ × ℕ) → Type 0
IsPath g Q [] = Unit
IsPath g Q ((u, idx) ∷ rest) =
    Checked g Q u idx × Enters g u rest × (¬ Memᴰ u (nodes rest)) × IsPath g (λ v. v ≡ u) rest

module _ (g : BlockGraph) where
  -- The path of the stack avoids what is no block of it.
  pub stack-Avoids :
      (Q : ℕ → Type 0) (u idx : ℕ) (rest : List (ℕ × ℕ)) (b : ℕ)
      → IsPath g Q ((u, idx) ∷ rest)
      → (¬ Memᴰ b (u ∷ nodes rest))
      → Avoids g.succs b u
  stack-Avoids Q u idx [] b (_, e, _, _) off = start e λ q. off (Memᴰ.head q)
  stack-Avoids Q u idx ((a, i) ∷ rest) b (_, (m, d), _, path) off =
      go (stack-Avoids (λ v. v ≡ u) a i rest b path λ k. off (Memᴰ.tail k)) m λ q. off (Memᴰ.head q)

  pub stack_forward :
      (Q : ℕ → Type 0) (u idx : ℕ) (rest : List (ℕ × ℕ)) (b : ℕ)
      → IsPath g Q ((u, idx) ∷ rest)
      → Memᴰ b (u ∷ nodes rest)
      → Forward g b u
  stack_forward Q u idx [] b p m = same (sym (Memᴰ.eq_of_singleton m))
  stack_forward Q u idx ((a, i) ∷ rest) b (_, (e, d), _, path) m = elim (Memᴰ.cases_cons m) [
    | inl here ↦ same (sym here)
    | inr t ↦ next (stack_forward (λ v. v ≡ u) a i rest b path t) e d
  ]

  -- The last entry is left: all its successors were taken.
  pub settled :
      (u idx : ℕ) (rest : List (ℕ × ℕ))
      → IsPath g (λ v. ⊥) ((u, idx) ∷ rest)
      → get_elem? (g.succs u) idx ≡ none
      → Settles g u
  settled u idx rest (checked, _, _, _) e = settle λ v m a.
      elim (checked v (mem-take_all idx (g.succs u) v e m) a) [ inl s ↦ s | inr n ↦ absurd n ]

  pub Checked-on :
      (Q R : ℕ → Type 0) (u idx : ℕ)
      → ((v : ℕ) → Q v → Settles g v ⊎ R v)
      → Checked g Q u idx
      → Checked g R u idx
  Checked-on Q R u idx f c v m a = elim (c v m a) [ inl s ↦ inl s | inr q ↦ f v q ]

  pub Checked-more :
      (Q : ℕ → Type 0) (u idx w : ℕ)
      → get_elem? (g.succs u) idx ≡ some w
      → (Avoids g.succs w u → Settles g w ⊎ Q w)
      → Checked g Q u idx
      → Checked g Q u (suc idx)
  Checked-more Q u idx w e f c v m a = elim (mem-take-suc idx (g.succs u) w v e m) [
    | inl here ↦ elim (f (subst (λ x. Avoids g.succs x u) here a)) [
      | inl s ↦ inl (subst (Settles g) (sym here) s)
      | inr q ↦ inr (subst Q (sym here) q)
    ]
    | inr k ↦ c v k a
  ]

-- What the search has left to do.
abbrev pub left : Edges → List (ℕ × ℕ) → ℕ
left succs [] = 0
left succs ((u, idx) ∷ rest) = suc (length (succs u) - idx) + left succs rest
