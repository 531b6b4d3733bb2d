-- ===== src/Common/Sorting.antt =====
-- `slice::sort` and `Vec::dedup` over a total order, and strictly ascending lists.
use mathlib.Core.Path.{◌≡◌, refl, sym, ap₂}
use mathlib.Core.Logic.{◌↔◌, ◌⊎◌, inl, inr}
use mathlib.Core.Bool.{true, false}
use mathlib.Core.List.{List, [], ◌∷◌, Memᴰ}
use mathlib.Core.List.Memᴰ
use native.Mathlib.Omega.{arith}
use flutterdec.Common.Tests.{Bool-cases, if◌then◌else◌}
use flutterdec.Common.Lists.{All, All-map, All-mem, All-of_mem, Memᴰ-cons}
use flutterdec.Common.Classes.{Eq, ◌==◌}
use flutterdec.Common.Orders.{StrictOrder}

module _ {ℓ} {A : Type ℓ} ⦃o : StrictOrder A⦄ where
  abbrev pub IsAscending : List A → Type ℓ
  IsAscending [] = Unit
  IsAscending (x ∷ xs) = All (λ y. o.lt? x y ≡ true) xs × IsAscending xs

  abbrev pub IsWeaklyAscending : List A → Type ℓ
  IsWeaklyAscending [] = Unit
  IsWeaklyAscending (x ∷ xs) = All (λ y. o.lt? y x ≡ false) xs × IsWeaklyAscending xs

  insert : A → List A → List A
  insert x [] = x ∷ []
  insert x (y ∷ ys) = let rest = insert x ys in if o.lt? y x then y ∷ rest else x ∷ y ∷ ys

  unfoldable pub sort : List A → List A
  unfolding insert
  sort [] = []
  sort (x ∷ xs) = insert x (sort xs)

  mem-insert : (a x : A) (xs : List A) → Memᴰ a (insert x xs) ↔ ((a ≡ x) ⊎ Memᴰ a xs)
  unfolding insert
  mem-insert a x [] = Memᴰ-cons a x []
  mem-insert a x (y ∷ ys) = elim (Bool-cases (o.lt? y x)) [
    | inl e ↦
        rw e (ground (arith, Memᴰ-cons a y (insert x ys), Memᴰ-cons a y ys, mem-insert a x ys))
    | inr e ↦ rw e (Memᴰ-cons a x (y ∷ ys))
  ]

  pub mem-sort : (a : A) (xs : List A) → Memᴰ a (sort xs) ↔ Memᴰ a xs
  unfolding sort
  mem-sort a [] = (λ m. m, λ m. m)
  mem-sort a (x ∷ xs) = ground (arith, mem-insert a x (sort xs), mem-sort a xs, Memᴰ-cons a x xs)

  -- `x` does not lie above what does not lie above `y`, if `y` does not lie above `x`.
  lt_trans_false : (x y z : A) → o.lt? y x ≡ false → o.lt? z y ≡ false → o.lt? z x ≡ false
  lt_trans_false x y z h k = ground (arith, o.lt_total x y, o.lt_trans z x y)

  not-lt_of_lt : (x y : A) → o.lt? x y ≡ true → o.lt? y x ≡ false
  not-lt_of_lt x y h = ground (arith, o.lt_trans x y x, o.lt_irrefl x)

  first_same :
      (x y : A) (xs ys : List A)
      → IsAscending (x ∷ xs)
      → IsAscending (y ∷ ys)
      → ((a : A) → Memᴰ a (x ∷ xs) ↔ Memᴰ a (y ∷ ys))
      → x ≡ y
  first_same x y xs ys hx hy same = elim (Memᴰ.cases_cons ((same x).0 (Memᴰ.head refl))) [
    | inl e ↦ e
    | inr later ↦ elim (Memᴰ.cases_cons ((same y).1 (Memᴰ.head refl))) [
      | inl e ↦ sym e
      | inr past ↦ absurd (
          ground (
            arith,
            All-mem (λ z. o.lt? y z ≡ true) ys hy.0 later,
            All-mem (λ z. o.lt? x z ≡ true) xs hx.0 past,
            not-lt_of_lt x y,
          ))
    ]
  ]

  All-insert :
      (x y : A) (xs : List A)
      → o.lt? y x ≡ false
      → All (λ z. o.lt? z x ≡ false) xs
      → All (λ z. o.lt? z x ≡ false) (insert y xs)
  All-insert x y xs h k = All-of_mem (insert y xs) λ z m. elim ((mem-insert z y xs).0 m) [
    | inl e ↦ rw e h
    | inr t ↦ All-mem (λ w. o.lt? w x ≡ false) xs k t
  ]

  insert-IsWeaklyAscending :
      (x : A) (xs : List A) → IsWeaklyAscending xs → IsWeaklyAscending (insert x xs)
  unfolding insert
  insert-IsWeaklyAscending x [] h = (tt, tt)
  insert-IsWeaklyAscending x (y ∷ ys) h = elim (Bool-cases (o.lt? y x)) [
    | inl e ↦ rw e (All-insert y x ys (not-lt_of_lt y x e) h.0, insert-IsWeaklyAscending x ys h.1)
    | inr e ↦ rw e ((e, All-map ys (λ z k. lt_trans_false x y z e k) h.0), h)
  ]

  pub sort-IsWeaklyAscending : (xs : List A) → IsWeaklyAscending (sort xs)
  unfolding sort
  sort-IsWeaklyAscending [] = tt
  sort-IsWeaklyAscending (x ∷ xs) = insert-IsWeaklyAscending x (sort xs) (sort-IsWeaklyAscending xs)

  drop_head :
      (x y a : A) (xs ys : List A)
      → x ≡ y
      → All (λ z. o.lt? x z ≡ true) xs
      → (Memᴰ a (x ∷ xs) → Memᴰ a (y ∷ ys))
      → Memᴰ a xs
      → Memᴰ a ys
  drop_head x y a xs ys heads above sub m = elim (Memᴰ.cases_cons (sub (Memᴰ.tail m))) [
    | inl e ↦ absurd (ground (arith, All-mem (λ z. o.lt? x z ≡ true) xs above m, o.lt_irrefl x))
    | inr t ↦ t
  ]

  -- A strictly ascending list is determined by its members.
  pub ascending_unique :
      (xs ys : List A)
      → IsAscending xs
      → IsAscending ys
      → ((a : A) → Memᴰ a xs ↔ Memᴰ a ys)
      → xs ≡ ys
  ascending_unique [] [] hx hy same = refl
  ascending_unique [] (y ∷ ys) hx hy same = absurd (Memᴰ.not-nil ((same y).1 (Memᴰ.head refl)))
  ascending_unique (x ∷ xs) [] hx hy same = absurd (Memᴰ.not-nil ((same x).0 (Memᴰ.head refl)))
  ascending_unique (x ∷ xs) (y ∷ ys) hx hy same =
      let heads = first_same x y xs ys hx hy same in
      let tails = ascending_unique xs ys hx.1 hy.1 λ a. (
        drop_head x y a xs ys heads hx.0 (same a).0,
        drop_head y x a ys xs (sym heads) hy.0 (same a).1,
      ) in
      ap₂ (λ (h : A) (t : List A). h ∷ t) heads tails

module _ {ℓ} {A : Type ℓ} ⦃eq : Eq A⦄ where
  -- The run of elements equal to `x` is dropped.
  dedup_from : A → List A → List A
  dedup_from x [] = x ∷ []
  dedup_from x (y ∷ ys) =
      let same = dedup_from x ys in
      let apart = x ∷ dedup_from y ys in if x == y then same else apart

  unfoldable pub dedup : List A → List A
  unfolding dedup_from
  dedup [] = []
  dedup (x ∷ xs) = dedup_from x xs

  mem-dedup_from : (a x : A) (xs : List A) → Memᴰ a (dedup_from x xs) ↔ Memᴰ a (x ∷ xs)
  unfolding dedup_from
  mem-dedup_from a x [] = (λ m. m, λ m. m)
  mem-dedup_from a x (y ∷ ys) = ground (
    arith,
    mem-dedup_from a x ys,
    mem-dedup_from a y ys,
    eq.beq_iff x y,
    Memᴰ-cons a x (y ∷ ys),
    Memᴰ-cons a y ys,
    Memᴰ-cons a x ys,
    Memᴰ-cons a x (dedup_from y ys),
  )

  pub mem-dedup : (a : A) (xs : List A) → Memᴰ a (dedup xs) ↔ Memᴰ a xs
  unfolding dedup
  mem-dedup a [] = (λ m. m, λ m. m)
  mem-dedup a (x ∷ xs) = mem-dedup_from a x xs

module _ {ℓ} {A : Type ℓ} ⦃eq : Eq A⦄ ⦃o : StrictOrder A⦄ where
  above :
      (x y z : A) (ys : List A)
      → IsWeaklyAscending (x ∷ y ∷ ys)
      → (x == y) ≡ false
      → Memᴰ z (y ∷ ys)
      → o.lt? x z ≡ true
  above x y z ys h apart m = elim (Memᴰ.cases_cons m) [
    | inl e ↦ rw e (ground (arith, o.lt_total x y, eq.beq_iff x y))
    | inr t ↦ ground (
      arith,
      o.lt_total x z,
      o.lt_total x y,
      eq.beq_iff x y,
      All-mem (λ w. o.lt? w y ≡ false) ys h.1.0 t,
      All-mem (λ w. o.lt? w x ≡ false) ys h.0.1 t,
    )
  ]

  dedup_from-IsAscending :
      (x : A) (xs : List A) → IsWeaklyAscending (x ∷ xs) → IsAscending (dedup_from x xs)
  unfolding dedup_from
  dedup_from-IsAscending x [] h = (tt, tt)
  dedup_from-IsAscending x (y ∷ ys) h = elim (Bool-cases (x == y)) [
    | inl same ↦ rw same (dedup_from-IsAscending x ys (h.0.1, h.1.1))
    | inr apart ↦ rw apart (
      All-of_mem (dedup_from y ys) λ z m. above x y z ys h apart ((mem-dedup_from z y ys).0 m),
      dedup_from-IsAscending y ys h.1,
    )
  ]

  pub dedup-IsAscending : (xs : List A) → IsWeaklyAscending xs → IsAscending (dedup xs)
  unfolding dedup
  dedup-IsAscending [] h = tt
  dedup-IsAscending (x ∷ xs) h = dedup_from-IsAscending x xs h
