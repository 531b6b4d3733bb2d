-- ===== src/Common/Inserting.antt =====
-- The loop `for x in xs { if !seen.insert(key(x)) { return Err(dup(x)) } check(x)? }`, which the
-- validations share, and what it means that the loop ends without an error.
use mathlib.Core.Path.{◌≡◌, refl, sym, ap, ◌∙◌, subst}
use mathlib.Core.Logic.{◌↔◌, ◌⊎◌, inl, inr}
use mathlib.Core.List.{List, [], ◌∷◌, map, Memᴰ}
use mathlib.Core.List.Memᴰ
use native.Mathlib.Omega.{arith}
use mathlib.Core.Bool.{false}
use flutterdec.Common.Tests.{Bool-cases}
use flutterdec.Common.Lists.{All, Memᴰ-cons}
use flutterdec.Common.Results.{Result, Check, ok, ◌>>◌, fail_if}
use flutterdec.Common.Classes.{Eq, contains, contains_iff}

-- No element is repeated.
abbrev pub IsDistinct {ℓ} : {K : Type ℓ} → List K → Type ℓ
IsDistinct [] = Unit
IsDistinct (k ∷ ks) = (¬ Memᴰ k ks) × IsDistinct ks

module _ {ℓ} {A K E : Type ℓ} ⦃eq : Eq K⦄ (key : A → K) (dup : A → E) (check : A → Check E) where
  unfoldable pub insert_all : List K → List A → Result E (List K)
  insert_all seen [] = ok seen
  insert_all seen (x ∷ xs) =
      let rest = insert_all (key x ∷ seen) xs in
      do fail_if (contains seen (key x)) (dup x); check x; rest

module _ {ℓ} {A K : Type ℓ} (key : A → K) where
  -- The set after the loop.
  abbrev pub gather : List K → List A → List K
  gather seen [] = seen
  gather seen (x ∷ xs) = gather (key x ∷ seen) xs

  pub mem-gather :
      (k : K) (seen : List K) (xs : List A)
      → Memᴰ k (gather seen xs) ↔ (Memᴰ k seen ⊎ Memᴰ k (map key xs))
  mem-gather k seen [] = (inl, λ m. elim m [ inl s ↦ s | inr n ↦ absurd (Memᴰ.not-nil n) ])
  mem-gather k seen (x ∷ xs) = ground (
    arith,
    mem-gather k (key x ∷ seen) xs,
    Memᴰ-cons k (key x) seen,
    Memᴰ-cons k (key x) (map key xs),
  )

  abbrev IsFresh : List K → List A → Type ℓ
  IsFresh seen [] = Unit
  IsFresh seen (x ∷ xs) = (¬ Memᴰ (key x) seen) × IsFresh (key x ∷ seen) xs

  IsFresh-of_distinct :
      (seen : List K) (xs : List A)
      → IsDistinct (map key xs)
      → ((k : K) → Memᴰ k (map key xs) → ¬ Memᴰ k seen)
      → IsFresh seen xs
  IsFresh-of_distinct seen [] d apart = tt
  IsFresh-of_distinct seen (x ∷ xs) d apart = (
    apart (key x) (Memᴰ.head refl),
    IsFresh-of_distinct (key x ∷ seen) xs d.1 λ k m s. elim (Memᴰ.cases_cons s) [
      | inl e ↦ d.0 (subst (λ c. Memᴰ c (map key xs)) e m)
      | inr t ↦ apart k (Memᴰ.tail m) t
    ],
  )

  IsDistinct-of_IsFresh :
      (seen : List K) (xs : List A)
      → IsFresh seen xs
      → IsDistinct (map key xs) × ((k : K) → Memᴰ k (map key xs) → ¬ Memᴰ k seen)
  IsDistinct-of_IsFresh seen [] f = (tt, λ k m. absurd (Memᴰ.not-nil m))
  IsDistinct-of_IsFresh seen (x ∷ xs) f =
      let (d, apart) = IsDistinct-of_IsFresh (key x ∷ seen) xs f.1 in
      (
        (λ m. apart (key x) m (Memᴰ.head refl), d),
        λ k m s. elim (Memᴰ.cases_cons m) [
          | inl e ↦ f.0 (subst (λ c. Memᴰ c seen) e s)
          | inr t ↦ apart k t (Memᴰ.tail s)
        ],
      )

module _ {ℓ} {A K E : Type ℓ} ⦃eq : Eq K⦄ (key : A → K) (dup : A → E) (check : A → Check E) where
  insert_all_from :
      (seen : List K) (xs : List A) (out : List K)
      → (insert_all key dup check seen xs ≡ ok out)
        ↔ (IsFresh key seen xs × All (λ x. check x ≡ ok tt) xs × (out ≡ gather key seen xs))
  unfolding insert_all
  insert_all_from seen [] out = (λ h. (tt, tt, cc), λ h. cc)
  insert_all_from seen (x ∷ xs) out =
      ground (arith, insert_all_from (key x ∷ seen) xs out, contains_iff seen (key x))

  -- From the empty set the loop ends without an error exactly when the keys are distinct and every
  -- element passes.
  pub insert_all_iff :
      (xs : List A) (out : List K)
      → (insert_all key dup check [] xs ≡ ok out)
        ↔ (IsDistinct (map key xs) × All (λ x. check x ≡ ok tt) xs × (out ≡ gather key [] xs))
  insert_all_iff xs out =
      let loop = insert_all_from [] xs out in
      (
        λ h.
            let (f, passed, same) = loop.0 h in
            ((IsDistinct-of_IsFresh key [] xs f).0, passed, same),
        λ (d, passed, same).
            loop.1 (IsFresh-of_distinct key [] xs d (λ k m s. Memᴰ.not-nil s), passed, same),
      )

pub mem-gather_empty {ℓ} :
    {A K : Type ℓ} (key : A → K) (k : K) (xs : List A)
    → Memᴰ k (gather key [] xs) ↔ Memᴰ k (map key xs)
mem-gather_empty key k xs =
    let m = mem-gather key k [] xs in
    (λ h. elim (m.0 h) [ inl s ↦ absurd (Memᴰ.not-nil s) | inr t ↦ t ], λ t. m.1 (inr t))

-- What is not in the set after the loop is the key of no element.
pub contains-gather-false {ℓ} :
    {A K : Type ℓ} ⦃eq : Eq K⦄ (key : A → K) (k : K) (xs : List A)
    → (contains (gather key [] xs) k ≡ false) ↔ (¬ Memᴰ k (map key xs))
contains-gather-false key k xs =
    let m = mem-gather_empty key k xs in
    let c = contains_iff (gather key [] xs) k in
    (
      λ h n. cc (h, c.1 (m.1 n)),
      λ apart. elim (Bool-cases (contains (gather key [] xs) k)) [
        | inl e ↦ absurd (apart (m.0 (c.0 e)))
        | inr e ↦ e
      ],
    )

-- Where the keys of a list are distinct, a key belongs to one element.
pub distinct-injective {ℓ} :
    {A K : Type ℓ} (key : A → K) (xs : List A) {x y : A}
    → IsDistinct (map key xs)
    → Memᴰ x xs
    → Memᴰ y xs
    → key x ≡ key y
    → x ≡ y
distinct-injective key [] d m n e = absurd (Memᴰ.not-nil m)
distinct-injective key (z ∷ zs) d m n e = elim (Memᴰ.cases_cons m) [
  | inl x_here ↦ elim (Memᴰ.cases_cons n) [
    | inl y_here ↦ x_here ∙ sym y_here
    | inr y_later ↦
        let k : key z ≡ key _ = ap key (sym x_here) ∙ e in
        absurd (d.0 (subst (λ c. Memᴰ c (map key zs)) (sym k) (Memᴰ.map key y_later)))
  ]
  | inr x_later ↦ elim (Memᴰ.cases_cons n) [
    | inl y_here ↦
        let k : key _ ≡ key z = e ∙ ap key y_here in
        absurd (d.0 (subst (λ c. Memᴰ c (map key zs)) k (Memᴰ.map key x_later)))
    | inr y_later ↦ distinct-injective key zs d.1 x_later y_later e
  ]
]
