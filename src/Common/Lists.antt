-- ===== src/Common/Lists.antt =====
-- Lists measured and indexed by native numbers, predicates on them, and the searches of the
-- iterators (`any`, `all`, `find`, `position`).
use Prim.Native.Nat.{ℕ, zero, suc}
use mathlib.Core.Path.{◌≡◌, refl}
use mathlib.Core.Logic.{◌↔◌, ◌⊎◌, inl, inr, ⊎_elim}
use mathlib.Core.Bool.{Bool, true, false, ◌&&◌, ◌||◌}
use mathlib.Core.Option.{Option, none, some}
use mathlib.Core.List.{List, [], ◌∷◌, Memᴰ}
use mathlib.Core.List.Memᴰ
use native.Mathlib.Omega.{arith}
use flutterdec.Common.Tests.{if◌then◌else◌, Bool-cases}

module _ {ℓ} {A : Type ℓ} where
  abbrev pub length : List A → ℕ
  length [] = 0
  length (x ∷ xs) = suc (length xs)

  abbrev pub get_elem? : List A → ℕ → Option A
  get_elem? [] i = none
  get_elem? (x ∷ xs) zero = some x
  get_elem? (x ∷ xs) (suc i) = get_elem? xs i

  abbrev pub All {κ} : (A → Type κ) → List A → Type κ
  All P [] = Unit
  All P (x ∷ xs) = P x × All P xs

  abbrev pub any : (A → Bool) → List A → Bool
  any p [] = false
  any p (x ∷ xs) = p x || any p xs

  abbrev pub all : (A → Bool) → List A → Bool
  all p [] = true
  all p (x ∷ xs) = p x && all p xs

  abbrev pub find? : (A → Bool) → List A → Option A
  find? p [] = none
  find? p (x ∷ xs) = if p x then some x else find? p xs

  -- `iter().filter(p)`.
  abbrev pub keep : (A → Bool) → List A → List A
  keep p [] = []
  keep p (x ∷ xs) = let rest = keep p xs in if p x then x ∷ rest else rest

  -- `xs.windows(2).any(|w| r(w[0], w[1]))`.
  abbrev pub any_adjacent : (A → A → Bool) → List A → Bool
  any_adjacent r [] = false
  any_adjacent r (x ∷ []) = false
  any_adjacent r (x ∷ y ∷ xs) = r x y || any_adjacent r (y ∷ xs)

  pub Memᴰ-cons : (a x : A) (xs : List A) → Memᴰ a (x ∷ xs) ↔ ((a ≡ x) ⊎ Memᴰ a xs)
  Memᴰ-cons a x xs = (Memᴰ.cases_cons, ⊎_elim Memᴰ.head Memᴰ.tail)

  pub All-of_mem {κ} : {P : A → Type κ} (xs : List A) → ((x : A) → Memᴰ x xs → P x) → All P xs
  All-of_mem [] h = tt
  All-of_mem (x ∷ xs) h = (h x (Memᴰ.head refl), All-of_mem xs (λ y m. h y (Memᴰ.tail m)))

  pub All-map {κ μ} :
      {P : A → Type κ} {Q : A → Type μ} (xs : List A) → ((x : A) → P x → Q x) → All P xs → All Q xs
  All-map [] f h = tt
  All-map (x ∷ xs) f h = (f x h.0, All-map xs f h.1)

  any-of_mem : (p : A → Bool) (xs : List A) (y : A) → Memᴰ y xs → p y ≡ true → any p xs ≡ true
  any-of_mem p [] y m q = absurd (Memᴰ.not-nil m)
  any-of_mem p (x ∷ xs) y m q = elim (Memᴰ.cases_cons m) [
    | inl e ↦ let here : p x ≡ true = rw (← e) q in rw here
    | inr t ↦ ground (arith, any-of_mem p xs y t q)
  ]

  pub any_iff :
      (p : A → Bool) (xs : List A) → (any p xs ≡ true) ↔ ((x : A) × Memᴰ x xs × (p x ≡ true))
  any_iff p [] = (λ h. cc, λ h. absurd (Memᴰ.not-nil h.1))
  any_iff p (x ∷ xs) = (
    λ h. elim (Bool-cases (p x)) [
      | inl e ↦ (x, Memᴰ.head refl, e)
      | inr e ↦ let (y, m, q) = (any_iff p xs).0 (rw e at h) in (y, Memᴰ.tail m, q)
    ],
    λ (y, m, q). any-of_mem p (x ∷ xs) y m q,
  )

  pub any-false_iff : (p : A → Bool) (xs : List A) → (any p xs ≡ false) ↔ All (λ x. p x ≡ false) xs
  any-false_iff p [] = (λ h. tt, λ h. refl)
  any-false_iff p (x ∷ xs) = ground (arith, any-false_iff p xs)

  pub all_iff : (p : A → Bool) (xs : List A) → (all p xs ≡ true) ↔ All (λ x. p x ≡ true) xs
  all_iff p [] = (λ h. tt, λ h. refl)
  all_iff p (x ∷ xs) = ground (arith, all_iff p xs)

  pub find?-eq-some :
      (p : A → Bool) (xs : List A) {a : A} → find? p xs ≡ some a → Memᴰ a xs × (p a ≡ true)
  find?-eq-some p [] h = cc
  find?-eq-some p (x ∷ xs) {a} h = elim (Bool-cases (p x)) [
    | inl e ↦ let same : x ≡ a = cc (rw (e, if◌then◌else◌) at h) in (Memᴰ.head (cc), rw (← same) e)
    | inr e ↦ let (m, q) = find?-eq-some p xs (rw e at h) in (Memᴰ.tail m, q)
  ]

  pub find?-is-some :
      (p : A → Bool) (xs : List A) (a : A)
      → Memᴰ a xs
      → p a ≡ true
      → (b : A) × (find? p xs ≡ some b)
  find?-is-some p [] a m q = absurd (Memᴰ.not-nil m)
  find?-is-some p (x ∷ xs) a m q = elim (Bool-cases (p x)) [
    | inl e ↦ (x, rw e)
    | inr e ↦ elim (Memᴰ.cases_cons m) [
      | inl here ↦ absurd (cc)
      | inr there ↦ let (b, found) = find?-is-some p xs a there q in (b, rw e found)
    ]
  ]

module _ {ℓ} {A : Type ℓ} where
  pub mem-keep :
      (p : A → Bool) (t : A) (xs : List A) → Memᴰ t (keep p xs) ↔ (Memᴰ t xs × (p t ≡ true))
  mem-keep p t [] = (λ m. absurd (Memᴰ.not-nil m), λ m. m.0)
  mem-keep p t (x ∷ xs) = elim (Bool-cases (p x)) [
    | inl e ↦ rw e (
      λ m. elim (Memᴰ.cases_cons m) [
        | inl same ↦ (Memᴰ.head same, rw same e)
        | inr later ↦ let (k, q) = (mem-keep p t xs).0 later in (Memᴰ.tail k, q)
      ],
      λ (m, q). elim (Memᴰ.cases_cons m) [
        | inl same ↦ Memᴰ.head same
        | inr later ↦ Memᴰ.tail ((mem-keep p t xs).1 (later, q))
      ],
    )
    | inr e ↦ rw e (
      λ m. let (k, q) = (mem-keep p t xs).0 m in (Memᴰ.tail k, q),
      λ (m, q). elim (Memᴰ.cases_cons m) [
        | inl same ↦ let clash : p x ≡ true = rw (← same) q in absurd (cc)
        | inr later ↦ (mem-keep p t xs).1 (later, q)
      ],
    )
  ]

pub All-mem {ℓ κ} : {A : Type ℓ} (P : A → Type κ) (xs : List A) {a : A} → All P xs → Memᴰ a xs → P a
All-mem P [] h m = absurd (Memᴰ.not-nil m)
All-mem P (x ∷ xs) h m = elim (Memᴰ.cases_cons m) [ inl e ↦ rw e h.0 | inr t ↦ All-mem P xs h.1 t ]
