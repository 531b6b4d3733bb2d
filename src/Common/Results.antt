-- ===== src/Common/Results.antt =====
-- `Result<T, E>`: the `?` operator as bind, early returns, and loops that return at the first
-- error. Each has a lemma that says when it succeeds.
use mathlib.Core.Path.{◌≡◌, refl}
use mathlib.Core.Logic.{◌⊎◌, inl, inr, ◌↔◌}
use mathlib.Core.Bool.{Bool, true, false}
use mathlib.Core.Option.{Option, none, some}
use mathlib.Core.List.{List, [], ◌∷◌}
use native.Mathlib.Omega.{arith}
use flutterdec.Common.Lists.{All}

pub data Result {ℓ κ} (E : Type ℓ) (A : Type κ) : Type (ℓ ⊔ κ) where
  ok : A → Result E A
  err : E → Result E A

-- `Result<(), E>`.
abbrev pub Check {ℓ} : Type ℓ → Type ℓ
Check E = Result E (Unit {0})

infixl 5 ◌>>=◌ ◌>>◌
abbrev pub ◌>>=◌ {ℓ κ μ} :
    {E : Type ℓ} {A : Type κ} {B : Type μ} → Result E A → (A → Result E B) → Result E B
ok a >>= f = f a
err e >>= f = err e

abbrev pub ◌>>◌ {ℓ κ} : {E : Type ℓ} {B : Type κ} → Check E → Result E B → Result E B
m >> k = m >>= λ _. k

module _ {ℓ} {E : Type ℓ} where
  -- `if b { return Err(e) }`.
  abbrev pub fail_if : Bool → E → Check E
  fail_if true e = err e
  fail_if false e = ok tt

  pub fail_if_iff : (b : Bool) (e : E) → (fail_if b e ≡ ok tt) ↔ (b ≡ false)
  fail_if_iff true e = (λ h. cc, λ h. cc)
  fail_if_iff false e = (λ h. refl, λ h. refl)

  -- A step of a check, and what follows it.
  pub then_iff : (m k : Check E) → ((m >> k) ≡ ok tt) ↔ ((m ≡ ok tt) × (k ≡ ok tt))
  then_iff (ok tt) k = (λ h. (refl, h), λ h. h.1)
  then_iff (err e) k = (λ h. cc, λ h. cc h.0)

  pub Result-cases {κ} :
      {A : Type κ} (r : Result E A) → ((a : A) × (r ≡ ok a)) ⊎ ((e : E) × (r ≡ err e))
  Result-cases (ok a) = inl (a, refl)
  Result-cases (err e) = inr (e, refl)

  pub bind_iff {κ μ} :
      {A : Type κ} {B : Type μ} (m : Result E A) (f : A → Result E B) (b : B)
      → ((m >>= f) ≡ ok b) ↔ ((a : A) × (m ≡ ok a) × (f a ≡ ok b))
  bind_iff (ok a) f b = (λ h. (a, refl, h), λ h. ground (arith, h.1, h.2))
  bind_iff (err e) f b = (λ h. cc, λ h. cc h.1)

  -- `o.ok_or(e)?`.
  abbrev pub ok_or {κ} : {A : Type κ} → Option A → E → Result E A
  ok_or (some a) e = ok a
  ok_or none e = err e

  module _ {κ} {A : Type κ} where
    -- `for x in xs { f(x)? }`.
    unfoldable pub for_each : (A → Check E) → List A → Check E
    for_each f [] = ok tt
    for_each f (x ∷ xs) = let rest = for_each f xs in f x >> rest

    pub for_each_iff :
        (f : A → Check E) (xs : List A) → (for_each f xs ≡ ok tt) ↔ All (λ x. f x ≡ ok tt) xs
    unfolding for_each
    for_each_iff f [] = (λ h. tt, λ h. refl)
    for_each_iff f (x ∷ xs) =
        let step = then_iff (f x) (for_each f xs) in
        let ih = for_each_iff f xs in
        (λ h. ((step.0 h).0, ih.0 (step.0 h).1), λ h. step.1 (h.0, ih.1 h.1))
