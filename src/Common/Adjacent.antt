-- ===== src/Common/Adjacent.antt =====
-- Tests of neighbours, `windows(2)`, and the order of the whole list.
use Prim.Native.Nat.{ℕ, ◌≤◌, ◌<◌}
use mathlib.Core.Path.{◌≡◌, refl, sym, subst}
use mathlib.Core.Logic.{◌↔◌, ◌≢◌}
use mathlib.Core.Bool.{Bool, true, false}
use mathlib.Core.List.{List, [], ◌∷◌, map, Memᴰ}
use native.Mathlib.Omega.{arith}
use flutterdec.Common.Tests.{ltb}
use flutterdec.Common.Lists.{All-map, All-mem, All-of_mem, any_adjacent}
use flutterdec.Common.Orders.{ℕ_order}
use flutterdec.Common.Sorting.{IsAscending, IsWeaklyAscending}
use flutterdec.Common.Inserting.{IsDistinct}

module _ {ℓ} {A : Type ℓ} (f : A → ℕ) (r : A → A → Bool) where
  pub IsAscending-iff_adjacent :
      ((a b : A) → (r a b ≡ false) ↔ (f a < f b))
      → (xs : List A) → (any_adjacent r xs ≡ false) ↔ IsAscending (map f xs)
  IsAscending-iff_adjacent test [] = (λ h. tt, λ h. refl)
  IsAscending-iff_adjacent test (x ∷ []) = (λ h. (tt, tt), λ h. refl)
  IsAscending-iff_adjacent test (x ∷ y ∷ xs) =
      let ih = IsAscending-iff_adjacent test (y ∷ xs) in
      (
        λ h.
            let step : f x < f y = ground (arith, test x y) in
            let rest : IsAscending (map f (y ∷ xs)) = ih.0 (ground arith) in
            ((ground arith, All-map (map f xs) (λ k above. ground arith) rest.0), rest),
        λ h. ground (arith, test x y, ih.1 h.1),
      )

  pub IsWeaklyAscending-iff_adjacent :
      ((a b : A) → (r a b ≡ false) ↔ (f a ≤ f b))
      → (xs : List A) → (any_adjacent r xs ≡ false) ↔ IsWeaklyAscending (map f xs)
  IsWeaklyAscending-iff_adjacent test [] = (λ h. tt, λ h. refl)
  IsWeaklyAscending-iff_adjacent test (x ∷ []) = (λ h. (tt, tt), λ h. refl)
  IsWeaklyAscending-iff_adjacent test (x ∷ y ∷ xs) =
      let ih = IsWeaklyAscending-iff_adjacent test (y ∷ xs) in
      (
        λ h.
            let step : f x ≤ f y = ground (arith, test x y) in
            let rest : IsWeaklyAscending (map f (y ∷ xs)) = ih.0 (ground arith) in
            ((ground arith, All-map (map f xs) (λ k above. ground arith) rest.0), rest),
        λ h. ground (arith, test x y, ih.1 h.1),
      )

-- Strictly ascending is ascending without repeats.
pub IsAscending-iff_IsDistinct :
    (ks : List ℕ) → IsAscending ks ↔ (IsDistinct ks × IsWeaklyAscending ks)
IsAscending-iff_IsDistinct [] = (λ h. (tt, tt), λ h. tt)
IsAscending-iff_IsDistinct (k ∷ ks) =
    let ih = IsAscending-iff_IsDistinct ks in
    (
      λ h.
          let (d, w) = ih.0 h.1 in
          (
            (λ m. absurd (ground (arith, All-mem (λ j. ltb k j ≡ true) ks h.0 m)), d),
            (All-map ks (λ j above. ground arith) h.0, w),
          ),
      λ (d, w). (
        All-of_mem ks λ j m.
            let apart : k ≢ j = λ e. d.0 (subst (λ i. Memᴰ i ks) (sym e) m) in
            ground (arith, All-mem (λ i. ltb i k ≡ false) ks w.0 m),
        ih.1 (d.1, w.1),
      ),
    )
