-- ===== src/Common/Split.antt =====
-- `str::split` at a character, and the joining of the pieces.
use mathlib.Core.Path.{◌≡◌, refl, sym, ap, ◌∙◌}
use mathlib.Core.Logic.{inl, inr}
use mathlib.Core.List.{List, [], ◌∷◌, ◌++◌}
use Prim.Native.Nat.{ℕ}
use native.Mathlib.Omega.{arith}
use flutterdec.Common.Tests.{nat_eq, Bool-cases, if◌then◌else◌}
use flutterdec.Common.Strings.{Text}

-- `text.split(sep)`: always at least one component.
abbrev pub add_head : ℕ → List Text → List Text
add_head c [] = (c ∷ []) ∷ []
add_head c (w ∷ ws) = (c ∷ w) ∷ ws

unfoldable pub split : ℕ → Text → List Text
split sep [] = [] ∷ []
split sep (c ∷ cs) = let rest = split sep cs in if nat_eq c sep then [] ∷ rest else add_head c rest

-- `components.join(sep)`.
abbrev pub join : ℕ → List Text → Text
join sep [] = []
join sep (w ∷ []) = w
join sep (w ∷ v ∷ ws) = w ++ sep ∷ join sep (v ∷ ws)

split-ne-nil : (sep : ℕ) (t : Text) → (w : Text) × (ws : List Text) × (split sep t ≡ w ∷ ws)
unfolding split
split-ne-nil sep [] = ([], [], refl)
split-ne-nil sep (c ∷ cs) =
    let (w, ws, e) = split-ne-nil sep cs in
    elim (Bool-cases (nat_eq c sep)) [
      | inl same ↦ ([], split sep cs, rw same)
      | inr plain ↦ (c ∷ w, ws, rw (plain, e))
    ]

join-cons_cons :
    (sep c : ℕ) (w : Text) (ws : List Text) → join sep ((c ∷ w) ∷ ws) ≡ c ∷ join sep (w ∷ ws)
join-cons_cons sep c w [] = refl
join-cons_cons sep c w (v ∷ ws) = refl

pub join-split : (sep : ℕ) (t : Text) → join sep (split sep t) ≡ t
unfolding split
join-split sep [] = refl
join-split sep (c ∷ cs) =
    let (w, ws, e) = split-ne-nil sep cs in
    let ih : join sep (w ∷ ws) ≡ cs = rw (← e) (join-split sep cs) in
    elim (Bool-cases (nat_eq c sep)) [
      | inl same ↦ rw (same, e) (ground (arith, ih))
      | inr plain ↦ rw (plain, e) (join-cons_cons sep c w ws ∙ ap (λ (r : Text). c ∷ r) ih)
    ]

pub split-injective : (sep : ℕ) (s t : Text) → split sep s ≡ split sep t → s ≡ t
split-injective sep s t e = sym (join-split sep s) ∙ ap (join sep) e ∙ join-split sep t
