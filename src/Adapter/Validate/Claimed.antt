-- ===== src/Adapter/Validate/Claimed.antt =====
-- What a claim on one domain says of the records in it, in `check_capabilities` of
-- crates/flutterdec-adapter/src/validate.rs.

use flutterdec.Common.{
  any, any_iff, Bool-cases, ◌≡◌, refl, ◌↔◌, inl, inr, Bool, true, false, ◌&&◌, List, ◌∷◌, Memᴰ,
  arith, [], ℕ_eq, List_eq, Option_eq, ℕ_order, Text_order,
}
use flutterdec.Adapter.Model.{
  Provenance, heuristic, CapabilityLevel, complete, unavailable, is_complete, is_unavailable,
  PoolEntryKind, undecoded,
}
use flutterdec.Adapter.Validate.Claims.{is_heuristic, is_undecoded, has_any}

heuristic_iff : (p : Provenance) → (is_heuristic p ≡ true) ↔ (p ≡ heuristic)
heuristic_iff p = ground arith

pub unavailable_iff : (l : CapabilityLevel) → (is_unavailable l ≡ true) ↔ (l ≡ unavailable)
unavailable_iff l = ground arith

pub complete_iff : (l : CapabilityLevel) → (is_complete l ≡ true) ↔ (l ≡ complete)
complete_iff l = ground arith

pub undecoded_iff : (k : PoolEntryKind) → (is_undecoded k ≡ true) ↔ (k ≡ undecoded)
undecoded_iff k = ground arith

-- A record that is not there where its domain is unavailable, and not a guess where its domain is
-- complete.
pub record IsClaimed {A : Type 0} (l : CapabilityLevel) (provenance : A → Provenance) (xs : List A)
    : Type 0 where
  pub absent : l ≡ unavailable → xs ≡ []
  pub certain : l ≡ complete → (x : A) → Memᴰ x xs → ¬ (provenance x ≡ heuristic)

module _ {A : Type 0} where
  has_any_iff : (xs : List A) → (has_any xs ≡ false) ↔ (xs ≡ [])
  has_any_iff [] = (λ h. refl, λ h. refl)
  has_any_iff (x ∷ xs) = (λ h. cc, λ h. cc)

  -- `guard && xs.iter().any(p)` is false exactly when the guard's side condition excludes `p`.
  pub guarded_iff {ℓ κ} :
      {G : Type ℓ} {P : A → Type κ} (guard : Bool) (p : A → Bool) (xs : List A)
      → (guard ≡ true) ↔ G
      → ((x : A) → (p x ≡ true) ↔ P x)
      → ((guard && any p xs) ≡ false) ↔ (G → (x : A) → Memᴰ x xs → ¬ P x)
  guarded_iff guard p xs g each =
      let found = any_iff p xs in
      (
        λ h on x n q. let hit = found.1 (x, n, (each x).1 q) in let on' = g.1 on in ground arith,
        λ no. elim (Bool-cases guard) [
          | inl e ↦ elim (Bool-cases (any p xs)) [
            | inl hit ↦ let (x, n, q) = found.0 hit in absurd (no (g.0 e) x n ((each x).0 q))
            | inr e' ↦ ground arith
          ]
          | inr e ↦ ground arith
        ],
      )

  absent_iff :
      (l : CapabilityLevel) (xs : List A)
      → ((is_unavailable l && has_any xs) ≡ false) ↔ (l ≡ unavailable → xs ≡ [])
  absent_iff l xs = ground (arith, unavailable_iff l, has_any_iff xs)

  pub IsClaimed-iff :
      (l : CapabilityLevel) (provenance : A → Provenance) (xs : List A)
      → (((is_unavailable l && has_any xs) ≡ false)
          × ((is_complete l && any (λ x. is_heuristic (provenance x)) xs) ≡ false))
        ↔ IsClaimed l provenance xs
  IsClaimed-iff l provenance xs =
      let a = absent_iff l xs in
      let c =
        guarded_iff (is_complete l) (λ x. is_heuristic (provenance x)) xs (complete_iff l)
          (λ x. heuristic_iff (provenance x)) in
      (λ (h, k). record { absent = a.0 h; certain = c.0 k }, λ i. (a.1 i.absent, c.1 i.certain))
