-- ===== src/Adapter/Model/Geometry.antt =====
-- crates/flutterdec-adapter/src/model.rs: pool displacements and entry indexes, and what lies
-- inside a region.
use native.Mathlib.Nat.{mul-div_left, mul-mod_left, div-add-mod'}
use flutterdec.Common.{
  Option-cases, u64_mod, ℕ, ◌+◌, ◌-◌, ◌*◌, ◌/◌, ◌%◌, ◌≤◌, ◌<◌, ◌≡◌, ◌↔◌, inl, inr, true, some,
  arith, ℕ_eq, List_eq, Option_eq, ℕ_order, Text_order,
}
use flutterdec.Adapter.Model.Pool.{PoolGeometry, index_for_displacement, displacement_for_index}
use flutterdec.Adapter.Model.Input.{InputRegion, contains_range, contains_address}

scaled : (i w : ℕ) → 0 < w → (i * w / w ≡ i) × (i * w % w ≡ 0)
scaled i w h = (mul-div_left i h, mul-mod_left i w)

unscaled : (r w : ℕ) → r % w ≡ 0 → r / w * w ≡ r
unscaled r w h = omega (arith, div-add-mod' r w)

-- In a pool with a nonzero stride, an entry sits at a displacement exactly when the displacement
-- names that entry: the two conversions are inverse to one another, over all of `u64`, and each
-- fails where the other has no answer.
pub displacement_index_iff :
    (g : PoolGeometry) (i d : ℕ)
    → 0 < g.word_size
    → d < u64_mod
    → (displacement_for_index g i ≡ some d) ↔ (index_for_displacement g d ≡ some i)
unfolding displacement_for_index index_for_displacement
displacement_index_iff g i d w fits = (
  λ h. ground (arith, scaled i g.word_size w),
  λ h. ground (arith, unscaled (d - g.entries_offset) g.word_size),
)

-- A region contains a span exactly when it has a load address, neither end passes the address
-- space, and the span lies between its ends.
pub contains_range_iff :
    (r : InputRegion) (start size : ℕ)
    → (contains_range r start size ≡ true) ↔ (
        (base : ℕ) × (r.virtual_address ≡ some base)
        × (base ≤ start)
        × (start + size ≤ base + r.size)
        × (base + r.size < u64_mod))
unfolding contains_range
contains_range_iff r start size = elim (Option-cases r.virtual_address) [
  | inl e ↦ (λ h. ground arith, λ h. ground arith)
  | inr (b, e) ↦ (λ h. (b, e, ground arith, ground arith, ground arith), λ h. ground arith)
]

pub contains_range-addresses :
    (r : InputRegion) (start size : ℕ)
    → 0 < size
    → (contains_range r start size ≡ true)
      ↔ ((a : ℕ) → start ≤ a → a < start + size → contains_address r a ≡ true)
unfolding contains_address
contains_range-addresses r start size h = (
  λ inside a low high.
      let (base, same, above, within, fits) = (contains_range_iff r start size).0 inside in
      (contains_range_iff r a 1).1 (base, same, omega arith, omega arith, fits),
  λ each.
      let (base, same, above, _, fits) =
        (contains_range_iff r start 1).0 (each start (omega arith) (omega arith)) in
      let (last, same', _, within, _) =
        (contains_range_iff r (start + size - 1) 1).0
          (each (start + size - 1) (omega arith) (omega arith)) in
      (contains_range_iff r start size).1 (base, same, above, ground arith, fits),
)
