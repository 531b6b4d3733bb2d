-- ===== src/Adapter/Validate/RegionTable.antt =====
-- The contract of `check_regions` of crates/flutterdec-adapter/src/validate.rs.
use mathlib.Core.List.Memᴰ
use flutterdec.Common.{
  IsAscending-iff_adjacent, IsAscending-iff_IsDistinct, ◌==◌, IsDistinct, insert_all, gather,
  insert_all_iff, distinct-injective, All, All-map, find?-eq-some, find?-is-some, mem-keep,
  bind_iff, IsAscending, Option-cases, is_some, u64_mod, ok, ℕ, ◌+◌, ◌<◌, ◌≡◌, refl, ap, ◌∙◌, subst,
  ◌↔◌, inl, inr, true, some, List, ◌∷◌, map, Memᴰ, arith, [], ℕ_eq, List_eq, Option_eq, ℕ_order,
  Text_order,
}
use flutterdec.Adapter.Model.{
  is_executable, region_rank, Region_eq, region_eq_iff, InputRegion, region_end_va, region_of,
  executables,
}
use flutterdec.Adapter.Validate.Errors.{duplicate_region}
use flutterdec.Adapter.Validate.Regions.{check_region, out_of_order, check_regions}

-- A region that is what its name says: code has a load address and ends inside the address space,
-- data has no address.
pub record IsRegion (r : InputRegion) : Type 0 where
  pub executability : r.executable ≡ is_executable r.region
  pub addressed : is_some r.virtual_address ≡ r.executable
  pub fits : (base : ℕ) → r.virtual_address ≡ some base → base + r.size < u64_mod

abbrev pub ranks : List InputRegion → List ℕ
ranks regions = map (λ (r : InputRegion). region_rank r.region) regions

check_region_iff : (r : InputRegion) → (check_region r ≡ ok tt) ↔ IsRegion r
unfolding check_region region_end_va
check_region_iff r = elim (Option-cases r.virtual_address) [
  | inl e ↦ (λ h. ground arith, λ h. ground (arith, h.executability, h.addressed))
  | inr (b, e) ↦ (λ h. ground arith, λ h. ground (arith, h.executability, h.addressed, h.fits b))
]

IsDistinct-of_ranks :
    (rs : List InputRegion)
    → IsDistinct (ranks rs)
    → IsDistinct (map (λ (r : InputRegion). r.region) rs)
IsDistinct-of_ranks [] d = tt
IsDistinct-of_ranks (r ∷ rs) d = (
  λ m.
      let (s, there, named) = Memᴰ.of_map (λ (r : InputRegion). r.region) rs m in
      let same : region_rank s.region ≡ region_rank r.region = ap region_rank named in
      d.0 (
        subst (λ k. Memᴰ k (ranks rs)) same
          (Memᴰ.map (λ (r : InputRegion). region_rank r.region) there)),
  IsDistinct-of_ranks rs d.1,
)

-- The region table is accepted exactly when it is in canonical order, strictly, so with no region
-- twice, and each region is what its name says.
pub check_regions_iff :
    (rs : List InputRegion)
    → (check_regions rs ≡ ok tt) ↔ (IsAscending (ranks rs) × All IsRegion rs)
unfolding check_regions
check_regions_iff rs =
    let loop =
      insert_all_iff (λ (r : InputRegion). r.region) (λ r. duplicate_region r.region) check_region
        rs in
    let order =
      IsAscending-iff_adjacent (λ (r : InputRegion). region_rank r.region) out_of_order
        (λ a b. ground arith) rs in
    (
      λ h.
          let (seen, looped, sorted) =
            (bind_iff
                (insert_all (λ (r : InputRegion). r.region) (λ r. duplicate_region r.region)
                  check_region [] rs)
                _ tt).0
              h in
          let (d, passed, same) = (loop seen).0 looped in
          (order.0 (ground arith), All-map rs (λ r. (check_region_iff r).0) passed),
      λ (ascending, regions).
          let d = IsDistinct-of_ranks rs ((IsAscending-iff_IsDistinct (ranks rs)).0 ascending).0 in
          let passed =
            All-map {Q = λ r. check_region r ≡ ok tt} rs (λ r. (check_region_iff r).1) regions in
          (bind_iff
              (insert_all (λ (r : InputRegion). r.region) (λ r. duplicate_region r.region)
                check_region [] rs)
              _ tt).1
            (
              gather (λ (r : InputRegion). r.region) [] rs,
              (loop (gather (λ (r : InputRegion). r.region) [] rs)).1 (d, passed, refl),
              ground (arith, order.1 ascending),
            ),
    )

-- In an accepted table a name belongs to one region, and looking the name up finds it.
pub region_of-member :
    (rs : List InputRegion) (r : InputRegion)
    → check_regions rs ≡ ok tt
    → Memᴰ r rs
    → region_of rs r.region ≡ some r
region_of-member rs r h m =
    let (ascending, _) = (check_regions_iff rs).0 h in
    let d = IsDistinct-of_ranks rs ((IsAscending-iff_IsDistinct (ranks rs)).0 ascending).0 in
    let (found, hit) =
      find?-is-some (λ (k : InputRegion). k.region == r.region) rs r m
        ((region_eq_iff r.region r.region).1 refl) in
    let (n, same) = find?-eq-some (λ (k : InputRegion). k.region == r.region) rs hit in
    let one =
      distinct-injective (λ (k : InputRegion). k.region) rs d n m
        ((region_eq_iff found.region r.region).0 same) in
    hit ∙ ap some one

pub mem-executables :
    (r : InputRegion) (rs : List InputRegion)
    → Memᴰ r (executables rs) ↔ (Memᴰ r rs × (r.executable ≡ true))
mem-executables r rs = mem-keep (λ (k : InputRegion). k.executable) r rs
