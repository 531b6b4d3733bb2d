-- ===== src/Adapter/Protocol/Requests.antt =====
-- The contract of a request, of crates/flutterdec-adapter/src/protocol.rs:
-- `AdapterRequest::validate`.

use flutterdec.Common.{
  contains, contains_iff, IsDistinct, gather, insert_all_iff, mem-gather_empty,
  contains-gather-false, All, All-of_mem, All-map, All-mem, fail_if, for_each_iff, Text,
  Option-cases, is_some, u64_mod, ok, ℕ, ◌+◌, ◌<◌, ◌≡◌, refl, subst, ◌↔◌, inl, inr, false, not,
  some, List, map, Memᴰ, arith, [], ℕ_eq, List_eq, Option_eq, ℕ_order, Text_order,
}
use flutterdec.Adapter.Model.{
  InputRegionName, vm_data, isolate_data, vm_instructions, isolate_instructions, all_regions,
  is_executable, Region_eq,
}
use flutterdec.Adapter.Protocol.Documents.{
  missing_region, InputHandle, AdapterRequest, duplicate_region, aliased_path,
}
use flutterdec.Adapter.Protocol.Validation.{
  check_handle, check_present, check_inputs, check_paths, check_majors_are, validate_request,
}

-- A handle that describes a region of that name: code has a load address and data has none, it is
-- not empty, and it ends inside the address space.
pub record IsRegionHandle (i : InputHandle) : Type 0 where
  pub executability : i.executable ≡ is_executable i.region
  pub addressed : is_some i.virtual_address ≡ is_executable i.region
  pub not_empty : 0 < i.size
  pub fits : (base : ℕ) → i.virtual_address ≡ some base → base + i.size < u64_mod

-- The contract of a request.
pub record IsValidRequest (r : AdapterRequest) : Type 0 where
  pub protocol : r.protocol_major ≡ 1
  pub model : r.model_major ≡ 4
  pub regions_distinct : IsDistinct (map (λ (i : InputHandle). i.region) r.inputs)
  pub handles : All IsRegionHandle r.inputs
  pub regions_present :
      (name : InputRegionName) → Memᴰ name (map (λ (i : InputHandle). i.region) r.inputs)
  pub paths_distinct : IsDistinct (map (λ (i : InputHandle). i.path.text) r.inputs)
  pub output_apart : ¬ Memᴰ r.output.text (map (λ (i : InputHandle). i.path.text) r.inputs)

check_handle_iff : (i : InputHandle) → (check_handle i ≡ ok tt) ↔ IsRegionHandle i
unfolding check_handle
check_handle_iff i = elim (Option-cases i.virtual_address) [
  | inl e ↦ (λ h. ground arith, λ h. ground (arith, h.executability, h.addressed, h.not_empty))
  | inr (b, e) ↦ (λ h. ground arith, λ h. ground (arith, h.fits b))
]

all-regions : (name : InputRegionName) → Memᴰ name all_regions
all-regions vm_data = Memᴰ.head refl
all-regions isolate_data = Memᴰ.tail (Memᴰ.head refl)
all-regions vm_instructions = Memᴰ.tail (Memᴰ.tail (Memᴰ.head refl))
all-regions isolate_instructions = Memᴰ.tail (Memᴰ.tail (Memᴰ.tail (Memᴰ.head refl)))

check_present_iff :
    (seen : List InputRegionName)
    → (check_present seen ≡ ok tt) ↔ ((name : InputRegionName) → Memᴰ name seen)
unfolding check_present
check_present_iff seen =
    let loop =
      for_each_iff (λ region. fail_if (not (contains seen region)) (missing_region region))
        all_regions in
    (
      λ h name.
          let passed =
            All-mem
              (λ (region : InputRegionName).
                fail_if (not (contains seen region)) (missing_region region) ≡ ok tt)
              all_regions (loop.0 h) (all-regions name) in
          ground (arith, contains_iff seen name),
      λ h. loop.1 (
          All-of_mem
            {P = λ region. fail_if (not (contains seen region)) (missing_region region) ≡ ok tt}
            all_regions λ name m. ground (arith, contains_iff seen name, h name)),
    )

validate_request-steps :
    (r : AdapterRequest)
    → (validate_request r ≡ ok tt) ↔ (
        (check_majors_are r.protocol_major r.model_major ≡ ok tt)
        × ((seen : List InputRegionName) × (check_inputs r.inputs ≡ ok seen)
            × (check_present seen ≡ ok tt))
        × ((paths : List Text) × (check_paths r.inputs ≡ ok paths)
            × (contains paths r.output.text ≡ false)))
unfolding validate_request
validate_request-steps r = ground arith

handle_all_iff :
    (is : List InputHandle) → All (λ i. check_handle i ≡ ok tt) is ↔ All IsRegionHandle is
handle_all_iff is =
    (All-map is (λ i. (check_handle_iff i).0), All-map is (λ i. (check_handle_iff i).1))

-- `validate` accepts a request exactly when the request meets its contract: the accepted versions,
-- one well-described handle for each region of a snapshot and no other, and paths that are all
-- different, the output's among them.
pub validate_request_iff : (r : AdapterRequest) → (validate_request r ≡ ok tt) ↔ IsValidRequest r
validate_request_iff r =
    let steps = validate_request-steps r in
    let inputs =
      insert_all_iff (λ (i : InputHandle). i.region) (λ i. duplicate_region i.region) check_handle
        r.inputs in
    let paths =
      insert_all_iff (λ (i : InputHandle). i.path.text) (λ i. aliased_path i.path.text) (λ i. ok tt)
        r.inputs in
    (
      λ h.
          let (majors, (seen, looped, present), (used, walked, apart)) = steps.0 h in
          let (distinct, passed, same) = (inputs seen).0 looped in
          let (unlike, _, same_used) = (paths used).0 walked in
          record {
            protocol = ground arith;
            model = ground arith;
            regions_distinct = distinct;
            handles = (handle_all_iff r.inputs).0 passed;
            regions_present = λ name.
                (mem-gather_empty _ name r.inputs).0
                  (subst (Memᴰ name) same ((check_present_iff seen).0 present name));
            paths_distinct = unlike;
            output_apart =
                (contains-gather-false _ r.output.text r.inputs).0 (rw same_used at apart);
          },
      λ v.
          let seen = gather (λ (i : InputHandle). i.region) [] r.inputs in
          let used = gather (λ (i : InputHandle). i.path.text) [] r.inputs in
          steps.1 (
            ground (arith, v.protocol, v.model),
            (
              seen,
              (inputs seen).1 (v.regions_distinct, (handle_all_iff r.inputs).1 v.handles, refl),
              (check_present_iff seen).1
                  λ name. (mem-gather_empty _ name r.inputs).1 (v.regions_present name),
            ),
            (
              used,
              (paths used).1 (v.paths_distinct, All-of_mem r.inputs (λ i m. refl), refl),
              (contains-gather-false _ r.output.text r.inputs).1 v.output_apart,
            ),
          ),
    )
