-- ===== src/Adapter/Validate/HostAgreement.antt =====
-- The contract of `check_host_facts` of crates/flutterdec-adapter/src/validate.rs.

use flutterdec.Common.{
  ◌==◌, list_eq_iff, option_eq_iff, All, All-of_mem, All-map, any_iff, All-mem, Result, Check,
  ◌>>=◌, ◌>>◌, fail_if, then_iff, for_each, for_each_iff, Option-cases, ok, err, String, ◌≡◌, refl,
  ap, ◌↔◌, inl, inr, Bool, true, not, Option, none, some, List, ◌∷◌, Memᴰ, arith, [], ℕ_eq, List_eq,
  Option_eq, ℕ_order, Text_order,
}
use flutterdec.Loader.Identity.{SnapshotIdentity}
use flutterdec.Loader.Equality.{
  Kind_eq, Source_eq, source_eq_iff, Width_eq, width_eq_iff, Arch_eq, arch_eq_iff,
}
use flutterdec.Adapter.Primitives.{Sha256Digest, digest_eq}
use flutterdec.Adapter.Model.{
  ProgramModel, Producer, Trust_eq, trust_eq_iff, CompatibilityBinding, Region_eq, region_eq_iff,
  InputRegion, region_of,
}
use flutterdec.Adapter.Validate.Errors.{ValidationError, HostSelectedContext, host_fact_mismatch}
use flutterdec.Adapter.Validate.HostFacts.{
  check_host_facts, check_fields, identity_fields, producer_fields, compatibility_fields,
  compare_region, check_expected, check_observed,
}

pub digest_eq_iff : (a b : Sha256Digest) → (digest_eq a b ≡ true) ↔ (a ≡ b)
digest_eq_iff a b = ground (arith, list_eq_iff a.text b.text)

check_fields_iff :
    (fields : List (String × Bool)) → (check_fields fields ≡ ok tt) ↔ All (λ f. f.1 ≡ true) fields
unfolding check_fields
check_fields_iff fields =
    let loop =
      for_each_iff (λ (f : String × Bool). fail_if (not f.1) (host_fact_mismatch f.0)) fields in
    (
      λ h. All-map fields (λ f q. ground arith) (loop.0 h),
      λ h. loop.1 (All-map fields (λ f q. ground arith) h),
    )

identity_iff : (a b : SnapshotIdentity) → (check_fields (identity_fields a b) ≡ ok tt) ↔ (a ≡ b)
identity_iff a b =
    let hash = option_eq_iff a.hash b.hash in
    let source = source_eq_iff a.hash_source b.hash_source in
    let kind = option_eq_iff a.kind b.kind in
    let arch = arch_eq_iff a.target_arch b.target_arch in
    let normalized = list_eq_iff a.features.normalized b.features.normalized in
    let raw = option_eq_iff a.features.raw b.features.raw in
    let width = width_eq_iff a.pointer_compression b.pointer_compression in
    (
      λ h.
          let (h1, q1) = (check_fields_iff (identity_fields a b)).0 h in
          let (h2, q2) = q1 in
          let (h3, q3) = q2 in
          let (h4, q4) = q3 in
          let (h5, q5) = q4 in
          let (h6, q6) = q5 in
          let (h7, _) = q6 in
          let e1 = hash.0 h1 in
          let e2 = source.0 h2 in
          let e3 = kind.0 h3 in
          let e4 = arch.0 h4 in
          let e5 = normalized.0 h5 in let e6 = raw.0 h6 in let e7 = width.0 h7 in cc,
      λ h. (check_fields_iff (identity_fields a b)).1 (
        hash.1 cc,
        (source.1 cc, (kind.1 cc, (arch.1 cc, (normalized.1 cc, (raw.1 cc, (width.1 cc, tt)))))),
      ),
    )

producer_iff : (a b : Producer) → (check_fields (producer_fields a b) ≡ ok tt) ↔ (a ≡ b)
unfolding check_fields for_each
producer_iff a b = ground (
  arith,
  list_eq_iff a.id b.id,
  list_eq_iff a.version b.version,
  digest_eq_iff a.artifact_sha256 b.artifact_sha256,
  trust_eq_iff a.trust b.trust,
)

binding_iff :
    (a b : CompatibilityBinding)
    → (check_fields (
          ("compatibility record digest", digest_eq a.record_sha256 b.record_sha256)
          ∷ ("parser family", a.parser_family_id == b.parser_family_id)
          ∷ ("profile id", a.profile_id == b.profile_id)
          ∷ ("profile digest", digest_eq a.profile_sha256 b.profile_sha256)
          ∷ [])
        ≡ ok tt)
      ↔ (a ≡ b)
unfolding check_fields for_each
binding_iff a b = ground (
  arith,
  digest_eq_iff a.record_sha256 b.record_sha256,
  list_eq_iff a.parser_family_id b.parser_family_id,
  list_eq_iff a.profile_id b.profile_id,
  digest_eq_iff a.profile_sha256 b.profile_sha256,
)

compatibility_iff :
    (a b : Option CompatibilityBinding)
    → ((compatibility_fields a b >>= check_fields) ≡ ok tt) ↔ (a ≡ b)
unfolding check_fields for_each
compatibility_iff none none = (λ h. refl, λ h. refl)
compatibility_iff none (some b) = (λ h. cc, λ h. cc)
compatibility_iff (some a) none = (λ h. cc, λ h. cc)
compatibility_iff (some a) (some b) =
    (λ h. ap some ((binding_iff a b).0 h), λ h. (binding_iff a b).1 cc)

-- The bytes and the address that a region table gives are the host's.
pub record IsSameRegion (observed expected : InputRegion) : Type 0 where
  pub size : observed.size ≡ expected.size
  pub sha256 : observed.sha256 ≡ expected.sha256
  pub virtual_address : observed.virtual_address ≡ expected.virtual_address

compare_region_iff : (e o : InputRegion) → (compare_region e o ≡ ok tt) ↔ IsSameRegion o e
compare_region_iff e o =
    ground
      (arith, digest_eq_iff o.sha256 e.sha256, option_eq_iff o.virtual_address e.virtual_address)

expected_iff :
    (observed : List InputRegion) (e : InputRegion)
    → (check_expected observed e ≡ ok tt)
      ↔ ((o : InputRegion) × (region_of observed e.region ≡ some o) × IsSameRegion o e)
unfolding check_expected
expected_iff observed e = elim (Option-cases (region_of observed e.region)) [
  | inl n ↦ (λ h. ground arith, λ h. ground arith)
  | inr (o, found) ↦ (
    λ h. (o, found, (compare_region_iff e o).0 (ground arith)),
    λ (o', found', same). ground (arith, (compare_region_iff e o').1 same),
  )
]

observed_iff :
    (expected : List InputRegion) (o : InputRegion)
    → (check_observed expected o ≡ ok tt)
      ↔ ((e : InputRegion) × Memᴰ e expected × (e.region ≡ o.region))
unfolding check_observed
observed_iff expected o =
    let named = any_iff (λ (r : InputRegion). r.region == o.region) expected in
    (
      λ h. let (e, m, q) = named.0 (ground arith) in (e, m, (region_eq_iff e.region o.region).0 q),
      λ (e, m, q). let hit = named.1 (e, m, (region_eq_iff e.region o.region).1 q) in ground arith,
    )

-- The facts of a model are the ones the host selected.
pub record AgreesWithHost {Extensions : Type 0} (m : ProgramModel Extensions)
    (host : HostSelectedContext) : Type 0 where
  pub identity : m.input.identity ≡ host.identity
  pub producer : m.producer ≡ host.producer
  pub compatibility : m.compatibility ≡ host.compatibility
  pub reported :
      (e : InputRegion)
      → Memᴰ e host.regions
      → (o : InputRegion) × (region_of m.input.regions e.region ≡ some o) × IsSameRegion o e
  pub expected :
      (o : InputRegion)
      → Memᴰ o m.input.regions
      → (e : InputRegion) × Memᴰ e host.regions × (e.region ≡ o.region)

-- The steps of the check, each of which has to pass.
steps_iff {ℓ} :
    {A : Type ℓ} (a b x y : Check ValidationError) (c : Result ValidationError A)
    (k : A → Check ValidationError)
    → ((a >> (b >> (c >>= λ fields. k fields >> (x >> y)))) ≡ ok tt)
      ↔ ((a ≡ ok tt) × (b ≡ ok tt) × ((c >>= k) ≡ ok tt) × (x ≡ ok tt) × (y ≡ ok tt))
steps_iff a b x y (ok fields) k = ground (
  arith,
  then_iff a (b >> (k fields >> (x >> y))),
  then_iff b (k fields >> (x >> y)),
  then_iff (k fields) (x >> y),
  then_iff x y,
)
steps_iff a b x y (err e) k = ground (arith, then_iff a (b >> err e), then_iff b (err e))

-- The host-fact check passes exactly when the model reports the host's identity, producer and
-- compatibility binding, every region of the host is reported with its size, digest and address,
-- and no region is reported that the host does not have.
pub check_host_facts_iff :
    {Extensions : Type 0} (m : ProgramModel Extensions) (host : HostSelectedContext)
    → (check_host_facts m host ≡ ok tt) ↔ AgreesWithHost m host
unfolding check_host_facts
check_host_facts_iff m host =
    let steps =
      steps_iff (check_fields (identity_fields m.input.identity host.identity))
        (check_fields (producer_fields m.producer host.producer))
        (for_each (check_expected m.input.regions) host.regions)
        (for_each (check_observed host.regions) m.input.regions)
        (compatibility_fields m.compatibility host.compatibility) check_fields in
    let i = identity_iff m.input.identity host.identity in
    let p = producer_iff m.producer host.producer in
    let c = compatibility_iff m.compatibility host.compatibility in
    let es = for_each_iff (check_expected m.input.regions) host.regions in
    let os = for_each_iff (check_observed host.regions) m.input.regions in
    (
      λ h.
          let (same, made, bound, first, second) = steps.0 h in
          record {
            identity = i.0 same;
            producer = p.0 made;
            compatibility = c.0 bound;
            reported = λ e n. (expected_iff m.input.regions e).0 (
                All-mem (λ e. check_expected m.input.regions e ≡ ok tt) host.regions (es.0 first)
                  n);
            expected = λ o n. (observed_iff host.regions o).0 (
                All-mem (λ o. check_observed host.regions o ≡ ok tt) m.input.regions (os.0 second)
                  n);
          },
      λ agrees. steps.1 (
        i.1 agrees.identity,
        p.1 agrees.producer,
        c.1 agrees.compatibility,
        es.1 (
            All-of_mem host.regions
              λ e n. (expected_iff m.input.regions e).1 (agrees.reported e n)),
        os.1 (
            All-of_mem m.input.regions
              λ o n. (observed_iff host.regions o).1 (agrees.expected o n)),
      ),
    )
