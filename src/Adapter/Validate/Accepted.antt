-- ===== src/Adapter/Validate/Accepted.antt =====
-- The contract of `validate` of crates/flutterdec-adapter/src/validate.rs, all its checks together.

use flutterdec.Common.{
  IsAscending-iff_IsDistinct, All, Check, ◌>>◌, fail_if, fail_if_iff, then_iff, IsAscending, nat_eq,
  ok, ◌≡◌, ◌↔◌, not, some, Memᴰ, arith, ℕ_eq, List_eq, Option_eq, ℕ_order, Text_order,
}
use flutterdec.Adapter.Model.{PoolGeometry, PoolEntry, Function, Name, ProgramModel, model_major}
use flutterdec.Adapter.Validate.Errors.{
  ValidationError, HostSelectedContext, unsupported_model_version,
}
use flutterdec.Adapter.Validate.{
  validate, check_regions, check_host_facts, check_strings, check_confidence,
  check_identity_and_order, check_references, check_capabilities, check_geometry, check_addresses,
}
use flutterdec.Adapter.Validate.RegionTable.{IsRegion, ranks, check_regions_iff}
use flutterdec.Adapter.Validate.HostAgreement.{AgreesWithHost, check_host_facts_iff}
use flutterdec.Adapter.Validate.Naming.{IsNamed, check_strings_iff}
use flutterdec.Adapter.Validate.Confidences.{IsConfidence, check_confidence_iff}
use flutterdec.Adapter.Validate.Identifiers.{IsCanonical, check_identity_and_order_iff}
use flutterdec.Adapter.Validate.References.{IsResolved, check_references_iff}
use flutterdec.Adapter.Validate.Acyclic.{IsAcyclic, class_ids}
use flutterdec.Adapter.Validate.Honesty.{IsHonest, check_capabilities_iff}
use flutterdec.Adapter.Validate.PoolLayout.{IsLaidOut, check_geometry_iff}
use flutterdec.Adapter.Validate.CodeSafety.{IsInSection, IsPointing, check_addresses_iff}

-- A model that the host accepts.
pub record IsAccepted {Extensions : Type 0} (m : ProgramModel Extensions)
    (host : HostSelectedContext) : Type 0 where
  pub version : m.model_version ≡ model_major
  pub region_order : IsAscending (ranks m.input.regions)
  pub regions : All IsRegion m.input.regions
  pub host_facts : AgreesWithHost m host
  pub named : IsNamed m
  pub name_confidence :
      (f : Function)
      → Memᴰ f m.functions
      → (n : Name) → f.name ≡ some n
      → IsConfidence n.confidence n.provenance
  pub entry_confidence :
      (e : PoolEntry) → Memᴰ e m.object_pool.entries → IsConfidence e.confidence e.provenance
  pub canonical : IsCanonical m
  pub resolved : IsResolved m
  pub acyclic : IsAcyclic m.classes
  pub honest : IsHonest m
  pub laid_out :
      (g : PoolGeometry) → m.object_pool.geometry ≡ some g → IsLaidOut m.object_pool.entries g
  pub code : (f : Function) → Memᴰ f m.functions → IsInSection m.input.regions f
  pub pool : (e : PoolEntry) → Memᴰ e m.object_pool.entries → IsPointing m.input.regions e

chain_iff :
    (a b c d e f g h i : Check ValidationError)
    → ((a >> (b >> (c >> (d >> (e >> (f >> (g >> (h >> i)))))))) ≡ ok tt) ↔ (
        (a ≡ ok tt)
        × (b ≡ ok tt)
        × (c ≡ ok tt)
        × (d ≡ ok tt)
        × (e ≡ ok tt)
        × (f ≡ ok tt)
        × (g ≡ ok tt)
        × (h ≡ ok tt)
        × (i ≡ ok tt))
chain_iff a b c d e f g h i = ground (
  arith,
  then_iff a (b >> (c >> (d >> (e >> (f >> (g >> (h >> i))))))),
  then_iff b (c >> (d >> (e >> (f >> (g >> (h >> i)))))),
  then_iff c (d >> (e >> (f >> (g >> (h >> i))))),
  then_iff d (e >> (f >> (g >> (h >> i)))),
  then_iff e (f >> (g >> (h >> i))),
  then_iff f (g >> (h >> i)),
  then_iff g (h >> i),
  then_iff h i,
)

-- A model is accepted exactly when its
-- version is 4; its region table is in canonical order and each region is what its name says; its
-- facts are the host's; names are names; confidences belong to guesses; records are in strict
-- order; references are defined and superclass edges have no cycle; its claims are about what it
-- contains; its pool lies in the address space; and code and targets are in executable regions.
pub validate_iff :
    {Extensions : Type 0} (m : ProgramModel Extensions) (host : HostSelectedContext)
    → (validate m host ≡ ok tt) ↔ IsAccepted m host
unfolding validate
validate_iff m host =
    let chain =
      chain_iff
        (fail_if (not (nat_eq m.model_version model_major))
          (unsupported_model_version m.model_version))
        (check_regions m.input.regions) (check_host_facts m host) (check_strings m)
        (check_confidence m) (check_identity_and_order m) (check_references m)
        (check_capabilities m) (check_geometry m.object_pool >> check_addresses m) in
    let version =
      fail_if_iff (not (nat_eq m.model_version model_major))
        (unsupported_model_version m.model_version) in
    let last = then_iff (check_geometry m.object_pool) (check_addresses m) in
    let table = check_regions_iff m.input.regions in
    let facts = check_host_facts_iff m host in
    let strings = check_strings_iff m in
    let confidence = check_confidence_iff m in
    let ids = check_identity_and_order_iff m in
    let refs = λ (c : IsCanonical m).
      check_references_iff m ((IsAscending-iff_IsDistinct (class_ids m.classes)).0 c.classes).0 in
    let claims = check_capabilities_iff m in
    let layout = check_geometry_iff m.object_pool in
    let addresses = check_addresses_iff m in
    (
      λ h.
          let (h1, h2, h3, h4, h5, h6, h7, h8, h9) = chain.0 h in
          let (h9, h10) = last.0 h9 in
          let (ordered, each) = table.0 h2 in
          let (names, entries) = confidence.0 h5 in
          let canonical = ids.0 h6 in
          let (resolved, acyclic) = (refs canonical).0 h7 in
          let (code, pool) = addresses.0 h10 in
          record {
            version = let off = version.0 h1 in ground arith;
            region_order = ordered;
            regions = each;
            host_facts = facts.0 h3;
            named = strings.0 h4;
            name_confidence = names;
            entry_confidence = entries;
            canonical = canonical;
            resolved = resolved;
            acyclic = acyclic;
            honest = claims.0 h8;
            laid_out = layout.0 h9;
            code = code;
            pool = pool;
          },
      λ i. chain.1 (
        version.1 (let four = i.version in ground arith),
        table.1 (i.region_order, i.regions),
        facts.1 i.host_facts,
        strings.1 i.named,
        confidence.1 (i.name_confidence, i.entry_confidence),
        ids.1 i.canonical,
        (refs i.canonical).1 (i.resolved, i.acyclic),
        claims.1 i.honest,
        last.1 (layout.1 i.laid_out, addresses.1 (i.code, i.pool)),
      ),
    )
