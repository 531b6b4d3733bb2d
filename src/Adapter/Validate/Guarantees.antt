-- ===== src/Adapter/Validate/Guarantees.antt =====
-- What a consumer of a model relies on after `validate` of
-- crates/flutterdec-adapter/src/validate.rs.

use flutterdec.Common.{
  ◌==◌, find?-eq-some, All-mem, u64_mod, ok, ℕ, ◌+◌, ◌*◌, ◌≤◌, ◌<◌, ◌≡◌, refl, sym, ap, ◌∙◌, subst,
  true, some, Memᴰ, arith, ℕ_eq, List_eq, Option_eq, ℕ_order, Text_order,
}
use flutterdec.Adapter.Model.{
  LibraryId, ClassId, Library, Class, class_of, library_of, owner_name, owner_library_uri,
  class_library_uri, is_executable, InputRegion, contains_address, PoolGeometry, PoolEntry,
  Function, ProgramModel, displacement_for_index, index_for_displacement, Region_eq, contains_range,
  region_end_va,
}
use flutterdec.Adapter.Model.Geometry.{contains_range-addresses, displacement_index_iff}
use flutterdec.Adapter.Validate.{validate}
use flutterdec.Adapter.Validate.Errors.{HostSelectedContext}
use flutterdec.Adapter.Validate.RegionTable.{IsRegion, check_regions_iff, region_of-member}
use flutterdec.Adapter.Validate.HostAgreement.{IsSameRegion}
use flutterdec.Adapter.Validate.Accepted.{validate_iff}

contains_address-same :
    (o e : InputRegion) (a : ℕ) → IsSameRegion o e → contains_address o a ≡ contains_address e a
unfolding contains_address contains_range region_end_va
contains_address-same o e a same = ground (arith, same.size, same.virtual_address)

module _ {Extensions : Type 0} (m : ProgramModel Extensions) (host : HostSelectedContext)
    (accepted : validate m host ≡ ok tt) where
  -- Each region of an accepted model is one of the host's, under the same name, with the same
  -- size, digest and address.
  pub host_region :
      (o : InputRegion)
      → Memᴰ o m.input.regions
      → (e : InputRegion) × Memᴰ e host.regions × (e.region ≡ o.region) × IsSameRegion o e
  host_region o n =
      let i = (validate_iff m host).0 accepted in
      let table = (check_regions_iff m.input.regions).1 (i.region_order, i.regions) in
      let (e, there, named) = i.host_facts.expected o n in
      let (o', found, same) = i.host_facts.reported e there in
      let mine = region_of-member m.input.regions o table n in
      let one : o' ≡ o = cc in (e, there, named, subst (λ x. IsSameRegion x e) one same)

  -- In an accepted model, every address of every function's code is in a region that the host has,
  -- one of its two regions of instructions, which starts where the function says its section does.
  pub code_in_host :
      (f : Function) (a : ℕ)
      → Memᴰ f m.functions
      → f.code.start_va ≤ a
      → a < f.code.start_va + f.code.size
      → (e : InputRegion) × Memᴰ e host.regions
        × (is_executable e.region ≡ true)
        × (e.virtual_address ≡ some f.code_section_va)
        × (contains_address e a ≡ true)
  code_in_host f a n low high =
      let i = (validate_iff m host).0 accepted in
      let s = i.code f n in
      let (e, there, named, same) = host_region s.section s.declared in
      let is_region = All-mem IsRegion m.input.regions i.regions s.declared in
      let each =
        (contains_range-addresses s.section f.code.start_va f.code.size s.not_empty).0 s.inside in
      (
        e,
        there,
        ap is_executable named ∙ sym is_region.executability ∙ s.is_code,
        sym same.virtual_address ∙ s.base,
        sym (contains_address-same s.section e a same) ∙ each a low high,
      )

  -- In an accepted model, the address that a pool entry gives is in one of the host's regions of
  -- instructions.
  pub target_in_host :
      (p : PoolEntry) (t : ℕ)
      → Memᴰ p m.object_pool.entries
      → p.target_va ≡ some t
      → (e : InputRegion) × Memᴰ e host.regions
        × (is_executable e.region ≡ true)
        × (contains_address e t ≡ true)
  target_in_host p t n q =
      let i = (validate_iff m host).0 accepted in
      let (r, declared, is_code, inside) = (i.pool p n).targets t q in
      let (e, there, named, same) = host_region r declared in
      let is_region = All-mem IsRegion m.input.regions i.regions declared in
      (
        e,
        there,
        ap is_executable named ∙ sym is_region.executability ∙ is_code,
        sym (contains_address-same r e t same) ∙ inside,
      )

  -- In an accepted model whose pool has a geometry, every entry has a displacement from the pool
  -- register that fits a `u64`, and the displacement leads back to that entry's index.
  pub entry_displacement :
      (g : PoolGeometry) (p : PoolEntry)
      → m.object_pool.geometry ≡ some g
      → Memᴰ p m.object_pool.entries
      → (d : ℕ) × (d < u64_mod)
        × (displacement_for_index g p.index ≡ some d)
        × (index_for_displacement g d ≡ some p.index)
  unfolding displacement_for_index
  entry_displacement g p q n =
      let i = (validate_iff m host).0 accepted in
      let l = i.laid_out g q in
      let fits = l.fits p n in
      let d = p.index * g.word_size + g.entries_offset in
      let positive : 0 < g.word_size = let w = l.word in ground arith in
      let there : displacement_for_index g p.index ≡ some d = ground arith in
      (d, fits, there, (displacement_index_iff g p.index d positive fits).0 there)

  -- In an accepted model, a function that names an owner has its owner's name, and if that class
  -- names a library, the URI of that library.
  pub owner_named :
      (f : Function) (o : ClassId)
      → Memᴰ f m.functions
      → f.owner ≡ some o
      → (c : Class) × (class_of m.classes o ≡ some c)
        × (owner_name m f ≡ some c.name)
        × ((l : LibraryId)
            → c.library ≡ some l
            → (k : Library) × (library_of m.libraries l ≡ some k)
              × (owner_library_uri m f ≡ some k.uri))
  unfolding owner_name owner_library_uri class_library_uri
  owner_named f o n q =
      let i = (validate_iff m host).0 accepted in
      let (c, found) = i.resolved.owners f o n q in
      let (there, _) = find?-eq-some (λ (k : Class). k.id == o) m.classes found in
      (
        c,
        found,
        rw (q, found) refl,
        λ l e.
            let (k, hit) = i.resolved.libraries c l there e in (k, hit, rw (q, found, e, hit) refl),
      )
