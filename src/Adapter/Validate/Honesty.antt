-- ===== src/Adapter/Validate/Honesty.antt =====
-- The contract of `check_capabilities` of crates/flutterdec-adapter/src/validate.rs.

use flutterdec.Common.{
  is_some, is_none, ok, ◌≡◌, ◌↔◌, Bool, true, false, not, ◌&&◌, List, Memᴰ, arith, ℕ_eq, List_eq,
  Option_eq, ℕ_order, Text_order,
}
use flutterdec.Adapter.Model.{
  CapabilityLevel, complete, unavailable, is_complete, is_unavailable, Capabilities, PoolIndexSpace,
  hardware, ordinal, undecoded, PoolEntry, Library, Class, Function, ProgramModel,
}
use flutterdec.Adapter.Validate.Claims.{
  is_undecoded, heuristic_name, check_library_claims, check_class_claims, check_function_claims,
  check_pool_claims, check_index_space, check_capabilities,
}
use flutterdec.Adapter.Validate.Explained.{IsExplained, IsExplained-iff}
use flutterdec.Adapter.Validate.Claimed.{
  unavailable_iff, complete_iff, undecoded_iff, IsClaimed, guarded_iff, IsClaimed-iff,
}

-- What a pool's indexes mean: addresses, or only an order.
abbrev pub IsMeant : PoolIndexSpace → Bool → CapabilityLevel → Type 0
IsMeant hardware has_geometry claimed = (has_geometry ≡ true) × (¬ (claimed ≡ unavailable))
IsMeant ordinal has_geometry claimed = (has_geometry ≡ false) × (claimed ≡ unavailable)

index_space_iff :
    (space : PoolIndexSpace) (has_geometry : Bool) (claimed : CapabilityLevel)
    → (check_index_space space has_geometry claimed ≡ ok tt) ↔ IsMeant space has_geometry claimed
unfolding check_index_space
index_space_iff hardware has_geometry claimed = ground (arith, unavailable_iff claimed)
index_space_iff ordinal has_geometry claimed = ground (arith, unavailable_iff claimed)

-- The claims about classes.
pub record ClassClaims (caps : Capabilities) (cs : List Class) : Type 0 where
  pub records : IsClaimed caps.classes (λ c. c.provenance) cs
  pub implied : caps.classes ≡ unavailable → caps.class_relationships ≡ unavailable
  pub supers :
      caps.class_relationships ≡ unavailable
      → (c : Class) → Memᴰ c cs
      → ¬ (is_some c.super_class ≡ true)

-- The claims about functions.
pub record FunctionClaims (caps : Capabilities) (fs : List Function) : Type 0 where
  pub records : IsClaimed caps.functions (λ f. f.provenance) fs
  pub implied : caps.functions ≡ unavailable → caps.function_names ≡ unavailable
  pub unnamed :
      caps.function_names ≡ unavailable → (f : Function) → Memᴰ f fs → ¬ (is_some f.name ≡ true)
  pub named :
      caps.function_names ≡ complete → (f : Function) → Memᴰ f fs → ¬ (is_none f.name ≡ true)
  pub sure :
      caps.function_names ≡ complete → (f : Function) → Memᴰ f fs → ¬ (heuristic_name f.name ≡ true)

-- The claims about the object pool.
pub record PoolClaims (caps : Capabilities) (es : List PoolEntry) : Type 0 where
  pub records : IsClaimed caps.object_pool (λ e. e.provenance) es
  pub decoded : caps.object_pool ≡ complete → (e : PoolEntry) → Memᴰ e es → ¬ (e.kind ≡ undecoded)
  pub implied : caps.object_pool ≡ unavailable → caps.pool_index_space ≡ unavailable

implied_iff :
    (l k : CapabilityLevel)
    → ((is_unavailable l && not (is_unavailable k)) ≡ false) ↔ (l ≡ unavailable → k ≡ unavailable)
implied_iff l k = ground arith

ClassClaims-iff :
    (caps : Capabilities) (cs : List Class)
    → (check_class_claims caps cs ≡ ok tt) ↔ ClassClaims caps cs
unfolding check_class_claims
ClassClaims-iff caps cs =
    let r = IsClaimed-iff caps.classes (λ (c : Class). c.provenance) cs in
    let i = implied_iff caps.classes caps.class_relationships in
    let s =
      guarded_iff (is_unavailable caps.class_relationships) (λ (c : Class). is_some c.super_class)
        cs (unavailable_iff caps.class_relationships) (λ c. (λ h. h, λ h. h)) in
    (
      λ h. record {
        records = r.0 (ground arith, ground arith);
        implied = i.0 (ground arith);
        supers = s.0 (ground arith);
      },
      λ c.
          let (absent, certain) = r.1 c.records in
          let implied = i.1 c.implied in let supers = s.1 c.supers in ground arith,
    )

FunctionClaims-iff :
    (caps : Capabilities) (fs : List Function)
    → (check_function_claims caps fs ≡ ok tt) ↔ FunctionClaims caps fs
unfolding check_function_claims
FunctionClaims-iff caps fs =
    let r = IsClaimed-iff caps.functions (λ (f : Function). f.provenance) fs in
    let i = implied_iff caps.functions caps.function_names in
    let u =
      guarded_iff (is_unavailable caps.function_names) (λ (f : Function). is_some f.name) fs
        (unavailable_iff caps.function_names) (λ f. (λ h. h, λ h. h)) in
    let n =
      guarded_iff (is_complete caps.function_names) (λ (f : Function). is_none f.name) fs
        (complete_iff caps.function_names) (λ f. (λ h. h, λ h. h)) in
    let s =
      guarded_iff (is_complete caps.function_names) (λ (f : Function). heuristic_name f.name) fs
        (complete_iff caps.function_names) (λ f. (λ h. h, λ h. h)) in
    (
      λ h. record {
        records = r.0 (ground arith, ground arith);
        implied = i.0 (ground arith);
        unnamed = u.0 (ground arith);
        named = n.0 (ground arith);
        sure = s.0 (ground arith);
      },
      λ c.
          let (absent, certain) = r.1 c.records in
          let implied = i.1 c.implied in
          let unnamed = u.1 c.unnamed in
          let named = n.1 c.named in let sure = s.1 c.sure in ground arith,
    )

PoolClaims-iff :
    (caps : Capabilities) (es : List PoolEntry)
    → (check_pool_claims caps es ≡ ok tt) ↔ PoolClaims caps es
unfolding check_pool_claims
PoolClaims-iff caps es =
    let r = IsClaimed-iff caps.object_pool (λ (e : PoolEntry). e.provenance) es in
    let i = implied_iff caps.object_pool caps.pool_index_space in
    let d =
      guarded_iff (is_complete caps.object_pool) (λ (e : PoolEntry). is_undecoded e.kind) es
        (complete_iff caps.object_pool) (λ e. undecoded_iff e.kind) in
    (
      λ h. record {
        records = r.0 (ground arith, ground arith);
        decoded = d.0 (ground arith);
        implied = i.0 (ground arith);
      },
      λ c.
          let (absent, certain) = r.1 c.records in
          let decoded = d.1 c.decoded in let implied = i.1 c.implied in ground arith,
    )

library_claims_iff :
    (caps : Capabilities) (ls : List Library)
    → (check_library_claims caps ls ≡ ok tt) ↔ IsClaimed caps.libraries (λ l. l.provenance) ls
unfolding check_library_claims
library_claims_iff caps ls =
    let r = IsClaimed-iff caps.libraries (λ (l : Library). l.provenance) ls in
    (λ h. r.0 (ground arith, ground arith), λ c. let (absent, certain) = r.1 c in ground arith)

-- What `check_capabilities` asks of the claims of a model.
pub record IsHonest {Extensions : Type 0} (m : ProgramModel Extensions) : Type 0 where
  pub libraries : IsClaimed m.capabilities.libraries (λ (l : Library). l.provenance) m.libraries
  pub classes : ClassClaims m.capabilities m.classes
  pub functions : FunctionClaims m.capabilities m.functions
  pub pool : PoolClaims m.capabilities m.object_pool.entries
  pub indexes :
      IsMeant m.object_pool.index_space
        (is_some m.object_pool.geometry)
        m.capabilities.pool_index_space
  pub explained : IsExplained m.capabilities m.diagnostics

-- The capabilities are accepted exactly when all of this holds. An unavailable domain of libraries,
-- classes, functions or pool entries has no records, unavailable class relationships have no
-- superclass edge, and unavailable function names no name. A complete domain of libraries, classes,
-- functions or pool entries has no heuristic record, complete function names leave no function
-- unnamed and have no heuristic name, and a complete pool has no undecoded entry. Unavailable
-- classes, functions and pool make the class relationships, the function names and the pool's index
-- space unavailable. Hardware indexes come with a geometry and an index space that is not
-- unavailable, ordinal ones with neither. And a diagnostic is about each unavailable domain. To
-- claim the class relationships or the pool's index space as complete asks for no more than to claim
-- them as partial.
pub check_capabilities_iff :
    {Extensions : Type 0} (m : ProgramModel Extensions)
    → (check_capabilities m ≡ ok tt) ↔ IsHonest m
unfolding check_capabilities
check_capabilities_iff m =
    let ls = library_claims_iff m.capabilities m.libraries in
    let cs = ClassClaims-iff m.capabilities m.classes in
    let fs = FunctionClaims-iff m.capabilities m.functions in
    let es = PoolClaims-iff m.capabilities m.object_pool.entries in
    let space =
      index_space_iff m.object_pool.index_space (is_some m.object_pool.geometry)
        m.capabilities.pool_index_space in
    let why = IsExplained-iff m.capabilities m.diagnostics in
    (
      λ h. record {
        libraries = ls.0 (ground arith);
        classes = cs.0 (ground arith);
        functions = fs.0 (ground arith);
        pool = es.0 (ground arith);
        indexes = space.0 (ground arith);
        explained = why.0 (ground arith);
      },
      λ i.
          let p1 = ls.1 i.libraries in
          let p2 = cs.1 i.classes in
          let p3 = fs.1 i.functions in
          let p4 = es.1 i.pool in
          let p5 = space.1 i.indexes in let p6 = why.1 i.explained in ground arith,
    )
