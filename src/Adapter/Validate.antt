-- ===== src/Adapter/Validate.antt =====
-- crates/flutterdec-adapter/src/validate.rs: the checks of a model against what the host selected,
-- in the children below; `validate` runs them in the source's order.
pub mod Acyclic
pub mod References
pub mod CodeSafety
pub mod PoolLayout
pub mod Confidences
mod Claimed
mod Explained
pub mod Honesty
pub mod Accepted
pub mod Guarantees
pub mod Naming
pub mod HostAgreement
pub mod RegionTable
pub mod Identifiers
mod Errors
mod Regions
mod HostFacts
mod Names
mod Records
mod Hierarchy
mod Claims
mod Addresses
pub use Errors.*
unfoldable pub use Regions.*
unfoldable pub use HostFacts.*
unfoldable pub use Names.*
unfoldable pub use Records.*
unfoldable pub use Hierarchy.*
unfoldable pub use Claims.*
unfoldable pub use Addresses.*
use flutterdec.Common.{
  Check, ◌>>=◌, ◌>>◌, fail_if, nat_eq, ◌*◌, not, ℕ_eq, List_eq, Option_eq, ℕ_order, Text_order, Eq,
}
use flutterdec.Adapter.Model.{ProgramModel, model_major}

module _ {Extensions : Type 0} where
  unfoldable pub validate : ProgramModel Extensions → HostSelectedContext → Check ValidationError
  validate m host = do
    fail_if (not (nat_eq m.model_version model_major)) (unsupported_model_version m.model_version)
    check_regions m.input.regions
    check_host_facts m host
    check_strings m
    check_confidence m
    check_identity_and_order m
    check_references m
    check_capabilities m
    check_geometry m.object_pool
    check_addresses m
