-- ===== src/Adapter/Model.antt =====
-- crates/flutterdec-adapter/src/model.rs: the program model, in the children below; their names are
-- passed on here.
mod Facts
mod Input
mod Pool
mod Program
pub mod Geometry
pub mod Reading
pub use Facts.*
pub use Input.*
pub use Pool.*
pub use Program.*
unfoldable pub use Input.{region_end_va, contains_range, contains_address}
unfoldable pub use Pool.{index_for_displacement, displacement_for_index}
unfoldable pub use Program.{class_library_uri, owner_name, owner_library_uri}
