-- ===== src/Adapter/Protocol.antt =====
-- crates/flutterdec-adapter/src/protocol.rs: one request in, one result out. The documents are in
-- the children, whose names are passed on here.
mod Documents
mod Validation
mod Wire
pub mod Requests
pub mod Results
pub mod Aliasing
pub mod Parsing
pub use Documents.*
unfoldable pub use Validation.*
unfoldable pub use Wire.*
