-- ===== src/Data/Calls.antt =====
-- The setters of src/lib/wifi-ap-data.c as one alphabet of calls, and what holds of every one.
pub mod Buffers
pub mod Invariant
pub mod Rejection
pub mod Usable
pub mod Defs
unfoldable pub use Defs.*
