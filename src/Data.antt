-- ===== src/Data.antt =====
-- The access point's data, src/lib/wifi-ap-data.h: the structure `wifiApT`, its bounds and the error
-- codes of the functions that set its fields.
mod Setters
mod Radio
pub mod Calls
pub mod Types
pub mod Addresses
pub mod PreSharedKey
pub mod Standards
pub mod Stored
pub mod Spec
unfoldable pub use Setters.*
unfoldable pub use Radio.*
unfoldable pub use Types.*
