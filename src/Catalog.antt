-- ===== src/Catalog.antt =====
-- MID/j1939_signal_definitions.{h,c}: the generated signal catalog and its lookups. The scales,
-- which are floats, are not modelled.
mod Records
mod Signals
mod Pgns
mod Keys
mod Lookup
pub mod WellFormed
pub mod Search
pub mod Ranges
pub use Records.*
unfoldable pub use Signals.*
unfoldable pub use Pgns.*
unfoldable pub use Keys.*
unfoldable pub use Lookup.*
