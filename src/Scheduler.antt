-- ===== src/Scheduler.antt =====
-- MID/j1939_tx_scheduler.{h,c}: every scheduled PGN is sent at its period: short ones through a
-- queue in deadline order, long ones through the transport. The debug variables and the log on the
-- console, which nothing else reads, are not modelled.
mod Defs
mod Queue
mod Pack
mod Tick
mod Setup
pub mod Slots
pub mod Order
pub mod Drain
pub mod Shares
pub mod Phases
pub mod Payload
pub mod Lengths
pub mod Invariant
pub mod Soundness
pub mod Runs
unfoldable pub use Defs.*
unfoldable pub use Queue.*
unfoldable pub use Pack.*
unfoldable pub use Tick.*
unfoldable pub use Setup.*
