-- ===== src/ValueStore.antt =====
-- MID/j1939_value_store.{h,c}: double-banked values with transactions. The bank that is not active
-- is the staging bank; a commit validates it whole and then switches the banks.
mod Defs
mod Ops
mod Active
pub mod Banks
pub mod Isolation
pub mod Commit
pub mod Publish
pub mod Invariant
pub mod Transaction
pub mod Shape
pub mod ReadBack
unfoldable pub use Defs.*
unfoldable pub use Ops.*
unfoldable pub use Active.*
