-- ===== src/Storage.antt =====
-- MID/j1939_profile_storage.{h,c}: the saved profile in two flash slots.
pub mod Again
pub mod Bytes
pub mod Defs
pub mod Parse
pub mod Ops
pub mod Build
pub mod Write
pub mod Save
pub mod Reads
pub mod Walk
pub mod SameWalk
pub mod Accepted
pub mod Load
pub mod Local
pub mod Latest
pub mod Isolated
pub mod Fields
pub mod Written
pub mod Drafted
pub mod Built
pub mod Restarted
pub mod Update
pub mod PowerFail
pub mod Flag
