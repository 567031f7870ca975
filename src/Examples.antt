-- ===== src/Examples.antt =====
-- The theorems at concrete inputs, and runs of the functions they are about.
mod Store
mod Wire
mod Bus
mod Tables
mod Ticking
mod Saved
mod Commands
mod Booting
