-- ===== src/Control.antt =====
-- APP/app_control_can.{h,c}: the control protocol, one request frame and one response frame.
pub mod Defs
pub mod Queue
pub mod Cache
pub mod Backend
pub mod Commands
pub mod Status
pub mod Frames
pub mod Fifo
pub mod Waiting
pub mod Delivery
pub mod Replay
pub mod Echo
pub mod Dispatch
