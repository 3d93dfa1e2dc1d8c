-- ===== src/Device.antt =====
-- pxd.c: the devices of a context. A pointer to a device is a number, and `devs` is the memory
-- behind it. Each function is one step under its locks.
pub mod State
pub mod Congestion
pub mod Ops
pub mod Remove
pub mod Requests
pub mod Queue
pub mod Laws
pub mod Kept
pub mod Leave
pub mod Finish
pub mod Removed
