-- ===== src/Fastpath.antt =====
-- pxd_fastpath.c and the parts of pxd_bio_blkmq.c and pxd.c that it calls: a device that serves its
-- requests from backing files instead of the user-space process.
pub mod Files
pub mod Paths
pub mod Suspend
pub mod Switch
pub mod Ops
pub mod Clones
pub mod Workers
