-- ===== src/Conn/Ids.antt =====
-- dev.c: the allocator of request ids. A stack of free ids belongs to the connection, and each CPU
-- keeps a smaller one that is refilled from it and spilled into it, half of its size at a time.
pub mod Alloc
pub mod Count
pub mod Invariant
pub mod Laws
