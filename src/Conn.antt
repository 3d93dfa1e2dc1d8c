-- ===== src/Conn.antt =====
-- dev.c: the connection.
pub mod State
pub mod Opcode
pub mod Ids
pub mod Requests
pub mod Account
pub mod Lifecycle
pub mod ZeroPage
pub mod Iter
pub mod Read
pub mod Source
pub mod Notify
pub mod Write
