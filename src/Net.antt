-- ===== src/Net.antt =====
-- afl/net: command handlers, the Redis client objects, and RESP over a connection.
pub mod Handler
pub mod Redis
pub mod Resp
pub mod HeaderField
pub mod HeaderTable
pub mod HeaderParser
pub mod Line
