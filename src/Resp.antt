-- ===== src/Resp.antt =====
-- afl/io/resp: the protocol that clients and servers of the database speak.
pub mod Writer
pub mod Parser
pub mod RoundTrip
