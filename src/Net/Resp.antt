-- ===== src/Net/Resp.antt =====
-- afl/net/resp: the server's and the client's side of a RESP connection.
pub mod ProtocolHandler
pub mod Client
