-- ===== src/Net/Line.antt =====
-- afl/net/line: protocols of text lines.
pub mod ProtocolHandler
