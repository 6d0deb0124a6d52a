-- ===== src/Json.antt =====
-- afl/io/json: JSON texts.
pub mod Writer
pub mod Parser
pub mod Scanned
pub mod Loops
pub mod Texts
pub mod Pieces
pub mod RoundTrip
pub mod Ends
