-- ===== src/Container.antt =====
-- The containers that the components are built on.
pub mod Map
