-- ===== src/Data.antt =====
-- afl/data: values, and the conversions of `Access`.
pub mod Value
pub mod Access
