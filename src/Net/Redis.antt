-- ===== src/Net/Redis.antt =====
-- afl/net/redis: the objects that stand for keys of a Redis database, and send commands for them.
pub mod Key
pub mod StringKey
pub mod IntegerKey
pub mod HashKey
pub mod Field
pub mod ListKey
pub mod StringListKey
pub mod IntegerListKey
pub mod SetKey
pub mod StringSetKey
pub mod IntegerSetKey
pub mod SetOperation
pub mod SortOperation
pub mod Subtree
pub mod Spec
