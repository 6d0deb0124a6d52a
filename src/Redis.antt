-- ===== src/Redis.antt =====
-- afl/net/redis/internaldatabase.cpp: the database, its commands and what holds of them.
pub mod Store
pub mod Strings
pub mod Hashes
pub mod Lists
pub mod Sets
pub mod Keys
pub mod Sort
pub mod Database
pub mod Laws
pub mod Reads
pub mod Spec
