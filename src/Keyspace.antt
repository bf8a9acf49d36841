-- ===== src/Keyspace.antt =====
-- provider/internal/keyspace: keys, prefixes and binary tries over them.
pub mod Key
pub mod Trie
pub mod Subtract
pub mod Regions
pub mod Coverage
