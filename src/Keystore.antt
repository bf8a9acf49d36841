-- ===== src/Keystore.antt =====
-- provider/keystore/keystore.go: the multihashes to be provided, by their place in the keyspace.
pub mod Keys
pub mod RoundTrip
pub mod Operations
pub mod Contents
pub mod Holds
pub mod Fresh
pub mod Puts
pub mod Present
pub mod Deletes
pub mod Worker
pub mod Gets
