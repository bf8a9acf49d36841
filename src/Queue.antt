-- ===== src/Queue.antt =====
-- provider/internal/queue: the queues of keyspace prefixes and of keys to provide.
pub mod Prefix
pub mod Provide
