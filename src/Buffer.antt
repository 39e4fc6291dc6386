-- ===== src/Buffer.antt =====
-- src/runtime/buffer.rs: the SQLite buffer between the providers and the shipper. `Sql` has the
-- tables, the connection and transactions, `Evict` the eviction, `Operations` the statements of each
-- command, and `Serve` the owner thread's loop. The proofs are below these.
pub mod Sql
pub mod Evict
pub mod Operations
pub mod Serve
pub mod Tests
