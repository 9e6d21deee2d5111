-- ===== src/Storage/Crdb.antt =====
-- The CockroachDB driver (storage/crdb/driver/driver.go, storage/crdb/driver/options.go), over the
-- table `directories` (storage/crdb/migrations/20230101000000_init.sql). What the database reads
-- from outside is an argument: the new UUID, the time of a statement, and `scan`, the order in
-- which a statement goes through the table, which SQL leaves open.
pub mod Table
pub mod Recursive
pub mod Driver
pub mod Entries
pub mod Rounds
pub mod Reads
pub mod Children
pub mod Chunk
pub mod Statements
pub mod Deletion
pub mod Parents
pub mod Ancestors
pub mod Agreement
pub mod Roots
pub mod Served
