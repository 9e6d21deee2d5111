-- ===== src/Storage/Memory.antt =====
-- The in-memory driver (storage/memory/memory.go). What a call reads from outside is an argument:
-- the new UUID and the times. `visit` is the order in which a `Range` goes through the map, which
-- sync.Map leaves open. Loops that follow parents, or that extend the slice they go through, take
-- fuel: one round for each entry of the map and one more.
pub mod Write
pub mod Read
pub mod Descendants
pub mod Ancestors
pub mod Delete
pub mod Tree
pub mod Writes
pub mod Climb
pub mod Parents
pub mod Until
pub mod Listing
pub mod Order
pub mod Walk
pub mod Children
pub mod Deletion
pub mod Deleted
pub mod Kept
