-- ===== src/Storage.antt =====
-- The storage layer (storage/).
pub mod Options
pub mod Paging
pub mod DirMap
pub mod SortSlice
pub mod Memory
pub mod Interface
pub mod Notifier
pub mod Crdb
