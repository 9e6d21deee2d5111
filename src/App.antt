-- ===== src/App.antt =====
-- The framework for applications that follow the directory tree (app/v1/).
pub mod Interfaces
pub mod SqlStorage
pub mod Controller
pub mod Tracking
pub mod Events
pub mod Callback
pub mod Seeding
pub mod Once
pub mod Retried
pub mod Runs
