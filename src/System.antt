-- ===== src/System.antt =====
-- The tree service and an application that follows it, joined by the stream of messages between
-- them.
pub mod Tracker
pub mod Subtree
pub mod Service
pub mod Steps
pub mod Mirror
pub mod Requests
pub mod Deletions
pub mod Deliveries
pub mod Reached
pub mod Within
pub mod Delivered
pub mod Smooth
pub mod Seeded
pub mod Started
pub mod Deployed
