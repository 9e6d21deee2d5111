-- ===== src/Client.antt =====
-- The HTTP client (client/v1/), and the client with the server behind its connection.
pub mod Calls
pub mod Server
pub mod Served
pub mod Missing
pub mod ReadOnly
pub mod Config
