-- ===== src/Http.antt =====
-- The HTTP server of the directory tree (internal/httpsrv/treemanager/treemanager.go). What gin
-- and the JSON decoder read of a request is in the record `Request`; the UUID parser is a
-- parameter.
pub mod Strconv
pub mod Query
pub mod Link
pub mod Handlers
pub mod Kept
pub mod Keeps
pub mod Server
pub mod Invariant
pub mod Responses
pub mod Pages
pub mod Engine
