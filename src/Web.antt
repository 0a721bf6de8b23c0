-- ===== src/Web.antt =====
-- src/nixadmin/web: the local web view, its gate, its requests and its query sessions.
pub mod Security
pub mod Requests
pub mod Session
pub mod Server
pub mod Handlers
