-- ===== src/Saved.antt =====
-- What the user keeps: connections, requests and lists.
pub mod Connections
pub mod Requests
pub mod Lists
