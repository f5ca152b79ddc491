-- ===== src/Handler.antt =====
-- internal/http: who may do what, and the requests that read or delete channels.
pub mod Authz
pub mod Listing
pub mod Deletes
pub mod Queries
