-- ===== src/Dto.antt =====
-- internal/http/dto: the request bodies for channels, and what they make of a channel.
pub mod Fields
pub mod Modify
pub mod Create
pub mod Replace
pub mod Client
pub mod Outputs
pub mod Full
pub mod Patch
