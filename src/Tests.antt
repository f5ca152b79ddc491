-- ===== src/Tests.antt =====
-- The theorems at concrete inputs.
mod Pieces
mod Channels
mod Services
mod Managers
mod Bodies
mod Stores
mod Requests
mod Accounts
mod Heaps
mod Pools
