-- ===== src/Channel.antt =====
-- internal/domain/channel: the channel, its checks, its stored form and its views.
-- A nullable pointer is an option: a copy through a new pointer is the same option, so what these
-- theorems say of a copy is which values it holds, and not that it shares no memory.
pub mod Types
pub mod Dependencies
pub mod Outputs
pub mod Clone
pub mod Views
