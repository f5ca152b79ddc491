-- ===== src/ProcessMgr.antt =====
-- internal/infrastructure/processmgr: the supervisor of the remux processes.
pub mod LogBuffer
pub mod LogManager
pub mod EventHeap
pub mod Heap
pub mod Scheduler
pub mod Tables
pub mod Manager
pub mod Manager2
pub mod SlotPool
pub mod Limits
pub mod PidAllocator
