-- ===== src/Tests.antt =====
-- Concrete runs of the theorems.
pub mod Words
pub mod Queues
pub mod Syscalls
pub mod Controls
pub mod Pages
pub mod Semaphores
pub mod Locks
pub mod Machines
pub mod Ipc
pub mod Mappings
pub mod PageTables
