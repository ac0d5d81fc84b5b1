-- ===== src/Ipc.antt =====
-- The exercises of IPC/: a parent forks a child, and both take their steps in any order.
pub mod Calls
pub mod Steps
pub mod Semaphore
pub mod MessageQueue
pub mod Pipe
