-- ===== src/Syscall.antt =====
-- kern/syscall.c: the system calls on environments, mappings and messages.
pub mod Calls
pub mod Ipc
pub mod Fork
pub mod Tests
pub mod Destroy
pub mod Duppage
pub mod Dispatch
pub mod Pgfault
pub mod Copied
pub mod Visits
