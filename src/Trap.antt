-- ===== src/Trap.antt =====
-- kern/trap.c: what an interrupt or an exception does.
pub mod Push
pub mod Handler
pub mod Timer
pub mod Bytes
pub mod Fault
pub mod Upcall
pub mod Tests
