-- ===== src/Lock.antt =====
-- kern/spinlock.c: the lock that the CPUs take before they work in the kernel.
pub mod Spin
pub mod Mutual
pub mod Tests
