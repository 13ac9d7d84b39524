-- ===== src/Smp.antt =====
-- The multiprocessor tables of kern/mpconfig.c (Config, and Cpus for its theorem).
pub mod Config
pub mod Cpus
pub mod Tests
