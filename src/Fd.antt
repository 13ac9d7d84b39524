-- ===== src/Fd.antt =====
-- lib/fd.c: the file descriptors of a user program.
pub mod Table
pub mod Shared
pub mod Tests
