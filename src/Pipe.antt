-- ===== src/Pipe.antt =====
-- lib/pipe.c: the ring buffer between a reader and a writer, and the pages that its ends share.
pub mod Ring
pub mod Window
pub mod Order
pub mod Shares
pub mod Closed
pub mod Tests
