-- ===== src/Libc.antt =====
-- lib/string.c and lib/printfmt.c: blocks of bytes, strings, formatted printing.
pub mod Bytes
pub mod Move
pub mod Fill
pub mod Strings
pub mod Tests
pub mod Number
pub mod RoundTrip
pub mod Messages
pub mod Format
pub mod Printed
pub mod Printbuf
pub mod Flushed
pub mod Fprintf
pub mod Outputs
pub mod Text
pub mod Cstrings
pub mod Joined
