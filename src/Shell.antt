-- ===== src/Shell.antt =====
-- The shell and its helpers: the tokens of user/sh.c (Token, and Split for its theorems), the
-- options of lib/args.c (Args, and Options for its theorems), and the kernel monitor's command line
-- of kern/monitor.c (Monitor).
pub mod Token
pub mod Split
pub mod Tokens
pub mod Args
pub mod Options
pub mod Monitor
pub mod Words
pub mod Parsed
pub mod Tests
