-- ===== src/Console.antt =====
-- The console of kern/console.c: its input buffer (Input, and Queue for its theorems), the keyboard
-- (Keys, and Typing for its theorems), the text screen (Screen, and Scroll for its theorems), and
-- the line editor of lib/readline.c (Readline, and Edit for its theorems).
pub mod Input
pub mod Queue
pub mod Keys
pub mod Typing
pub mod Screen
pub mod Scroll
pub mod Kprintf
pub mod Readline
pub mod Edit
pub mod Tests
