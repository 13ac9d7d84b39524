-- ===== src/Fs.antt =====
-- fs/fs.c and fs/serv.c: the bitmap of free blocks, files, directories, the table of open files.
pub mod Disk
pub mod Bits
pub mod Bitmap
pub mod Tests
pub mod Content
pub mod Spread
pub mod Loops
pub mod Stored
pub mod Dir
pub mod Files
pub mod Direct
pub mod Search
pub mod Created
pub mod Volume
pub mod Server
pub mod Served
pub mod Opened
pub mod Clients
pub mod Walked
pub mod Requests
pub mod Asserted
pub mod Cache
pub mod Cached
pub mod Ram
