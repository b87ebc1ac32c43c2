-- ===== src/Fs.antt =====
-- fs/easyfs.c, fs/easyfs.h, fs/fs_types.h and fs/fs_config.h: the in-memory file system.
--
-- `Disk` has the state, the blocks and the bitmap, `Dir` the root directory and the files; the other
-- modules are about them.
pub mod Disk
pub mod Dir
pub mod Bitmap
pub mod Alloc
pub mod Entries
pub mod Blocks
pub mod Valid
pub mod Keep
pub mod Files
pub mod Names
pub mod Distinct
pub mod Isolation
pub mod DiskEnd
pub mod Messages
pub mod Writes
pub mod Tests
