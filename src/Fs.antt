-- ===== src/Fs.antt =====
-- kernel/src/fs: the file system in memory and the paths over it.
pub mod Ramfs
pub mod Vfs
