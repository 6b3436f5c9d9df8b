-- ===== src/Shell.antt =====
-- kernel/src/shell: the reading of a line, and the commands on files.
pub mod Line
pub mod Files
