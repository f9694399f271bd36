-- ===== src/File.antt =====
-- File contents of src/uwufs/file_operations.c: read_file, write_file, truncate_file, and remove_file.
pub mod Read
pub mod Write
pub mod Remove
pub mod Returns
pub mod Map
pub mod System
