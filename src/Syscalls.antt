-- ===== src/Syscalls.antt =====
-- src/uwufs/syscalls.c: the operations that libfuse calls, on a path. Constants of the headers of Linux
-- that they test have the values of x86_64. The fuel is namei's.
pub mod Attributes
pub mod Files
pub mod Directories
pub mod Readdir
