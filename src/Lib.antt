-- ===== src/Lib.antt =====
-- UWUFS, a file system over a block device: the functional core of the C and C++ code under
-- src/uwufs.
--
-- How the parts interact. A disk is an array of blocks of 4096 bytes: the superblock, the blocks
-- of the inode table with 16 inodes each, then the data blocks. mkfs.uwu (mkfs_uwu.c) writes all
-- of it once. low_level_operations.c reads and writes whole blocks, allocates and frees data
-- blocks over a list of free blocks whose links stand in the free blocks themselves, and reads,
-- writes and finds inodes. INode.cpp and DataBlockIterator.cpp map the index of a block in a file
-- to a block number. file_operations.c builds paths, directories, the reading and writing of
-- files, links and their removal on these, and syscalls.c gives that to FUSE.
--
-- Which file models what:
--   Bytes         memory as bytes, with little-endian fields
--   Layout        the structs and the constants of src/uwufs/uwufs.h
--   Machine       the device, the clock, errno.h and the statuses of the C functions
--   Block         read_blk, write_blk of src/uwufs/low_level_operations.c
--   Freelist      malloc_blk, free_blk of the same file
--   Itable        read_inode, write_inode, find_free_inode of the same file
--   Blockmap      src/uwufs/cpp/INode.cpp and DataBlockIterator.cpp: create_dblk_itr, next,
--                 get_dblk, append_dblk; Blockmap.Remove has remove_dblk and remove_dblks
--   Directory     put_directory_file_entry, is_directory_empty, count_directory_file_entries;
--                 Directory.Lookup, .Add and .Remove have next_inode_in_path (which is in
--                 low_level_operations.c), add_directory_file_entry and
--                 __remove_entry_from_dir_data_blk
--   Paths         split_path_parent_child of src/uwufs/file_operations.c, and namei of
--                 low_level_operations.c in Paths.Namei
--   File          read_file, write_file and the removal of a file's blocks
--   Links         link_file, unlink_file and their helpers
--   Syscalls      src/uwufs/syscalls.c: what libfuse calls, by the names of the C functions
--   Mkfs          init_superblock, init_inodes, init_freelist and main's order of them in
--                 src/uwufs/mkfs_uwu.c
--   Mounting      main of src/uwufs/mount_uwufs.c
--   Mail          src/phase1/spam-mail.c, a separate file system in memory; what is written to its
--                 files is mailed
--   Examples      concrete disks and names on which the theorems are applied
-- A module below one of these with another name holds proofs. Block.Returns is about actions that
-- return on every device. Freelist.Chain says what the free list is and Freelist.History what the
-- clients of it can do in any order. Blockmap.Forest and Blockmap.Parts say which indirect blocks a
-- file owns, and File.Map which data blocks: its modules follow a call of write_file step by step,
-- from the new blocks (Step, Append) over the copies (Store, Loop, Body) to the inode (Inode, Table),
-- and one of truncate_file (Cut, Truncated). File.System is about all files of a device at once: what
-- one operation on one file leaves to the others (Update, Calls), the calls as the handlers make them
-- (Requests, Reads) and any sequence of them (History). Directory.Contents and Paths.Leads say where
-- a path leads by what is in the directories of such a device, and Syscalls.Files.Stored and
-- Syscalls.Files.History are about the handlers on it. Freelist.Gain is about actions that free blocks.
--
-- How the code is modelled. A struct is the bytes that it takes, a function from offsets to bytes,
-- and its fields are read and written at the offsets that the packed layout gives them, so that a
-- union, a cast or a copy of a part means what it means in C. A block that is read into a local
-- variable is first the content of the stack, a field of the machine about which nothing is
-- assumed, though all such variables share it: a failed read whose status is ignored leaves that.
-- What is behind a local block is another field, by which an access ends the process or yields some
-- bytes: read_file makes such accesses. Numbers are natural numbers, and a
-- field, a sum or a product that wraps around in C is written out with its modulus where the wrap
-- can occur. A function that returns a status is an action on the machine that returns `ok`,
-- `fail` with the errno, or `crash` for the end of the process, and the machine as it is then:
-- what was written before an error stays written. A block has two flags, whether it can be read
-- and whether it can be written, so that every error path can be taken.
--
-- Loops. Those over entries, slots and blocks count down what is left, so they end by structure.
-- The tree of indirect blocks is at most three levels deep, and the functions on it recur on the
-- level. namei recurs on the segments of a path; its fuel counts nested symbolic links, for which
-- the C function has no bound but its stack, and one unit is enough for a path without them. The
-- loops of read_file and write_file take the size as their fuel, as each step moves at least one
-- byte.
--
-- What is not modelled: uwufs_init and uwufs_mknod of src/uwufs/syscalls.c, which do nothing; failed
-- allocations; the programs in src/test; and libfuse, the kernel and the C library, of which only what
-- the code relies on is written down, in Machine and Block. The filler that libfuse hands to
-- uwufs_readdir is a parameter, and the main functions take what their system calls return. The arrays
-- in which namei copies a path and a link are one place too short for the NUL, and that the write and
-- the read behind them do no harm is assumed.
pub mod Base
pub mod Bytes
pub mod Machine
pub mod Block
pub mod Layout
pub mod Freelist
pub mod Itable
pub mod Blockmap
pub mod Directory
pub mod Paths
pub mod File
pub mod Links
pub mod Syscalls
pub mod Mkfs
pub mod Mounting
pub mod Mail
pub mod Examples
