-- ===== src/Layout.antt =====
-- The structs and constants of src/uwufs/uwufs.h. The structs are packed, so a field's offset is the
-- sum of the sizes before it. `x.f = v` is `set_f x v`.
pub mod Super
pub mod Laws
use uwufs.Base.{ℕ, ◌+◌, ◌*◌, ◌^◌, bit_and}
use uwufs.Bytes.{Bytes, get, put, blit}

-- UWUFS_BLOCK_SIZE, and how many of each struct a block holds
abbrev pub block_size : ℕ
block_size = 4096

abbrev pub entries_per_blk : ℕ
entries_per_blk = 512

abbrev pub inodes_per_blk : ℕ
inodes_per_blk = 16

abbrev pub file_entries_per_blk : ℕ
file_entries_per_blk = 16

abbrev pub inode_size : ℕ
inode_size = 256

abbrev pub file_name_size : ℕ
file_name_size = 248

abbrev pub root_dir_inode : ℕ
root_dir_inode = 2

abbrev pub reserved_space : ℕ
reserved_space = 1

abbrev pub direct_blocks : ℕ
direct_blocks = 10

-- F_TYPE_BITS and the file types
abbrev pub f_type_bits : ℕ
f_type_bits = 0b1111000000000000

abbrev pub f_type_free : ℕ
f_type_free = 0

abbrev pub f_type_regular : ℕ
f_type_regular = 4096

abbrev pub f_type_directory : ℕ
f_type_directory = 8192

abbrev pub f_perm_bits : ℕ
f_perm_bits = 0b0000111111111111

-- struct uwufs_inode
abbrev pub direct_blk : Bytes → ℕ → ℕ
direct_blk ino i = get 8 ino (8 * i)

abbrev pub set_direct_blk : Bytes → ℕ → ℕ → Bytes
set_direct_blk ino i v = put 8 ino (8 * i) v

abbrev pub single_indirect_blks : Bytes → ℕ
single_indirect_blks ino = get 8 ino 80

abbrev pub set_single_indirect_blks : Bytes → ℕ → Bytes
set_single_indirect_blks ino v = put 8 ino 80 v

abbrev pub double_indirect_blks : Bytes → ℕ
double_indirect_blks ino = get 8 ino 88

abbrev pub set_double_indirect_blks : Bytes → ℕ → Bytes
set_double_indirect_blks ino v = put 8 ino 88 v

abbrev pub triple_indirect_blks : Bytes → ℕ
triple_indirect_blks ino = get 8 ino 96

abbrev pub set_triple_indirect_blks : Bytes → ℕ → Bytes
set_triple_indirect_blks ino v = put 8 ino 96 v

abbrev pub file_mode : Bytes → ℕ
file_mode ino = get 2 ino 104

abbrev pub set_file_mode : Bytes → ℕ → Bytes
set_file_mode ino v = put 2 ino 104 v

abbrev pub file_size : Bytes → ℕ
file_size ino = get 8 ino 106

abbrev pub set_file_size : Bytes → ℕ → Bytes
set_file_size ino v = put 8 ino 106 v

abbrev pub file_links_count : Bytes → ℕ
file_links_count ino = get 2 ino 114

abbrev pub set_file_links_count : Bytes → ℕ → Bytes
set_file_links_count ino v = put 2 ino 114 v

abbrev pub file_uid : Bytes → ℕ
file_uid ino = get 4 ino 116

abbrev pub set_file_uid : Bytes → ℕ → Bytes
set_file_uid ino v = put 4 ino 116 v

abbrev pub file_gid : Bytes → ℕ
file_gid ino = get 4 ino 120

abbrev pub set_file_gid : Bytes → ℕ → Bytes
set_file_gid ino v = put 4 ino 120 v

abbrev pub file_atime : Bytes → ℕ
file_atime ino = get 8 ino 124

abbrev pub set_file_atime : Bytes → ℕ → Bytes
set_file_atime ino v = put 8 ino 124 v

abbrev pub file_mtime : Bytes → ℕ
file_mtime ino = get 8 ino 132

abbrev pub set_file_mtime : Bytes → ℕ → Bytes
set_file_mtime ino v = put 8 ino 132 v

abbrev pub file_ctime : Bytes → ℕ
file_ctime ino = get 8 ino 140

abbrev pub set_file_ctime : Bytes → ℕ → Bytes
set_file_ctime ino v = put 8 ino 140 v

-- file_mode & F_TYPE_BITS
abbrev pub file_type : Bytes → ℕ
file_type ino = bit_and (file_mode ino) f_type_bits

-- struct uwufs_inode_blk: copies out of and into `inodes[i]`
abbrev pub inode_at : Bytes → Bytes → ℕ → Bytes
inode_at buf blk i = blit buf 0 blk (256 * i) 256

abbrev pub set_inode_at : Bytes → ℕ → Bytes → ℕ → Bytes
set_inode_at blk i ino n = blit blk (256 * i) ino 0 n

-- struct uwufs_indirect_blk
abbrev pub entry : Bytes → ℕ → ℕ
entry blk i = get 8 blk (8 * i)

abbrev pub set_entry : Bytes → ℕ → ℕ → Bytes
set_entry blk i v = put 8 blk (8 * i) v

-- struct uwufs_directory_data_blk: the file entry `i` has its name at 256 * i, and behind the 248
-- bytes of the name its inode number
abbrev pub entry_inode_num : Bytes → ℕ → ℕ
entry_inode_num blk i = get 8 blk (256 * i + 248)

abbrev pub set_entry_inode_num : Bytes → ℕ → ℕ → Bytes
set_entry_inode_num blk i v = put 8 blk (256 * i + 248) v

-- struct uwufs_free_data_blk
abbrev pub next_free_blk : Bytes → ℕ
next_free_blk blk = get 8 blk 0

abbrev pub set_next_free_blk : Bytes → ℕ → Bytes
set_next_free_blk blk v = put 8 blk 0 v
