-- ===== src/Layout/Super.antt =====
-- struct uwufs_super_blk of src/uwufs/uwufs.h, which is block 0 of the device.
use uwufs.Base.{ℕ}
use uwufs.Bytes.{Bytes, get, put}

abbrev pub total_blks : Bytes → ℕ
total_blks sb = get 8 sb 0

abbrev pub set_total_blks : Bytes → ℕ → Bytes
set_total_blks sb v = put 8 sb 0 v

abbrev pub ilist_start : Bytes → ℕ
ilist_start sb = get 8 sb 8

abbrev pub set_ilist_start : Bytes → ℕ → Bytes
set_ilist_start sb v = put 8 sb 8 v

abbrev pub ilist_total_size : Bytes → ℕ
ilist_total_size sb = get 8 sb 16

abbrev pub set_ilist_total_size : Bytes → ℕ → Bytes
set_ilist_total_size sb v = put 8 sb 16 v

abbrev pub freelist_start : Bytes → ℕ
freelist_start sb = get 8 sb 24

abbrev pub set_freelist_start : Bytes → ℕ → Bytes
set_freelist_start sb v = put 8 sb 24 v

abbrev pub freelist_total_size : Bytes → ℕ
freelist_total_size sb = get 8 sb 32

abbrev pub set_freelist_total_size : Bytes → ℕ → Bytes
set_freelist_total_size sb v = put 8 sb 32 v

abbrev pub freelist_head : Bytes → ℕ
freelist_head sb = get 8 sb 40

abbrev pub set_freelist_head : Bytes → ℕ → Bytes
set_freelist_head sb v = put 8 sb 40 v

abbrev pub free_inodes_left : Bytes → ℕ
free_inodes_left sb = get 8 sb 48

abbrev pub set_free_inodes_left : Bytes → ℕ → Bytes
set_free_inodes_left sb v = put 8 sb 48 v

abbrev pub free_blks_left : Bytes → ℕ
free_blks_left sb = get 8 sb 56

abbrev pub set_free_blks_left : Bytes → ℕ → Bytes
set_free_blks_left sb v = put 8 sb 56 v
