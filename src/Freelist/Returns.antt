-- ===== src/Freelist/Returns.antt =====
-- The operations on blocks and inodes return on any device.
use uwufs.Base.{ℕ}
use uwufs.Bytes.{Bytes}
use uwufs.Block.Returns.{Returns, returning}
use uwufs.Freelist.{unlink_head, malloc_blk, free_blk}
use uwufs.Itable.{read_inode, write_inode}

unlink_head-Returns : (sb : Bytes) → Returns (unlink_head sb)
unfolding unlink_head
unlink_head-Returns sb = search returning depth 12

pub malloc_blk-Returns : Returns malloc_blk
unfolding malloc_blk
malloc_blk-Returns = search (returning, unlink_head-Returns) depth 12

pub free_blk-Returns : (n : ℕ) → Returns (free_blk n)
unfolding free_blk
free_blk-Returns n = search returning depth 12

pub read_inode-Returns : (n : ℕ) → Returns (read_inode n)
unfolding read_inode
read_inode-Returns n = search returning depth 12

pub write_inode-Returns : (buf : Bytes) (size n : ℕ) → Returns (write_inode buf size n)
unfolding write_inode
write_inode-Returns buf size n = search returning depth 12
