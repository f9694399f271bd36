-- ===== src/File/Write.antt =====
-- write_file and truncate_file of src/uwufs/file_operations.c.
use uwufs.Base.{
  ℕ, zero, suc, ◌+◌, ◌-◌, ◌/◌, ◌%◌, ◌^◌, min, none, some, ltb, leb, ◌==◌, if◌then◌else◌,
}
use uwufs.Bytes.{Bytes, zeros, blit}
use uwufs.Machine.{Machine, other, Io, pure, raise, stop, handle, gets, ◌>>=◌, ◌>>◌}
use uwufs.Block.{load, write_blk}
use uwufs.Freelist.{malloc_blk, free_blk}
use uwufs.Itable.{read_inode, write_inode}
use uwufs.Blockmap.{DataBlockIterator, dblk_itr, next, get_dblk, append_dblk}
use uwufs.Blockmap.Remove.{remove_dblks}
use uwufs.Layout.{
  block_size, inode_size, file_size, set_file_size, set_file_atime, set_file_mtime, set_file_ctime,
}
use uwufs.Directory.{blks_of_size}

-- The `for` that appends zeroed blocks, with `left` of them to go from the index `i` on. The block
-- number that append_dblk returns is tested as a signed one, so that one of 2 ^ 63 or more is returned
-- as a status.
unfoldable pub append_blks : (left i : ℕ) → Bytes → Io Bytes
append_blks zero i inode = pure inode
append_blks (suc left) i inode = do
  new_blk_num ← malloc_blk
  write_blk zeros new_blk_num
  (status, inode') ← append_dblk inode i new_blk_num
  if leb (2 ^ 63) status then raise (other (2 ^ 64 - status)) else pure tt
  append_blks left (i + 1) inode'

-- The `while` over the blocks behind the first. Every round writes at least one byte.
unfoldable pub write_loop :
    (fuel : ℕ) → DataBlockIterator → Bytes → (size bytes_written : ℕ) → Io (Unit {0})
write_loop zero itr buf size written = if ltb written size then stop else pure tt
write_loop (suc fuel) itr buf size written =
    if ltb written size
    then (do
      (blk_num, itr') ← gets (next itr)
      blk ← load blk_num
      let n = min (size - written) block_size
      write_blk (blit blk 0 buf written n) blk_num
      write_loop fuel itr' buf size (written + n))
    else pure tt

-- time(NULL) as it is stored: the error -1 is a number of 64 bits.
abbrev pub stored_time : Machine → ℕ
stored_time d = elim d.clock [ none ↦ 2 ^ 64 - 1 | some t ↦ t ]

abbrev pub stamped : Bytes → (time : ℕ) → Bytes
stamped inode t = set_file_ctime (set_file_mtime (set_file_atime inode t) t) t

-- Returns the number of bytes written. The status of the write of the first block is ignored.
unfoldable pub write_file : (buf : Bytes) (size offset : ℕ) (inode : Bytes) (inode_num : ℕ) → Io ℕ
unfolding append_blks write_loop
write_file buf size offset inode inode_num = do
  let cur_size = file_size inode
  let cur_blks = blks_of_size cur_size
  let new_size = (offset + size) % 2 ^ 64
  inode' ← append_blks (blks_of_size new_size - cur_blks) cur_blks inode
  (blk_num, itr) ← gets (next (dblk_itr inode' (offset / block_size)))
  blk ← load blk_num
  let offset_bytes = offset % block_size
  let n = min size (block_size - offset_bytes)
  handle (write_blk (blit blk offset_bytes buf 0 n) blk_num) (λ _. pure tt)
  write_loop size itr buf size n
  t ← gets stored_time
  let sized = if ltb cur_size new_size then set_file_size inode' new_size else inode'
  write_inode (stamped sized t) inode_size inode_num
  pure size

-- The `for` of truncate_file, which frees the blocks from the last one down to the first.
unfoldable pub free_blks : (index : ℕ) → Bytes → Io (Unit {0})
free_blks zero inode = pure tt
free_blks (suc index) inode =
    let rest = free_blks index inode in
    do
      blk_num ← gets (get_dblk inode index)
      if blk_num == 0 then pure tt else free_blk blk_num >> rest

-- The addresses take the first 104 bytes of the inode.
unfoldable pub truncate_file : (inode_num : ℕ) → Io (Unit {0})
unfolding free_blks
truncate_file inode_num = do
  inode ← read_inode inode_num
  let size = file_size inode
  let blks = if size % block_size == 0 then size / block_size else size / block_size + 1
  free_blks blks inode
  remove_dblks inode 0 blks
  write_inode (set_file_size (blit inode 0 zeros 0 104) 0) inode_size inode_num
