-- ===== src/Links/Unlink.antt =====
-- unlink_file of src/uwufs/file_operations.c.
use uwufs.Base.{
  ℕ, zero, suc, ◌+◌, ◌-◌, ◌%◌, ◌^◌, Option, none, some, List, ltb, ◌==◌, if◌then◌else◌,
}
use uwufs.Bytes.{Bytes}
use uwufs.Machine.{
  Res, ok, fail, crash, enoent, eio, Io, pure, raise, stop, lift, handle, gets, unix_time, ◌>>=◌,
  ◌>>◌,
}
use uwufs.Block.{load, write_blk}
use uwufs.Freelist.{free_blk}
use uwufs.Itable.{read_inode, write_inode}
use uwufs.Blockmap.{DataBlockIterator, dblk_itr, next, get_dblk}
use uwufs.Blockmap.Remove.{remove_dblk}
use uwufs.Layout.{
  block_size, inode_size, file_entries_per_blk, file_size, set_file_size, file_links_count,
  set_file_links_count, set_file_atime, set_file_mtime, set_file_ctime, entry_inode_num,
}
use uwufs.Directory.{blks_of_size}
use uwufs.Directory.Remove.{remove_entry_from_dir_data_blk}
use uwufs.Paths.{split_path_parent_child}
use uwufs.Paths.Namei.{namei}

-- The `for` that looks for the last entry in use, with the entries below `n` to go.
unfoldable pub last_entry : (n : ℕ) → Bytes → Option ℕ
last_entry zero blk = none
last_entry (suc i) blk =
    let rest = last_entry i blk in if ltb 0 (entry_inode_num blk i) then some i else rest

index_or_eio : Option ℕ → Io ℕ
index_or_eio (some i) = pure i
index_or_eio none = raise eio

-- The parent's inode, its number, the number and the content of its last data block, and the index of
-- the last entry there.
pub record LastBlk : Type 0 where
  pub num_data_blks : ℕ
  pub last_dblk_num : ℕ
  pub last_dir_data_blk : Bytes
  pub last_file_entry_index : ℕ

-- Writes what __remove_entry_from_dir_data_blk changed. Where the last block lost its only entry the
-- block is given back. Returns the parent's inode.
write_back :
    LastBlk → (parent : Bytes) → (time dir_data_blk_num : ℕ) → Bytes × Option Bytes → Io Bytes
write_back l parent time blk_num (blk, last) =
    let last_blk : Bytes = elim last [ none ↦ l.last_dir_data_blk | some b ↦ b ] in
    if l.last_file_entry_index == 0
    then (do
      (removed, parent') ← remove_dblk parent (l.num_data_blks - 1)
      if removed == l.last_dblk_num then pure tt else raise eio
      write_blk blk blk_num
      free_blk removed
      pure (set_file_ctime (set_file_size parent' (file_size parent' + 2 ^ 64 - block_size)) time))
    else do write_blk last_blk l.last_dblk_num; write_blk blk blk_num; pure parent

-- What the removal in one block says: go on with the next block, or write.
on_removal : Res (Bytes × Option Bytes) → Io Bytes → (Bytes × Option Bytes → Io Bytes) → Io Bytes
on_removal (ok blks) go_on write = write blks
on_removal (fail enoent) go_on write = go_on
on_removal (fail e) go_on write = raise e
on_removal crash go_on write = stop

-- The `for` over the data blocks, of which there is one at least, with `left` to go.
remove_in_blks :
    (left : ℕ)
    → DataBlockIterator
    → LastBlk
    → (parent : Bytes) → (time : ℕ) → (child : List ℕ) (inode_num : ℕ) → Io Bytes
unfolding write_back on_removal
remove_in_blks zero itr l parent time child num = raise enoent
remove_in_blks (suc left) itr l parent time child num = do
  (blk_num, itr') ← gets (next itr)
  if blk_num == 0 then raise enoent else pure tt
  blk ← load blk_num
  let rest = remove_in_blks left itr' l parent time child num
  let last = if l.last_dblk_num == blk_num then none else some l.last_dir_data_blk
  on_removal (remove_entry_from_dir_data_blk blk last l.last_file_entry_index child num) rest
      (write_back l parent time blk_num)

-- The parent's inode with the change of its count and its times.
abbrev left_behind : Bytes → (nlinks_change time : ℕ) → Bytes
left_behind parent change time =
    set_file_mtime
      (set_file_atime (set_file_links_count parent (file_links_count parent + change)) time) time

-- The changes of the parent and of the file once the last entry of the parent is known.
unlink_in :
    LastBlk
    → (parent : Bytes) → (parent_num time : ℕ) → List ℕ
    → Bytes
    → (inode_num nlinks_change : ℕ) → Io Bytes
unfolding remove_in_blks
unlink_in l parent parent_num time child inode inode_num change = do
  parent' ← remove_in_blks l.num_data_blks (dblk_itr parent 0) l parent time child inode_num
  let inode' = set_file_links_count inode (file_links_count inode + 2 ^ 16 - 1)
  write_inode (left_behind parent' change time) inode_size parent_num
  pure (set_file_ctime inode' time)

-- Returns the inode of the file, with one link less. Where the parent has no data block the status is
-- that of the last read, so the call succeeds and nothing is changed.
unfoldable pub unlink_file :
    (fuel : ℕ) (path : List ℕ) (inode : Bytes) (inode_num nlinks_change : ℕ) → Io Bytes
unfolding index_or_eio unlink_in
unlink_file fuel path inode inode_num change = do
  time ← gets unix_time
  (parent_path, child) ← lift (split_path_parent_child path)
  parent_num ←
      handle (namei fuel parent_path none)
        λ r. lift (elim r [ ok n ↦ ok n | fail e ↦ fail enoent | crash ↦ crash ])
  parent ← read_inode parent_num
  let num_data_blks = blks_of_size (file_size parent)
  last_dblk_num ← gets (get_dblk parent ((num_data_blks + 2 ^ 64 - 1) % 2 ^ 64))
  last_blk ← load last_dblk_num
  last_index ← index_or_eio (last_entry file_entries_per_blk last_blk)
  let l : LastBlk = record {
    num_data_blks = num_data_blks;
    last_dblk_num = last_dblk_num;
    last_dir_data_blk = last_blk;
    last_file_entry_index = last_index;
  }
  if num_data_blks == 0
      then pure inode
      else unlink_in l parent parent_num time child inode inode_num change
