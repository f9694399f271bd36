-- ===== src/Directory/Add.antt =====
-- add_directory_file_entry of src/uwufs/file_operations.c.
use uwufs.Base.{ℕ, ◌+◌, ◌-◌, Bool, true, false, ◌==◌, if◌then◌else◌}
use uwufs.Bytes.{Bytes, zeros}
use uwufs.Machine.{
  Res, ok, fail, crash, enospc, eio, Io, pure, raise, stop, handle, gets, unix_time, ◌>>=◌, ◌>>◌,
}
use uwufs.Block.{load, write_blk}
use uwufs.Freelist.{malloc_blk, free_blk}
use uwufs.Itable.{read_inode, write_inode}
use uwufs.Blockmap.{get_dblk, append_dblk}
use uwufs.Layout.{
  block_size, inode_size, set_direct_blk, file_size, set_file_size, file_links_count,
  set_file_links_count, set_file_atime, set_file_mtime, set_file_ctime,
}
use uwufs.Directory.{blks_of_size, put_directory_file_entry}

-- malloc_blk where any failure counts as ENOSPC.
blk_or_enospc : Res ℕ → Io ℕ
blk_or_enospc (ok blk_num) = if blk_num == 0 then raise enospc else pure blk_num
blk_or_enospc (fail e) = raise enospc
blk_or_enospc crash = stop

-- error_ret: a block that this call allocated is freed, and the status is returned.
fail_after_free : {A : Type 0} → Bool → ℕ → Res A → Io A
fail_after_free has_malloc blk_num (ok a) = pure a
fail_after_free true blk_num (fail e) = handle (free_blk blk_num) λ _. raise e
fail_after_free false blk_num (fail e) = raise e
fail_after_free has_malloc blk_num crash = stop

or_error_ret : {A : Type 0} → (has_malloc : Bool) → (dir_data_blk_num : ℕ) → Io A → Io A
unfolding fail_after_free
or_error_ret has_malloc blk_num m = handle m (fail_after_free has_malloc blk_num)

-- One data block more.
abbrev grown : Bytes → (time : ℕ) → Bytes
grown inode time = set_file_ctime (set_file_size inode (file_size inode + block_size)) time

-- The number of the last data block, the inode, and whether the block was allocated just now.
last_dir_blk : (dir_inode : Bytes) → (n time : ℕ) → Io (ℕ × Bytes × Bool)
unfolding blk_or_enospc
last_dir_blk inode n time =
    if n == 0
    then (do
      blk_num ← handle malloc_blk blk_or_enospc
      pure (blk_num, grown (set_direct_blk inode 0 blk_num) time, true))
    else do
      blk_num ← gets (get_dblk inode (n - 1))
      if blk_num == 0 then raise eio else pure (blk_num, inode, false)

-- The entry in a new, empty data block, which is appended to the directory. The status of the
-- append is ignored.
in_new_blk : (blk_num n time : ℕ) → (inode : Bytes) → Res Bytes → Io (ℕ × Bytes × Bytes)
in_new_blk blk_num n time inode (ok blk) = do
  (_, inode') ← append_dblk (grown inode time) n blk_num
  pure (blk_num, inode', blk)
in_new_blk blk_num n time inode (fail e) = handle (free_blk blk_num) λ _. raise e
in_new_blk blk_num n time inode crash = stop

-- The block number, the inode and the content of the block after put_directory_file_entry, which
-- failed if the block is full.
place_entry :
    (has_malloc : Bool) (blk_num n time : ℕ) (inode name : Bytes) (file_inode_num : ℕ)
    → Res Bytes
    → Io (ℕ × Bytes × Bytes)
unfolding in_new_blk
place_entry m blk_num n time inode name num (ok blk) = pure (blk_num, inode, blk)
place_entry m blk_num n time inode name num (fail e) = do
  new_num ← or_error_ret m blk_num (handle malloc_blk blk_or_enospc)
  in_new_blk new_num n time inode (put_directory_file_entry zeros name num)
place_entry m blk_num n time inode name num crash = stop

-- The counts and times of the directory's inode.
touched : Bytes → (nlinks_change time : ℕ) → Bytes
touched inode change time =
    let counted = set_file_links_count inode (file_links_count inode + change) in
    let changed = if change == 0 then counted else set_file_ctime counted time in
    set_file_atime (set_file_mtime changed time) time

unfoldable pub add_directory_file_entry :
    (dir_inode_num : ℕ) (name : Bytes) (file_inode_num nlinks_change : ℕ) → Io (Unit {0})
unfolding last_dir_blk place_entry touched or_error_ret
add_directory_file_entry dir_inode_num name num change = do
  time ← gets unix_time
  dir_inode ← read_inode dir_inode_num
  let n = blks_of_size (file_size dir_inode)
  (blk_num, inode, has_malloc) ← last_dir_blk dir_inode n time
  blk ← or_error_ret has_malloc blk_num (load blk_num)
  (blk_num', inode', blk') ←
      place_entry has_malloc blk_num n time inode name num (put_directory_file_entry blk name num)
  or_error_ret has_malloc blk_num'
      (write_inode (touched inode' change time) inode_size dir_inode_num)
  or_error_ret has_malloc blk_num' (write_blk blk' blk_num')
