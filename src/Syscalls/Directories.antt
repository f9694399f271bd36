-- ===== src/Syscalls/Directories.antt =====
-- uwufs_mkdir, uwufs_unlink, uwufs_rmdir and uwufs_rename.
use uwufs.Base.{ℕ, true, ◌&&◌, none, some, List, [], ◌∷◌, leb, ◌==◌, if◌then◌else◌, bit_and, bit_or}
use uwufs.Bytes.{Bytes, zeros}
use uwufs.Machine.{
  Machine, Res, ok, fail, crash, eperm, enospc, enoent, eio, eexist, einval, enosys, enotdir,
  enotempty, Io, pure, raise, stop, lift, handle, gets, unix_time, ◌>>=◌, ◌>>◌,
}
use uwufs.Block.{load, write_blk}
use uwufs.Freelist.{malloc_blk, free_blk}
use uwufs.Itable.{read_inode, write_inode, find_free_inode}
use uwufs.Layout.{
  block_size, inode_size, root_dir_inode, f_perm_bits, f_type_regular, f_type_directory, file_type,
  set_file_mode, set_direct_blk, set_file_size, file_links_count, set_file_links_count,
  set_file_uid, set_file_gid, set_file_atime, set_file_mtime, set_file_ctime,
}
use uwufs.Layout.Super.{free_blks_left}
use uwufs.Directory.{c_bytes, same_text, put_directory_file_entry, is_directory_empty}
use uwufs.Directory.Add.{add_directory_file_entry}
use uwufs.File.Remove.{remove_file}
use uwufs.Links.{namei_or_enoent, or_fail, has_dir_bit, link_file}
use uwufs.Links.Unlink.{unlink_file}
use uwufs.Paths.{split_path_parent_child}
use uwufs.Paths.Namei.{namei}

-- "." and ".."
abbrev dot : List ℕ
dot = b'.' ∷ []

abbrev dot_dot : List ℕ
dot_dot = b'.' ∷ b'.' ∷ []

-- An error frees the new block and is returned.
free_on_fail : {A : Type 0} → (new_blk_num : ℕ) → Res A → Io A
free_on_fail new_blk_num (ok a) = pure a
free_on_fail new_blk_num (fail e) = handle (free_blk new_blk_num) λ _. raise e
free_on_fail new_blk_num crash = stop

-- The inode of a new directory.
abbrev pub new_dir_inode : (mode new_blk_num unix_time : ℕ) → Machine → Bytes
new_dir_inode mode blk_num now d =
    let typed = set_file_mode zeros (bit_or f_type_directory (bit_and f_perm_bits mode)) in
    let sized = set_file_size (set_direct_blk typed 0 blk_num) block_size in
    let owned = set_file_gid (set_file_uid (set_file_links_count sized 2) d.uid) d.gid in
    set_file_atime (set_file_mtime (set_file_ctime owned now) now) now

-- What follows once the new block is allocated.
fill_dir : (parent_num child_num new_blk_num mode : ℕ) → (child : List ℕ) → Io (Unit {0})
fill_dir parent_num child_num blk_num mode child = do
  buf ← gets (λ d. d.stack)
  add_directory_file_entry parent_num (c_bytes buf child) child_num 1
  new_dir_blk ← lift (put_directory_file_entry zeros (c_bytes buf dot) child_num)
  new_dir_blk' ← lift (put_directory_file_entry new_dir_blk (c_bytes buf dot_dot) parent_num)
  write_blk new_dir_blk' blk_num
  now ← gets unix_time
  inode ← gets (new_dir_inode mode blk_num now)
  write_inode inode inode_size child_num

unfoldable pub uwufs_mkdir : (fuel : ℕ) → List ℕ → (mode : ℕ) → Io (Unit {0})
unfolding free_on_fail fill_dir
uwufs_mkdir fuel path mode = do
  super ← load 0
  if leb (free_blks_left super) 7 then raise enospc else pure tt
  (parent, child) ← lift (split_path_parent_child path)
  root ← read_inode root_dir_inode
  parent_num ← namei_or_enoent fuel parent (some root)
  child_num ← find_free_inode
  blk_num ← malloc_blk
  if blk_num == 0
      then pure tt
      else handle (fill_dir parent_num child_num blk_num mode child) (free_on_fail blk_num)

-- The inode is freed with its blocks if it has no link left, and written.
drop_file : (inode : Bytes) → (inode_num : ℕ) → Io (Unit {0})
drop_file inode inode_num = do
  inode' ← if file_links_count inode == 0 then remove_file inode else pure inode
  write_inode inode' inode_size inode_num

unfoldable pub uwufs_unlink : (fuel : ℕ) → List ℕ → Io (Unit {0})
unfolding drop_file
uwufs_unlink fuel path = do
  inode_num ← namei_or_enoent fuel path none
  inode ← read_inode inode_num
  if file_type inode == f_type_regular
      then (do inode' ← unlink_file fuel path inode inode_num 0; drop_file inode' inode_num)
      else raise einval

-- The names that rmdir refuses: ".", ".." and the root's.
check_name : (parent child : List ℕ) → Io (Unit {0})
check_name parent child =
    if same_text child dot
    then raise einval
    else if same_text child dot_dot
    then raise enotempty
    else if same_text parent [] && same_text child []
    then raise eperm
    else pure tt

or_eio : {A : Type 0} → Io A → Io A
or_eio m = handle m λ r. lift (or_fail r (fail eio))

unfoldable pub uwufs_rmdir : (fuel : ℕ) → List ℕ → Io (Unit {0})
unfolding check_name or_eio
uwufs_rmdir fuel path = do
  (parent, child) ← lift (split_path_parent_child path)
  check_name parent child
  num ← namei fuel path none
  inode ← read_inode num
  if file_type inode == f_type_directory then pure tt else raise enotdir
  empty ← gets (is_directory_empty inode)
  if empty then pure tt else raise enotempty
  if file_links_count inode == 2 then pure tt else raise enotempty
  inode' ← or_eio (unlink_file fuel path inode num 65535)
  inode'' ← or_eio (remove_file inode')
  or_eio (write_inode inode'' inode_size num)

-- move_file_entry of uwufs_rename.
move_file_entry : (fuel : ℕ) (old_path new_path : List ℕ) (inode_num : ℕ) → Io (Unit {0})
move_file_entry fuel old_path new_path num = do
  inode_old ← read_inode num
  link_file fuel old_path new_path true (if has_dir_bit inode_old then 1 else 0)
  _ ← unlink_file fuel old_path inode_old num (if has_dir_bit inode_old then 65535 else 0)
  pure tt

-- The file at the new path, which RENAME_WHITEOUT removes first.
remove_other : (fuel : ℕ) (new_path : List ℕ) (other : ℕ) → Io (Unit {0})
remove_other fuel new_path other = do
  inode_new ← read_inode other
  inode_new' ← unlink_file fuel new_path inode_new other (if has_dir_bit inode_new then 1 else 0)
  drop_file inode_new' other

-- What the look-up of the new path says: for a file that is there what to do first, else nothing.
at_new_path : Res ℕ → (ℕ → Io (Unit {0})) → Io (Unit {0})
at_new_path (ok other) exists = exists other
at_new_path (fail enoent) exists = pure tt
at_new_path (fail e) exists = raise e
at_new_path crash exists = stop

unfoldable pub uwufs_rename :
    (fuel : ℕ) → (old_path new_path : List ℕ) → (flags : ℕ) → Io (Unit {0})
unfolding move_file_entry drop_file remove_other at_new_path
uwufs_rename fuel old_path new_path flags = do
  num ← namei_or_enoent fuel old_path none
  if flags == 4
      then handle (namei fuel new_path none) (λ r. at_new_path r (remove_other fuel new_path))
      else if flags == 1
      then handle (namei fuel new_path none) (λ r. at_new_path r (λ _. raise eexist))
      else if flags == 2
      then raise enosys
      else raise einval
  move_file_entry fuel old_path new_path num
