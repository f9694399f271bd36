-- ===== src/Syscalls/Files.antt =====
-- uwufs_open, uwufs_read, uwufs_write, uwufs_release and uwufs_create.
pub mod Existing
pub mod Stored
pub mod History
use uwufs.Base.{ℕ, ◌+◌, none, List, leb, ◌==◌, if◌then◌else◌, bit_and, bit_or}
use uwufs.Bytes.{Bytes, zeros}
use uwufs.Machine.{
  Machine, Res, ok, fail, crash, enospc, enoent, eio, eisdir, einval, Io, pure, raise, stop, lift,
  handle, gets, unix_time, ◌>>=◌, ◌>>◌,
}
use uwufs.Block.{load}
use uwufs.Itable.{read_inode, write_inode, find_free_inode}
use uwufs.Layout.{
  inode_size, f_perm_bits, f_type_regular, f_type_directory, file_type, set_file_mode,
  set_file_size, set_file_links_count, set_file_uid, set_file_gid, set_file_atime, set_file_mtime,
  set_file_ctime,
}
use uwufs.Layout.Super.{free_blks_left}
use uwufs.Directory.{c_bytes}
use uwufs.Directory.Add.{add_directory_file_entry}
use uwufs.File.Read.{read_file}
use uwufs.File.Write.{write_file, truncate_file}
use uwufs.Links.{namei_or_enoent, or_fail}
use uwufs.Paths.{split_path_parent_child}
use uwufs.Paths.Namei.{namei}

abbrev o_trunc : ℕ
o_trunc = 512

unfoldable pub uwufs_open : (fuel : ℕ) → List ℕ → (flags : ℕ) → Io (Unit {0})
uwufs_open fuel path flags = do
  inode_num ← namei_or_enoent fuel path none
  if bit_and flags o_trunc == 0 then pure tt else truncate_file inode_num

-- The number of bytes read, and the buffer.
unfoldable pub uwufs_read : (fuel : ℕ) → List ℕ → (buf : Bytes) (size offset : ℕ) → Io (ℕ × Bytes)
uwufs_read fuel path buf size offset = do
  inode_num ← namei_or_enoent fuel path none
  inode ← read_inode inode_num
  if file_type inode == f_type_regular
      then handle (read_file buf size offset inode) (λ r. lift (or_fail r (fail eio)))
      else if file_type inode == f_type_directory
      then raise eisdir
      else raise einval

unfoldable pub uwufs_write : (fuel : ℕ) → List ℕ → (buf : Bytes) (size offset : ℕ) → Io ℕ
uwufs_write fuel path buf size offset = do
  inode_num ← namei_or_enoent fuel path none
  inode ← read_inode inode_num
  if file_type inode == f_type_regular
      then write_file buf size offset inode inode_num
      else raise einval

unfoldable pub uwufs_release : (fuel : ℕ) → List ℕ → Io (Unit {0})
uwufs_release fuel path = do _ ← namei_or_enoent fuel path none; pure tt

-- The inode of a new file, but for its access time.
abbrev pub new_inode : (mode unix_time : ℕ) → Machine → Bytes
new_inode mode now d =
    let typed = set_file_mode zeros (bit_or f_type_regular (bit_and mode f_perm_bits)) in
    let owned =
      set_file_gid (set_file_uid (set_file_links_count (set_file_size typed 0) 1) d.uid) d.gid in
    set_file_mtime (set_file_ctime owned now) now

-- A new file: its inode number and its inode.
make_file : (fuel : ℕ) (parent_path child : List ℕ) (mode unix_time : ℕ) → Io (ℕ × Bytes)
make_file fuel parent child mode now = do
  parent_num ← namei_or_enoent fuel parent none
  num ← find_free_inode
  buf ← gets (λ d. d.stack)
  add_directory_file_entry parent_num (c_bytes buf child) num 0
  inode ← gets (new_inode mode now)
  pure (num, inode)

-- What the look-up of the path says. If the file exists its inode is not read: the local struct is
-- what the stack holds.
on_existing : Res ℕ → Io (ℕ × Bytes) → Io (ℕ × Bytes)
on_existing (ok num) make = gets (λ d. (num, d.stack))
on_existing (fail enoent) make = make
on_existing (fail e) make = raise e
on_existing crash make = stop

unfoldable pub create_regular_file : (fuel : ℕ) → List ℕ → (mode : ℕ) → Io (Unit {0})
unfolding make_file on_existing
create_regular_file fuel path mode = do
  now ← gets unix_time
  super ← load 0
  if leb (free_blks_left super) 5 then raise enospc else pure tt
  (parent, child) ← lift (split_path_parent_child path)
  (num, inode) ←
      handle (namei fuel path none) λ r. on_existing r (make_file fuel parent child mode now)
  handle (write_inode (set_file_atime inode now) inode_size num) (λ r. lift (or_fail r (fail eio)))

-- S_ISREG(mode)
unfoldable pub uwufs_create : (fuel : ℕ) → List ℕ → (mode : ℕ) → Io (Unit {0})
uwufs_create fuel path mode =
    if bit_and mode 61440 == 32768 then create_regular_file fuel path mode else raise einval
