-- ===== src/Syscalls/Attributes.antt =====
-- uwufs_utimens, uwufs_chmod, uwufs_chown and uwufs_getattr.
pub mod Changes
use uwufs.Base.{ℕ, ◌+◌, ◌-◌, ◌*◌, ◌/◌, ◌%◌, ◌^◌, none, List, ◌==◌, if◌then◌else◌, bit_and, bit_or}
use uwufs.Bytes.{Bytes}
use uwufs.Machine.{
  Res, ok, fail, crash, enoent, eio, einval, Io, pure, raise, lift, handle, gets, unix_time, ◌>>=◌,
  ◌>>◌,
}
use uwufs.Itable.{read_inode, write_inode}
use uwufs.Layout.{
  block_size, inode_size, f_type_bits, f_perm_bits, f_type_regular, f_type_directory, file_type,
  file_mode, set_file_mode, file_size, file_links_count, file_uid, set_file_uid, file_gid,
  set_file_gid, file_atime, set_file_atime, file_mtime, file_ctime,
}
use uwufs.Directory.{blks_of_size}
use uwufs.Links.{namei_or_enoent, or_fail}
use uwufs.Paths.Namei.{namei}

-- struct timespec
pub record Timespec : Type 0 where
  pub tv_sec : ℕ
  pub tv_nsec : ℕ

abbrev pub utime_now : ℕ
utime_now = 1073741823

abbrev pub utime_omit : ℕ
utime_omit = 1073741822

-- The assignment for one of the two times: both are to file_atime.
abbrev pub set_time : Bytes → Timespec → (unix_time : ℕ) → Bytes
set_time inode tv now =
    if tv.tv_nsec == utime_now
    then set_file_atime inode now
    else if tv.tv_nsec == utime_omit
    then inode
    else set_file_atime inode tv.tv_sec

unfoldable pub uwufs_utimens : (fuel : ℕ) → List ℕ → (tv0 tv1 : Timespec) → Io (Unit {0})
uwufs_utimens fuel path tv0 tv1 = do
  now ← gets unix_time
  inode_num ← namei fuel path none
  inode ← read_inode inode_num
  write_inode (set_time (set_time inode tv0 now) tv1 now) inode_size inode_num

unfoldable pub uwufs_chmod : (fuel : ℕ) → List ℕ → (mode : ℕ) → Io (Unit {0})
uwufs_chmod fuel path mode = do
  inode_num ← namei_or_enoent fuel path none
  inode ← read_inode inode_num
  let file_mode' = bit_or (bit_and (file_mode inode) f_type_bits) (bit_and mode f_perm_bits)
  write_inode (set_file_mode inode file_mode') inode_size inode_num

unfoldable pub uwufs_chown : (fuel : ℕ) → List ℕ → (uid gid : ℕ) → Io (Unit {0})
uwufs_chown fuel path uid gid = do
  inode_num ← namei_or_enoent fuel path none
  inode ← read_inode inode_num
  handle (write_inode (set_file_gid (set_file_uid inode uid) gid) inode_size inode_num)
      λ r. lift (or_fail r (fail eio))

-- struct stat, as far as it is filled in
pub record Stat : Type 0 where
  pub st_mode : ℕ
  pub st_ino : ℕ
  pub st_size : ℕ
  pub st_blksize : ℕ
  pub st_blocks : ℕ
  pub st_nlink : ℕ
  pub st_uid : ℕ
  pub st_gid : ℕ
  pub st_ctime : ℕ
  pub st_mtime : ℕ
  pub st_atime : ℕ

-- S_IFDIR and S_IFREG, or EINVAL for another type.
unfoldable pub st_type : Bytes → Io ℕ
st_type inode =
    if file_type inode == f_type_directory
    then pure 16384
    else if file_type inode == f_type_regular
    then pure 32768
    else raise einval

unfoldable pub uwufs_getattr : (fuel : ℕ) → List ℕ → Io Stat
uwufs_getattr fuel path = do
  inode_num ← namei_or_enoent fuel path none
  inode ← handle (read_inode inode_num) (λ r. lift (or_fail r (fail enoent)))
  kind ← st_type inode
  pure (record {
    st_mode = bit_or kind (bit_and (file_mode inode) f_perm_bits);
    st_ino = inode_num;
    st_size = file_size inode;
    st_blksize = block_size;
    st_blocks = blks_of_size (file_size inode) * 8;
    st_nlink = file_links_count inode;
    st_uid = file_uid inode;
    st_gid = file_gid inode;
    st_ctime = file_ctime inode;
    st_mtime = file_mtime inode;
    st_atime = file_atime inode;
  })
