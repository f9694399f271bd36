-- ===== src/Mkfs.antt =====
-- src/uwufs/mkfs_uwu.c: how a device is formatted. A failed write ends the process.
pub mod Freelist
pub mod Super
pub mod Table
pub mod Prepared
pub mod Dots
pub mod Root
pub mod Lookup
pub mod Formatted
use uwufs.Base.{
  ℕ, zero, suc, ◌+◌, ◌-◌, ◌*◌, ◌/◌, ◌%◌, ◌^◌, Bool, Option, none, some, List, [], ◌∷◌, ltb, leb,
  ◌==◌, if◌then◌else◌, bit_or,
}
use uwufs.Bytes.{Bytes, zeros}
use uwufs.Machine.{
  Machine, Res, ok, fail, crash, Io, pure, stop, lift, handle, gets, unix_time, ◌>>=◌, ◌>>◌,
}
use uwufs.Block.{write_blk}
use uwufs.Freelist.{malloc_blk}
use uwufs.Itable.{write_inode}
use uwufs.Directory.{c_bytes, put_directory_file_entry}
use uwufs.Layout.{
  block_size, inode_size, inodes_per_blk, reserved_space, root_dir_inode, f_type_directory,
  f_type_free, set_direct_blk, set_file_mode, set_file_size, set_file_links_count, set_file_uid,
  set_file_gid, set_file_atime, set_file_mtime, set_file_ctime, set_next_free_blk,
}
use uwufs.Layout.Super.{
  set_total_blks, set_ilist_start, set_ilist_total_size, set_freelist_start,
  set_freelist_total_size, set_freelist_head, set_free_inodes_left, set_free_blks_left,
}

-- error_exit
abbrev pub or_exit : {A : Type 0} → Res A → Res A
or_exit (ok a) = ok a
or_exit _ = crash

-- The `while` of init_freelist, with `left` blocks to link. The progress report divides by a tenth of
-- the size, and by zero if that is below 10.
unfoldable pub link_blks : (left current_blk_num freelist_size : ℕ) → Io (Unit {0})
link_blks zero cur size = pure tt
link_blks (suc left) cur size =
    let rest = link_blks left (cur + 1) size in
    if size / 10 == 0 then stop else (do
      buf ← gets (λ d. d.stack)
      handle (write_blk (set_next_free_blk buf (cur + 1)) cur) (λ r. lift (or_exit r))
      rest)

-- Returns the head of the free list.
unfoldable pub init_freelist : (total_blks freelist_start freelist_size : ℕ) → Io ℕ
unfolding link_blks
init_freelist total start size = do
  let end = (start + size) % 2 ^ 64
  if leb end total then pure tt else stop
  link_blks (end - 1 - start) start size
  buf ← gets (λ d. d.stack)
  handle (write_blk (set_next_free_blk buf 0) (start + (end - 1 - start))) (λ r. lift (or_exit r))
  pure start

unfoldable pub super_blk :
    Bytes
    → (total_blks ilist_start ilist_total_size freelist_start freelist_total_size freelist_head : ℕ)
    → Bytes
super_blk buf total istart isize fstart fsize head =
    let sb = set_total_blks buf total in
    let sb = set_ilist_start sb istart in
    let sb = set_ilist_total_size sb isize in
    let sb = set_free_inodes_left sb ((isize * inodes_per_blk + 2 ^ 64 - 3) % 2 ^ 64) in
    let sb = set_freelist_start sb fstart in
    let sb = set_freelist_total_size sb fsize in
    let sb = set_freelist_head sb head in set_free_blks_left sb ((fsize + 2 ^ 64 - 1) % 2 ^ 64)

unfoldable pub init_superblock :
    (total_blks ilist_start ilist_total_size freelist_start freelist_total_size freelist_head : ℕ)
    → Io (Unit {0})
unfolding super_blk
init_superblock total istart isize fstart fsize head = do
  buf ← gets (λ d. d.stack)
  handle (write_blk (super_blk buf total istart isize fstart fsize head) 0) (λ r. lift (or_exit r))

-- The `for` of init_inodes, with `left` blocks to clear from `i` on, up to `ilist_end`.
unfoldable pub clear_blks : (left i ilist_end : ℕ) → Io (Unit {0})
clear_blks zero i end = pure tt
clear_blks (suc left) i end =
    let rest = clear_blks left (i + 1) end in
    if end / 10 == 0 then stop else (do handle (write_blk zeros i) (λ r. lift (or_exit r)); rest)

unfoldable pub init_inodes : (ilist_start ilist_total_size : ℕ) → Io (Unit {0})
unfolding clear_blks
init_inodes start size = clear_blks size start (start + size)

-- The inode of the root directory. 0755 is 493.
unfoldable pub root_inode : (blk_num time : ℕ) → Bytes
root_inode blk_num time =
    let ino = set_file_mode zeros (bit_or f_type_directory 493) in
    let ino = set_direct_blk ino 0 blk_num in
    let ino = set_file_size ino block_size in
    let ino = set_file_links_count ino 2 in
    let ino = set_file_uid ino 0 in
    let ino = set_file_gid ino 0 in
    let ino = set_file_ctime ino time in
    let ino = set_file_mtime ino time in set_file_atime ino time

-- The names are string literals of two and three bytes, of which put_directory_file_entry copies 248:
-- behind them is memory that the program does not own.
unfoldable pub init_root_directory : Io (Unit {0})
unfolding root_inode
init_root_directory = do
  behind ← gets (λ d. d.stack)
  dir_blk ←
      lift (or_exit (put_directory_file_entry zeros (c_bytes behind (b'.' ∷ [])) root_dir_inode))
  dir_blk' ← lift (
      or_exit (put_directory_file_entry dir_blk (c_bytes behind (b'.' ∷ b'.' ∷ [])) root_dir_inode))
  blk_num ← handle malloc_blk (λ r. lift (or_exit r))
  handle (write_blk dir_blk' blk_num) (λ r. lift (or_exit r))
  time ← gets unix_time
  handle (write_inode (root_inode blk_num time) inode_size root_dir_inode) (λ r. lift (or_exit r))

-- init_uwufs. The size of the i-list is a product of floats, and an argument here.
unfoldable pub init_uwufs : (total_blks reserved_space ilist_size : ℕ) → Io (Unit {0})
unfolding init_freelist init_superblock init_inodes init_root_directory
init_uwufs total reserved isize = do
  let istart = 1 + reserved
  let fstart = istart + isize
  let fsize = total - 1 - reserved - isize
  head ← init_freelist total fstart fsize
  init_superblock total istart isize fstart fsize head
  init_inodes istart isize
  init_root_directory

-- The `for` of init_inodes2, with `left` inodes to go. All of an inode but its mode is what the stack
-- holds.
free_inodes : (left i : ℕ) → Io (Unit {0})
free_inodes zero i = pure tt
free_inodes (suc left) i = do
  buf ← gets (λ d. d.stack)
  handle (write_inode (set_file_mode buf f_type_free) inode_size i) (λ r. lift (or_exit r))
  free_inodes left (i + 1)

-- init_inodes2, which nothing calls.
unfoldable pub init_inodes2 : (ilist_start ilist_total_size : ℕ) → Io (Unit {0})
unfolding free_inodes
init_inodes2 start size = free_inodes (size * inodes_per_blk % 2 ^ 64) 0

-- main on Linux, with its exit status. Given are the number of arguments, whether the device could be
-- opened, the size of it in bytes, if ioctl returns one, and the part of its blocks that the product of
-- floats gives to the i-list.
unfoldable pub main :
    (argc : ℕ) → (opened : Bool) → (blk_dev_size : Option ℕ) → (ilist_size : ℕ → ℕ) → Io ℕ
unfolding init_uwufs
main argc opened none ilist_size = pure 1
main argc opened (some blk_dev_size) ilist_size =
    let total = blk_dev_size / block_size in
    if ltb argc 2
    then pure 1
    else if opened
    then (do init_uwufs total reserved_space (ilist_size total); pure 0)
    else pure 1
