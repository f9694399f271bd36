-- ===== src/Itable.antt =====
-- read_inode, write_inode and find_free_inode of src/uwufs/low_level_operations.c.
pub mod Table
pub mod Search
use uwufs.Base.{
  ℕ, zero, suc, ◌+◌, ◌-◌, ◌*◌, ◌/◌, ◌%◌, ◌^◌, Option, none, some, ltb, ◌==◌, if◌then◌else◌,
}
use uwufs.Bytes.{Bytes}
use uwufs.Machine.{Machine, ok, fail, edquot, Io, pure, raise, gets, ◌>>=◌, ◌>>◌}
use uwufs.Block.{load, write_blk}
use uwufs.Layout.{
  block_size, inode_size, reserved_space, inodes_per_blk, root_dir_inode, f_type_free, file_type,
  inode_at, set_inode_at,
}
use uwufs.Layout.Super.{ilist_start, ilist_total_size}

-- inode_blk_num and inode_num_in_blk of both functions
unfoldable pub inode_blk_num : ℕ → ℕ
inode_blk_num inode_num =
    (1 + reserved_space + inode_num * inode_size % 2 ^ 64 / block_size) % 2 ^ 64

unfoldable pub inode_num_in_blk : ℕ → ℕ
inode_num_in_blk inode_num = inode_num * inode_size % 2 ^ 64 % block_size / inode_size

unfoldable pub read_inode : ℕ → Io Bytes
unfolding inode_blk_num inode_num_in_blk
read_inode inode_num = do
  inode_blk ← load (inode_blk_num inode_num)
  buf ← gets (λ d. d.stack)
  pure (inode_at buf inode_blk (inode_num_in_blk inode_num))

unfoldable pub write_inode : Bytes → ℕ → ℕ → Io (Unit {0})
unfolding inode_blk_num inode_num_in_blk
write_inode buf size inode_num = do
  inode_blk ← load (inode_blk_num inode_num)
  write_blk (set_inode_at inode_blk (inode_num_in_blk inode_num) buf size) (inode_blk_num inode_num)

-- The `for` over the inodes of a block, with `left` of them to go: the number of the first free one
-- that is not reserved. `blks` counts the inode blocks before this one.
find_in_blk : (left : ℕ) → (inode_in_blk : ℕ) → (blks : ℕ) → (buf inode_blk : Bytes) → Option ℕ
find_in_blk zero i blks buf blk = none
find_in_blk (suc left) i blks buf blk =
    let rest = find_in_blk left (i + 1) blks buf blk in
    let num = (blks * inodes_per_blk + i) % 2 ^ 64 in
    if file_type (inode_at buf blk i) == f_type_free
    then (if ltb num root_dir_inode then rest else some num)
    else rest

-- Return the number that was found in the block, or go on.
return_or : Option ℕ → Io ℕ → Io ℕ
return_or (some num) rest = pure num
return_or none rest = rest

-- The `while` over the inode blocks, with `left` of them to go.
find_in_blks : (left : ℕ) → (current_inode_blk : ℕ) → (start : ℕ) → Io ℕ
find_in_blks zero cur start = raise edquot
find_in_blks (suc left) cur start =
    let rest = find_in_blks left (cur + 1) start in
    do
      inode_blk ← load cur
      buf ← gets (λ d. d.stack)
      return_or (find_in_blk inodes_per_blk 0 (cur - start) buf inode_blk) rest

unfoldable pub find_free_inode : Io ℕ
unfolding find_in_blk return_or find_in_blks
find_free_inode = do
  super ← load 0
  let start = ilist_start super
  find_in_blks ((start + ilist_total_size super) % 2 ^ 64 - start) start start
