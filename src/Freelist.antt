-- ===== src/Freelist.antt =====
-- malloc_blk and free_blk of src/uwufs/low_level_operations.c: the free blocks are a linked list
-- through their first eight bytes, with its head and its length in the superblock.
pub mod Chain
pub mod Relist
pub mod Room
pub mod Stack
pub mod Failure
pub mod Returns
pub mod History
pub mod Gain
use uwufs.Base.{ℕ, ◌+◌, ◌-◌, ◌%◌, ◌^◌, ltb, ◌==◌, if◌then◌else◌}
use uwufs.Bytes.{Bytes}
use uwufs.Machine.{Machine, ok, fail, eio, enospc, Io, pure, raise, gets, ◌>>=◌, ◌>>◌}
use uwufs.Block.{load, write_blk}
use uwufs.Layout.{next_free_blk, set_next_free_blk}
use uwufs.Layout.Super.{
  freelist_start, freelist_total_size, freelist_head, set_freelist_head, free_blks_left,
  set_free_blks_left,
}

-- The superblock with another head and another number of free blocks.
abbrev pub relisted : Bytes → ℕ → ℕ → Bytes
relisted sb head left = set_free_blks_left (set_freelist_head sb head) left

abbrev pub popped : Bytes → ℕ → Bytes
popped sb next = relisted sb next (free_blks_left sb - 1)

abbrev pub pushed : Bytes → ℕ → Bytes
pushed sb blk_num = relisted sb blk_num (free_blks_left sb + 1)

-- The second half of malloc_blk, with the superblock `sb` at hand.
unlink_head : Bytes → Io ℕ
unlink_head sb = do
  let head = freelist_head sb
  free ← load head
  let next = next_free_blk free
  let sb' = popped sb next
  if ltb ((freelist_start sb' + freelist_total_size sb') % 2 ^ 64) next
      then raise eio
      else do write_blk sb' 0; pure head

unfoldable pub malloc_blk : Io ℕ
unfolding unlink_head
malloc_blk = do
  sb ← load 0
  if free_blks_left sb == 0
      then raise enospc
      else (if freelist_head sb == 0 then raise enospc else unlink_head sb)

unfoldable pub free_blk : ℕ → Io (Unit {0})
free_blk blk_num = do
  sb ← load 0
  junk ← gets (λ d. d.stack)
  write_blk (set_next_free_blk junk (freelist_head sb)) blk_num
  write_blk (pushed sb blk_num) 0
