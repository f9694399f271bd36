-- ===== src/Blockmap.antt =====
-- src/uwufs/cpp/INode.cpp, DataBlockIterator.cpp and their interface c_api.cpp: the numbers of a
-- file's data blocks, ten of them in the inode and the rest in trees of indirect blocks, one each of
-- one, two and three levels, with 512 entries to a block.
pub mod Remove
pub mod Append
pub mod Growth
pub mod Trees
pub mod Returns
pub mod Silent
pub mod Forest
pub mod Parts
use uwufs.Base.{
  ℕ, zero, suc, ◌+◌, ◌-◌, ◌*◌, ◌/◌, ◌%◌, ◌^◌, Bool, true, false, ltb, leb, ◌==◌, ◌||◌,
  if◌then◌else◌,
}
use uwufs.Bytes.{Bytes, zeros}
use uwufs.Machine.{Machine, Res, ok, fail, crash, Io, pure, handle, gets, ◌>>=◌, ◌>>◌}
use uwufs.Block.{load, peek, write_blk}
use uwufs.Freelist.{malloc_blk, free_blk}
use uwufs.Layout.{
  entries_per_blk, direct_blk, set_direct_blk, single_indirect_blks, set_single_indirect_blks,
  double_indirect_blks, set_double_indirect_blks, triple_indirect_blks, set_triple_indirect_blks,
  entry, set_entry,
}

-- LEVEL_0_BLOCKS to LEVEL_3_BLOCKS: how many data blocks the levels up to this one can name
abbrev pub level_0_blocks : ℕ
level_0_blocks = 10

abbrev pub level_1_blocks : ℕ
level_1_blocks = 522

abbrev pub level_2_blocks : ℕ
level_2_blocks = 262666

abbrev pub level_3_blocks : ℕ
level_3_blocks = 134480394

pub record DataBlockIterator : Type 0 where
  pub inode : Bytes
  pub current_index : ℕ

-- create_dblk_itr
abbrev pub dblk_itr : Bytes → ℕ → DataBlockIterator
dblk_itr inode start_index = record { inode = inode; current_index = start_index }

-- What DataBlockIterator::next returns at an index. It ignores the status of its reads.
unfoldable pub blk_no_at : Bytes → ℕ → Machine → ℕ
blk_no_at inode index d =
    if ltb index level_0_blocks
    then direct_blk inode index
    else if ltb index level_1_blocks
    then entry (peek (single_indirect_blks inode) d) (index - level_0_blocks)
    else if ltb index level_2_blocks
    then (let double_index = index - level_1_blocks in
        let i = double_index / entries_per_blk in
        let j = double_index % entries_per_blk in
        let double_blk = peek (double_indirect_blks inode) d in
        let single_blk = peek (entry double_blk i) d in entry single_blk j)
    else if ltb index level_3_blocks
    then (let triple_index = index - level_2_blocks in
        let i = triple_index / (entries_per_blk * entries_per_blk) in
        let rem = triple_index % (entries_per_blk * entries_per_blk) in
        let j = rem / entries_per_blk in
        let k = rem % entries_per_blk in
        let triple_blk = peek (triple_indirect_blks inode) d in
        let double_blk = peek (entry triple_blk i) d in
        let single_blk = peek (entry double_blk j) d in entry single_blk k)
    else 0

-- DataBlockIterator::next, with the iterator that it leaves: it advances while it is in range.
unfoldable pub next : DataBlockIterator → Machine → ℕ × DataBlockIterator
unfolding blk_no_at
next itr d = (
  blk_no_at itr.inode itr.current_index d,
  if ltb itr.current_index level_3_blocks
      then record itr { current_index = itr.current_index + 1 }
      else itr,
)

unfoldable pub get_dblk : Bytes → ℕ → Machine → ℕ
unfolding next
get_dblk inode index d = (next (dblk_itr inode index) d).0

-- assert_low_level_operation of INode.cpp: where an operation fails the function returns 0.
status_or_zero : Res ℕ → Io ℕ
status_or_zero (ok a) d = (ok a, d)
status_or_zero (fail e) d = (ok 0, d)
status_or_zero crash d = (crash, d)

or_zero : Io ℕ → Io ℕ
unfolding status_or_zero
or_zero m = handle m status_or_zero

-- The indirect block to change: a new empty one for index 0.
indirect_blk_for : (cur_no index : ℕ) → Io (ℕ × Bytes)
indirect_blk_for cur_no index =
    if index == 0
    then (do new_no ← malloc_blk; pure (new_no, zeros))
    else do blk ← load cur_no; pure (cur_no, blk)

pub recursive_append_dblk : (level cur_no index block_no : ℕ) → Io ℕ
recursive_append_dblk zero cur_no index block_no = or_zero do
  (cur, blk) ← indirect_blk_for cur_no index
  write_blk (set_entry blk index block_no) cur
  pure cur
recursive_append_dblk (suc level) cur_no index block_no = or_zero do
  (cur, blk) ← indirect_blk_for cur_no index
  let width = entries_per_blk ^ suc level
  child ← recursive_append_dblk level (entry blk (index / width)) (index % width) block_no
  write_blk (set_entry blk (index / width) child) cur
  pure cur

-- Returns the block number, or 0, and the inode.
unfoldable pub append_dblk : Bytes → (index block_no : ℕ) → Io (ℕ × Bytes)
unfolding or_zero indirect_blk_for recursive_append_dblk
append_dblk inode index block_no =
    if leb level_3_blocks index
    then pure (0, inode)
    else if ltb index level_0_blocks
    then pure (block_no, set_direct_blk inode index block_no)
    else if ltb index level_1_blocks
    then (do
      root ← recursive_append_dblk 0 (single_indirect_blks inode) (index - level_0_blocks) block_no
      pure (block_no, set_single_indirect_blks inode root))
    else if ltb index level_2_blocks
    then (do
      root ← recursive_append_dblk 1 (double_indirect_blks inode) (index - level_1_blocks) block_no
      pure (block_no, set_double_indirect_blks inode root))
    else do
      root ← recursive_append_dblk 2 (triple_indirect_blks inode) (index - level_2_blocks) block_no
      pure (block_no, set_triple_indirect_blks inode root)
