-- ===== src/Blockmap/Remove.antt =====
-- INode::remove_dblk and INode::remove_dblks of src/uwufs/cpp/INode.cpp.
pub mod Single
pub mod Undo
pub mod Trees
pub mod Returns
use uwufs.Base.{
  ℕ, zero, suc, ◌+◌, ◌-◌, ◌*◌, ◌/◌, ◌%◌, ◌^◌, Bool, true, false, ltb, leb, ◌==◌, ◌||◌,
  if◌then◌else◌,
}
use uwufs.Bytes.{Bytes}
use uwufs.Machine.{Res, ok, crash, Io, pure, handle, ◌>>=◌, ◌>>◌}
use uwufs.Block.{load, write_blk}
use uwufs.Freelist.{free_blk}
use uwufs.Layout.{
  entries_per_blk, direct_blk, set_direct_blk, single_indirect_blks, set_single_indirect_blks,
  double_indirect_blks, set_double_indirect_blks, triple_indirect_blks, set_triple_indirect_blks,
  entry, set_entry,
}
use uwufs.Blockmap.{level_0_blocks, level_1_blocks, level_2_blocks, level_3_blocks}

-- `then` if the operation succeeded, else the given pair: no error leaves this file.
abbrev succeeds : {A B : Type 0} → Res A → (A → B) → B → B
succeeds (ok a) f b = f a
succeeds _ f b = b

-- free_blk(device_fd, cur_no) and its result.
release : (cur_no block_no : ℕ) → Io (ℕ × Bool)
release cur_no block_no =
    handle (free_blk cur_no) λ r. pure (succeeds r (λ _. (block_no, true)) (0, true))

-- Writes the block back with the entry cleared.
clear_entry : (cur_no i block_no : ℕ) → Bytes → Io (ℕ × Bool)
clear_entry cur_no i block_no blk =
    handle (write_blk (set_entry blk i 0) cur_no)
      λ r. pure (succeeds r (λ _. (block_no, false)) (0, false))

-- What is left to do once the child is done with.
settle : (free : Bool) → (cur_no index i block_no : ℕ) → Bytes → Io (ℕ × Bool)
unfolding release clear_entry
settle false cur_no index i block_no blk = pure (block_no, false)
settle true cur_no index i block_no blk =
    if index == 0 then release cur_no block_no else clear_entry cur_no i block_no blk

recursive_remove_dblk : (level cur_no index : ℕ) → Io (ℕ × Bool)
recursive_remove_dblk zero cur_no index = handle (load cur_no) λ r.
    succeeds r
      (λ blk.
        let block_no = entry blk index in
        if index == 0 then release cur_no block_no else clear_entry cur_no index block_no blk)
      (pure (0, false))
recursive_remove_dblk (suc level) cur_no index = handle (load cur_no) λ r.
    succeeds r
      (λ blk. do
        let width = entries_per_blk ^ suc level
        (block_no, free) ← recursive_remove_dblk level (entry blk (index / width)) (index % width)
        settle free cur_no index (index / width) block_no blk)
      (pure (0, false))

-- Returns the block number, or 0, and the inode.
unfoldable pub remove_dblk : Bytes → (index : ℕ) → Io (ℕ × Bytes)
unfolding settle recursive_remove_dblk
remove_dblk inode index =
    if leb level_3_blocks index
    then pure (0, inode)
    else if ltb index level_0_blocks
    then pure (direct_blk inode index, set_direct_blk inode index 0)
    else if ltb index level_1_blocks
    then (do
      (block_no, free) ←
          recursive_remove_dblk 0 (single_indirect_blks inode) (index - level_0_blocks)
      pure (block_no, (if free then set_single_indirect_blks inode 0 else inode)))
    else if ltb index level_2_blocks
    then (do
      (block_no, free) ←
          recursive_remove_dblk 1 (double_indirect_blks inode) (index - level_1_blocks)
      pure (block_no, (if free then set_double_indirect_blks inode 0 else inode)))
    else do
      (block_no, free) ←
          recursive_remove_dblk 2 (triple_indirect_blks inode) (index - level_2_blocks)
      pure (block_no, (if free then set_triple_indirect_blks inode 0 else inode))

-- Ignores whether the block could be freed.
release_blk : (cur_no : ℕ) → Io (Unit {0})
release_blk cur_no = handle (free_blk cur_no) λ _. pure tt

-- The `for` over the entries of an indirect block, with `left` of them to go.
for_entries : (ℕ → ℕ → Io (Unit {0})) → (left i : ℕ) → Bytes → Io (Unit {0})
for_entries visit zero i blk = pure tt
for_entries visit (suc left) i blk = do visit (entry blk i) i; for_entries visit left (i + 1) blk

-- The depth counts the levels of recursion that are left. A block whose range is 512 wide has no
-- children, so from a single, double or triple indirect block 1, 2 or 3 levels are enough.
pub recursive_remove_dblks :
    (depth : ℕ) (start_index end_index : ℕ) → (cur_no cur_left cur_right : ℕ) → Io (Unit {0})
recursive_remove_dblks zero start end cur_no left right = λ d. (crash, d)
recursive_remove_dblks (suc depth) start end cur_no left right =
    let stride = (right - left) / entries_per_blk in
    let children = λ (blk : Bytes).
      for_entries
        (λ child i.
          recursive_remove_dblks depth start end child (left + i * stride)
            (left + (i + 1) * stride))
        entries_per_blk 0 blk in
    let release_cur = if leb start left then release_blk cur_no else pure tt in
    if leb right start || leb end left
    then pure tt
    else if ltb 1 stride
    then handle (load cur_no) (λ r. succeeds r (λ blk. children blk >> release_cur) (pure tt))
    else release_cur

unfoldable pub remove_dblks : Bytes → (start_index end_index : ℕ) → Io (Unit {0})
remove_dblks inode start end = if leb end start then pure tt else do
  recursive_remove_dblks 1 start end (single_indirect_blks inode) level_0_blocks level_1_blocks
  recursive_remove_dblks 2 start end (double_indirect_blks inode) level_1_blocks level_2_blocks
  recursive_remove_dblks 3 start end (triple_indirect_blks inode) level_2_blocks level_3_blocks
