-- ===== src/File/Remove.antt =====
-- remove_file of src/uwufs/file_operations.c, with the functions that free trees of indirect blocks.
use uwufs.Base.{ℕ, zero, suc, ◌+◌, leb, ltb, if◌then◌else◌}
use uwufs.Bytes.{Bytes}
use uwufs.Machine.{Io, pure, ◌>>=◌, ◌>>◌}
use uwufs.Block.{load}
use uwufs.Freelist.{free_blk}
use uwufs.Layout.{
  entries_per_blk, reserved_space, direct_blocks, direct_blk, single_indirect_blks,
  double_indirect_blks, triple_indirect_blks, f_type_free, set_file_mode, entry,
}

-- The `for` over the entries of an indirect block, with `left` to go. Entries that are no data blocks
-- are skipped.
unfoldable pub free_entries : (ℕ → Io (Unit {0})) → (left i : ℕ) → Bytes → Io (Unit {0})
free_entries release zero i blk = pure tt
free_entries release (suc left) i blk = do
  if leb (entry blk i) (1 + reserved_space) then pure tt else release (entry blk i)
  free_entries release left (i + 1) blk

unfoldable pub free_indirect_blk : Bytes → Io (Unit {0})
unfolding free_entries
free_indirect_blk = free_entries free_blk entries_per_blk 0

unfoldable pub free_double_indirect_blk : Bytes → Io (Unit {0})
unfolding free_indirect_blk
free_double_indirect_blk =
    free_entries (λ n. load n >>= free_indirect_blk >> free_blk n) entries_per_blk 0

unfoldable pub free_triple_indirect_blk : Bytes → Io (Unit {0})
unfolding free_double_indirect_blk
free_triple_indirect_blk =
    free_entries (λ n. load n >>= free_double_indirect_blk >> free_blk n) entries_per_blk 0

-- A tree of indirect blocks of the inode, with its root: `free` frees what the root names.
free_tree : (Bytes → Io (Unit {0})) → (root : ℕ) → Io (Unit {0})
free_tree free root =
    if ltb root (1 + reserved_space) then pure tt else (do blk ← load root; free blk; free_blk root)

-- The `for` over the direct blocks, with `left` to go.
unfoldable pub free_direct : (left i : ℕ) → Bytes → Io (Unit {0})
free_direct zero i inode = pure tt
free_direct (suc left) i inode = do
  if ltb (direct_blk inode i) (1 + reserved_space) then pure tt else free_blk (direct_blk inode i)
  free_direct left (i + 1) inode

-- The inode, marked as free.
unfoldable pub remove_file : Bytes → Io Bytes
unfolding free_triple_indirect_blk free_tree free_direct
remove_file inode = do
  free_tree free_triple_indirect_blk (triple_indirect_blks inode)
  free_tree free_double_indirect_blk (double_indirect_blks inode)
  free_tree free_indirect_blk (single_indirect_blks inode)
  free_direct direct_blocks 0 inode
  pure (set_file_mode inode f_type_free)
