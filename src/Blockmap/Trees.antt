-- ===== src/Blockmap/Trees.antt =====
-- DataBlockIterator::next reads trees of indirect blocks.
use uwufs.Base.{ℕ, zero, suc, ◌+◌, ◌/◌, ◌%◌, ◌^◌, ◌<◌, ◌≡◌, ap, arith, lt→ltb, le→not_ltb}
use uwufs.Bytes.{Bytes}
use uwufs.Machine.{Machine}
use uwufs.Block.{peek}
use uwufs.Layout.{entry, single_indirect_blks, double_indirect_blks, triple_indirect_blks}
use uwufs.Blockmap.{blk_no_at, get_dblk}

-- The block number at an index of the tree of this level under a root: the entry of the root that the
-- index lies under, and then the rest of the index under that.
abbrev pub tree_blk : (level : ℕ) → Machine → (root index : ℕ) → ℕ
tree_blk zero d root i = entry (peek root d) i
tree_blk (suc level) d root i =
    tree_blk level d (entry (peek root d) (i / 512 ^ suc level)) (i % 512 ^ suc level)

-- Behind the ten direct blocks get_dblk returns the blocks of the three trees in order: 512 of the
-- single indirect block, then 512 ^ 2 of the double and 512 ^ 3 of the triple one.
pub get_dblk-tree_blk :
    (ino : Bytes) (i : ℕ) (d : Machine)
    → (i < 512 → get_dblk ino (10 + i) d ≡ tree_blk 0 d (single_indirect_blks ino) i)
      × (i < 512 ^ 2 → get_dblk ino (522 + i) d ≡ tree_blk 1 d (double_indirect_blks ino) i)
      × (i < 512 ^ 3 → get_dblk ino (262666 + i) d ≡ tree_blk 2 d (triple_indirect_blks ino) i)
unfolding get_dblk blk_no_at
get_dblk-tree_blk ino i d = (
  λ h.
      rw (le→not_ltb (10 + i) 10 (omega arith), lt→ltb (10 + i) 522 (omega arith))
        (ap (λ k. tree_blk 0 d (single_indirect_blks ino) k) (omega arith)),
  λ h.
      rw
        (
          le→not_ltb (522 + i) 10 (omega arith),
          le→not_ltb (522 + i) 522 (omega arith),
          lt→ltb (522 + i) 262666 (omega arith),
        )
        (ap (λ k. tree_blk 1 d (double_indirect_blks ino) k) (omega arith)),
  λ h.
      rw
        (
          le→not_ltb (262666 + i) 10 (omega arith),
          le→not_ltb (262666 + i) 522 (omega arith),
          le→not_ltb (262666 + i) 262666 (omega arith),
          lt→ltb (262666 + i) 134480394 (omega arith),
        )
        (ap (λ k. tree_blk 2 d (triple_indirect_blks ino) k) (omega arith)),
)
