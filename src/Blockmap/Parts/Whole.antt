-- ===== src/Blockmap/Parts/Whole.antt =====
-- append_dblk at any index.
use uwufs.Base.{
  ℕ, ◌-◌, ◌*◌, ◌^◌, ◌≤◌, ◌<◌, inl, inr, refl, sym, ◌∙◌, List, [], length, arith, ltb, ltb→lt,
  not_ltb→le, lt→ltb, lt→not_leb, Bool-cases,
}
use uwufs.Bytes.{Bytes}
use uwufs.Bytes.Fields.{put-outside}
use uwufs.Machine.{Machine}
use uwufs.Layout.{set_direct_blk}
use uwufs.Layout.Laws.{word-put_self, word-put_ne}
use uwufs.Freelist.Chain.{IsFreelist}
use uwufs.Blockmap.{append_dblk}
use uwufs.Blockmap.Append.{get_dblk-direct}
use uwufs.Blockmap.Forest.Append.{append-Outcome}
use uwufs.Blockmap.Parts.{base, root_of}
use uwufs.Blockmap.Parts.File.{IsMap, IsExtended, base-ge, tree_of, part-last}
use uwufs.Blockmap.Parts.Grown.{extended}

IsExtended-direct :
    (d : Machine) (lo hi : ℕ) (ino : Bytes) (index n : ℕ) (xs : List ℕ)
    → IsFreelist d lo hi xs
    → index < 10
    → n < 2 ^ 64
    → IsExtended lo hi xs d ino index n
unfolding append_dblk
IsExtended-direct d lo hi ino index n xs f h small = record {
  ino' = set_direct_blk ino index n;
  device = d;
  fresh = [];
  rest = xs;
  run = rw (lt→not_leb 134480394 index (omega arith), lt→ltb index 10 h) refl;
  split = refl;
  few = omega arith;
  freelist = f;
  map = record {
    trees = λ p _ lt. absurd (omega (arith, base-ge p));
    apart = λ p p' k node _. absurd (omega (arith, base-ge p, node.1));
  };
  new =
      get_dblk-direct (set_direct_blk ino index n) index d h
      ∙ word-put_self ino (8 * index) n small;
  old = λ j lt.
      get_dblk-direct (set_direct_blk ino index n) j d (omega arith)
      ∙ word-put_ne ino (8 * j) (8 * index) n (ground arith)
      ∙ sym (get_dblk-direct ino j d (omega arith));
  nodes = λ p k node. absurd (omega (arith, base-ge p, node.1));
  frame = λ k _ _ _. refl;
  attributes = λ i ge. put-outside 8 ino (8 * index) n i (inr (omega arith));
}

-- On a device that works, with four blocks or more on the free list, for a file of `index` blocks, fewer
-- than the 134480394 of a whole block map, whose indirect blocks are in the data region, not on the free list, and each at one place only:
-- append_dblk at that index succeeds, get_dblk then returns the new block there and at every smaller
-- index what it did before, the indirect blocks of the file are as before with at most three from the
-- front of the free list, and neither another block but the superblock nor a byte of the inode behind
-- its block map has changed.
pub append_dblk-IsExtended :
    (d : Machine) (lo hi : ℕ) (ino : Bytes) (index n : ℕ) (xs : List ℕ)
    → IsFreelist d lo hi xs
    → IsMap lo hi xs d ino index
    → 4 ≤ length xs
    → index < 134480394
    → n < 2 ^ 64
    → IsExtended lo hi xs d ino index n
append_dblk-IsExtended d lo hi ino index n xs f file room lt small =
    elim (Bool-cases (ltb index 10)) [
      | inl e ↦ IsExtended-direct d lo hi ino index n xs f (ltb→lt index 10 e) small
      | inr e ↦
          let (p, at) = tree_of index (not_ltb→le index 10 e) lt in
          extended lo hi xs d ino index n p f file at (
            append-Outcome p d lo hi (root_of p ino) (index - base p) n xs f
              (omega (arith, at.tree)) small
              λ pos. rw (part-last p index at) at (file.trees p at.tree (omega arith)))
    ]
