-- ===== src/Blockmap/Forest/Grow.antt =====
-- One more index in a tree: how the entry of a block takes over what was done below it.
pub mod Entries
pub mod Inner
pub mod Opened
use uwufs.Base.{
  ℕ, zero, suc, ◌+◌, ◌-◌, ◌*◌, ◌/◌, ◌%◌, ◌^◌, ◌≤◌, ◌<◌, ◌≡◌, ◌≢◌, ◌⊎◌, inl, inr, refl, sym, ap,
  subst, ◌∙◌, true, false, List, has, arith,
}
use uwufs.Bytes.{Bytes}
use uwufs.Layout.{entry}
use uwufs.Blockmap.Forest.{IsNode, IsInner, IsTree, IsForest, tree_at}
use uwufs.Blockmap.Forest.Count.{width}

-- An indirect block of the tree, if the tree has an index at all.
abbrev pub IsOld : (level : ℕ) → (ℕ → Bytes) → (root m : ℕ) → ℕ → Type 0
IsOld level b root m k = (0 < m) × IsNode level b root m k

-- The tree under `root` with `m` indices is now the tree under `root'` with one index more, where the
-- block number is `n`. Its new indirect blocks are `fresh`, the free list is `ys`, and only indirect
-- blocks and the superblock changed.
pub record IsGrown (lo hi level : ℕ) (b : ℕ → Bytes) (root m n : ℕ) (fresh ys : List ℕ)
    (b' : ℕ → Bytes) (root' : ℕ) : Type 0 where
  pub tree : IsTree lo hi ys level b' root' (m + 1)
  pub new : tree_at level b' root' m ≡ n
  pub old : (j : ℕ) → j < m → tree_at level b' root' j ≡ tree_at level b root j
  pub nodes :
      (k : ℕ) → IsNode level b' root' (m + 1) k → IsOld level b root m k ⊎ (has k fresh ≡ true)
  pub frame : (k : ℕ) → k ≢ 0 → ¬ IsOld level b root m k → has k fresh ≡ false → b' k ≡ b k

-- The same for the block `r`, which had the content `blk` and names the trees with the `m` indices.
pub record IsGrownBlk (lo hi level : ℕ) (b : ℕ → Bytes) (blk : Bytes) (r m n : ℕ)
    (fresh ys : List ℕ) (b' : ℕ → Bytes) : Type 0 where
  pub forest : IsForest lo hi ys level b' (b' r) r (m + 1)
  pub new : tree_at (suc level) b' r m ≡ n
  pub old :
      (j : ℕ)
      → j < m
      → tree_at (suc level) b' r j ≡ tree_at level b (entry blk (j / width level)) (j % width level)
  pub inner :
      (k : ℕ) → IsInner level b' (b' r) (m + 1) k → IsInner level b blk m k ⊎ (has k fresh ≡ true)
  pub frame : (k : ℕ) → k ≢ 0 → k ≢ r → ¬ IsInner level b blk m k → has k fresh ≡ false → b' k ≡ b k
