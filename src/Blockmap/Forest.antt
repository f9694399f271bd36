-- ===== src/Blockmap/Forest.antt =====
-- The blocks that a tree of indirect blocks takes up, and what it means that they are its own.
pub mod Count
pub mod Frame
pub mod Grow
pub mod Levels
pub mod Append
use uwufs.Base.{
  ℕ, zero, suc, ◌+◌, ◌-◌, ◌*◌, ◌/◌, ◌%◌, ◌^◌, ◌≤◌, ◌<◌, ◌≡◌, ◌≢◌, ◌⊎◌, inl, inr, refl, sym, ap, ◌∙◌,
  false, List, has, min, arith,
}
use uwufs.Bytes.{Bytes}
use uwufs.Layout.{entry}
use uwufs.Blockmap.Forest.Count.{width, width-pos, count, div-lt, rem-lt_count}

-- The block number at an index of the tree under a root.
unfoldable pub tree_at : (level : ℕ) → (ℕ → Bytes) → (root index : ℕ) → ℕ
tree_at zero b root i = entry (b root) i
tree_at (suc level) b root i = tree_at level b (entry (b root) (i / width level)) (i % width level)

-- `k` is one of the indirect blocks that the first `n` indices of the tree lie under.
abbrev pub IsNode : (level : ℕ) → (ℕ → Bytes) → (root n : ℕ) → ℕ → Type 0
IsNode zero b root n k = k ≡ root
IsNode (suc level) b root n k =
    (k ≡ root)
    ⊎ ((i : ℕ) × (i * width level < n)
        × IsNode level b (entry (b root) i) (count (width level) n i) k)

-- The same for the trees that the entries of a block name.
abbrev pub IsInner : (level : ℕ) → (ℕ → Bytes) → (blk : Bytes) → (n : ℕ) → ℕ → Type 0
IsInner level b blk n k =
    (i : ℕ) × (i * width level < n) × IsNode level b (entry blk i) (count (width level) n i) k

-- A block of the data region that is not on the free list.
abbrev pub IsTaken : (lo hi : ℕ) → List ℕ → ℕ → Type 0
IsTaken lo hi xs k = (lo ≤ k) × (k < hi) × (has k xs ≡ false)

-- The trees that the entries of the block `root` name, with the content `blk`, do not share a block
-- with each other nor with `root`.
abbrev pub IsApart :
    (tree : (root n : ℕ) → Type 0) (node : (root n k : ℕ) → Type 0) (w : ℕ)
    → (blk : Bytes) → (root n : ℕ) → Type 0
IsApart tree node w blk root n =
    ((i : ℕ) → i * w < n → tree (entry blk i) (count w n i))
    × ((i : ℕ) → i * w < n → ¬ node (entry blk i) (count w n i) root)
    × ((i j k : ℕ)
        → i * w < n
        → j * w < n
        → node (entry blk i) (count w n i) k
        → node (entry blk j) (count w n j) k
        → i ≡ j)

-- The indirect blocks are taken, and no two places of the tree share one.
abbrev pub IsTree : (lo hi : ℕ) → List ℕ → (level : ℕ) → (ℕ → Bytes) → (root n : ℕ) → Type 0
IsTree lo hi xs zero b root n = IsTaken lo hi xs root
IsTree lo hi xs (suc level) b root n =
    IsTaken lo hi xs root
    × IsApart (IsTree lo hi xs level b) (IsNode level b) (width level) (b root) root n

abbrev pub IsForest :
    (lo hi : ℕ) → List ℕ → (level : ℕ) → (ℕ → Bytes) → (blk : Bytes) → (root n : ℕ) → Type 0
IsForest lo hi xs level b blk root n =
    IsApart (IsTree lo hi xs level b) (IsNode level b) (width level) blk root n

-- Two devices that hold the same indirect blocks hold the same tree.
module _ (b c : ℕ → Bytes) where
  abbrev pub Same : (level root n : ℕ) → Type 0
  Same level root n = (k : ℕ) → IsNode level b root n k → c k ≡ b k

  pub Same-entry :
      (level root n i : ℕ)
      → Same (suc level) root n
      → i * width level < n
      → Same level (entry (b root) i) (count (width level) n i)
  Same-entry level root n i s lt k m = s k (inr (i, lt, m))

  pub IsNode-Same :
      (level root n k : ℕ) → Same level root n → IsNode level c root n k → IsNode level b root n k
  IsNode-Same zero root n k s m = m
  IsNode-Same (suc level) root n k s (inl e) = inl e
  IsNode-Same (suc level) root n k s (inr (i, lt, m)) =
      let m' = rw (s root (inl refl)) at m in
      inr (i, lt, IsNode-Same level _ _ k (Same-entry level root n i s lt) m')

  pub tree_at-Same :
      (level root n i : ℕ)
      → Same level root n
      → i < n
      → tree_at level c root i ≡ tree_at level b root i
  unfolding tree_at
  tree_at-Same zero root n i s h = rw (s root refl) refl
  tree_at-Same (suc level) root n i s h = rw (s root (inl refl)) (
      tree_at-Same level _ (count (width level) n (i / width level)) (i % width level)
        (Same-entry level root n (i / width level) s (div-lt (width level) n i (width-pos level) h))
        (rem-lt_count (width level) n i (width-pos level) h))
