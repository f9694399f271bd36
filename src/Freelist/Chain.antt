-- ===== src/Freelist/Chain.antt =====
-- The abstract free list: the blocks on the list, the next one to be handed out first.
use uwufs.Base.{ℕ, ◌+◌, ◌≤◌, ◌<◌, ◌≡◌, false, List, [], ◌∷◌, length, has}
use uwufs.Bytes.{Bytes}
use uwufs.Machine.{Machine, Works}
use uwufs.Layout.{next_free_blk}
use uwufs.Layout.Super.{freelist_start, freelist_total_size, freelist_head, free_blks_left}

-- From the block number `h` the links lead through the distinct blocks `xs` of the region to 0.
abbrev pub Chain : (ℕ → Bytes) → (lo hi : ℕ) → ℕ → List ℕ → Type 0
Chain blk lo hi h [] = h ≡ 0
Chain blk lo hi h (x ∷ xs) =
    (h ≡ x) × (lo ≤ x) × (x < hi) × (has x xs ≡ false) × Chain blk lo hi (next_free_blk (blk x)) xs

-- The superblock says that the blocks from `lo` up to `hi` are for data, and they lie on the device.
pub record IsRegion (d : Machine) (lo hi : ℕ) : Type 0 where
  pub works : Works d
  pub behind_super : 0 < lo
  pub ordered : lo ≤ hi
  pub within : hi ≤ d.size
  pub start : freelist_start (d.block 0) ≡ lo
  pub extent : lo + freelist_total_size (d.block 0) ≡ hi

-- The free list of the device is `xs`. One of its blocks, the last, is a buffer that is never handed
-- out, so the counter of the superblock is one less.
pub record IsFreelist (d : Machine) (lo hi : ℕ) (xs : List ℕ) : Type 0 where
  pub region : IsRegion d lo hi
  pub open region use *
  pub chain : Chain d.block lo hi (freelist_head (d.block 0)) xs
  pub count : free_blks_left (d.block 0) + 1 ≡ length xs
