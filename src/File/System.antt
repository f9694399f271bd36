-- ===== src/File/System.antt =====
-- All files of a device at once.
pub mod Update
pub mod Calls
pub mod Requests
pub mod Reads
pub mod History
use uwufs.Base.{ℕ, ◌+◌, ◌*◌, ◌/◌, ◌≤◌, ◌<◌, ◌≡◌, List}
use uwufs.Machine.{Machine}
use uwufs.Layout.{file_size}
use uwufs.Directory.{blks_of_size}
use uwufs.Itable.Table.{inode_in}
use uwufs.Freelist.Chain.{IsFreelist}
use uwufs.File.Map.{IsFile, IsFileBlk}

-- How many data blocks the file of an inode of the table has.
abbrev pub blks_of : Machine → ℕ → ℕ
blks_of d n = blks_of_size (file_size (inode_in d n))

-- A block, for data or for the block map, of the file of an inode.
abbrev pub IsBlkOf : Machine → ℕ → ℕ → Type 0
IsBlkOf d n k = IsFileBlk d (inode_in d n) (blks_of d n) k

-- The files of the inodes in use have all their blocks as their own: none is on the free list, and no
-- block is part of two files or of one file at two places.
pub record IsSystem (lo hi : ℕ) (xs : List ℕ) (InUse : ℕ → Type 0) (d : Machine) : Type 0 where
  pub freelist : IsFreelist d lo hi xs
  pub file : (n : ℕ) → InUse n → IsFile lo hi xs d (inode_in d n) (blks_of d n)
  pub fits : (n : ℕ) → InUse n → file_size (inode_in d n) ≤ 4096 * 134480394
  pub in_table : (n : ℕ) → InUse n → 2 + n / 16 < lo
  pub apart : (n m k : ℕ) → InUse n → InUse m → IsBlkOf d n k → IsBlkOf d m k → n ≡ m
