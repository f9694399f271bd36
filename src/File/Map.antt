-- ===== src/File/Map.antt =====
-- The blocks of a file, both those with its data and those of its block map, as its own.
pub mod Keep
pub mod Step
pub mod Append
pub mod Store
pub mod Loop
pub mod Body
pub mod Table
pub mod Contract
pub mod Written
pub mod Mapped
pub mod Cut
pub mod Truncated
pub mod Inode
use uwufs.Base.{ℕ, ◌<◌, ◌≡◌, ◌⊎◌, List}
use uwufs.Bytes.{Bytes}
use uwufs.Machine.{Machine}
use uwufs.Blockmap.{get_dblk}
use uwufs.Blockmap.Forest.{IsTaken}
use uwufs.Blockmap.Parts.File.{IsMap, IsMapNode}

-- The file's `count` data blocks are in the data region and not on the free list, they are all
-- different, and none is an indirect block of the file.
pub record IsFile (lo hi : ℕ) (xs : List ℕ) (d : Machine) (ino : Bytes) (count : ℕ) : Type 0 where
  pub map : IsMap lo hi xs d ino count
  pub taken : (j : ℕ) → j < count → IsTaken lo hi xs (get_dblk ino j d)
  pub distinct : (i j : ℕ) → i < count → j < count → get_dblk ino i d ≡ get_dblk ino j d → i ≡ j
  pub own : (j p : ℕ) → j < count → ¬ IsMapNode d ino count p (get_dblk ino j d)

-- A data block of the file, and a block that it takes up for either purpose.
abbrev pub IsData : Machine → Bytes → (count : ℕ) → ℕ → Type 0
IsData d ino count k = (j : ℕ) × (j < count) × (get_dblk ino j d ≡ k)

abbrev pub IsFileBlk : Machine → Bytes → (count : ℕ) → ℕ → Type 0
IsFileBlk d ino count k = IsData d ino count k ⊎ ((p : ℕ) × IsMapNode d ino count p k)
