-- ===== src/File/Map/Contract.antt =====
-- When write_file can be called, and what it then promises.
use uwufs.Base.{
  has, false, true, ◌≢◌, ℕ, ◌+◌, ◌-◌, ◌*◌, ◌/◌, ◌≤◌, ◌<◌, ◌≡◌, ◌⊎◌, List, length, ltb,
  if◌then◌else◌,
}
use uwufs.Bytes.{Bytes}
use uwufs.Machine.{Machine, ok}
use uwufs.Layout.{file_size}
use uwufs.Directory.{blks_of_size}
use uwufs.Itable.Table.{inode_in}
use uwufs.Freelist.Chain.{IsFreelist}
use uwufs.File.Write.{write_file}
use uwufs.File.Read.Aligned.{file_byte}
use uwufs.File.Map.{IsFile, IsFileBlk}

-- Some bytes can be written to the file at `offset`: all blocks of the file are its own, no file block
-- is beyond the last that a block map has, four free blocks are there for each one that the file is to
-- grow by and one more, and the inode is in a block before the data region.
pub record IsWritable (lo hi : ℕ) (xs : List ℕ) (size offset : ℕ) (ino : Bytes) (num : ℕ)
    (d : Machine) : Type 0 where
  pub freelist : IsFreelist d lo hi xs
  pub file : IsFile lo hi xs d ino (blks_of_size (file_size ino))
  pub some_bytes : 0 < size
  pub fits : offset + size ≤ 4096 * 134480394
  pub had_fit : file_size ino ≤ 4096 * 134480394
  pub room : 4 * (blks_of_size (offset + size) - blks_of_size (file_size ino)) + 1 ≤ length xs
  pub in_table : 2 + num / 16 < lo

-- The bytes of a file after `size` bytes of a buffer are written to it from `offset` on: what was
-- asked for is stored, the rest is kept, and zeroes fill a gap behind the blocks that it had.
pub record IsWritten (lo hi : ℕ) (xs : List ℕ) (buf : Bytes) (size offset : ℕ) (ino : Bytes)
    (num : ℕ) (d : Machine) : Type 0 where
  pub ino' : Bytes
  pub device : Machine
  pub rest : List ℕ
  pub run : write_file buf size offset ino num d ≡ (ok size, device)
  pub freelist : IsFreelist device lo hi rest
  pub sized :
      file_size ino'
      ≡ (if ltb (file_size ino) (offset + size) then offset + size else file_size ino)
  pub file : IsFile lo hi rest device ino' (blks_of_size (file_size ino'))
  pub table : (i : ℕ) → i < 256 → inode_in device num i ≡ ino' i
  pub stored : (p : ℕ) → offset ≤ p → p < offset + size → file_byte ino' p device ≡ buf (p - offset)
  pub kept :
      (p : ℕ)
      → p < 4096 * blks_of_size (file_size ino)
      → (p < offset) ⊎ (offset + size ≤ p)
      → file_byte ino' p device ≡ file_byte ino p d
  pub gap :
      (p : ℕ)
      → 4096 * blks_of_size (file_size ino) ≤ p
      → p < 4096 * blks_of_size (file_size ino')
      → (p < offset) ⊎ (offset + size ≤ p)
      → file_byte ino' p device ≡ 0
  pub own :
      (k : ℕ)
      → IsFileBlk device ino' (blks_of_size (file_size ino')) k
      → IsFileBlk d ino (blks_of_size (file_size ino)) k ⊎ (has k xs ≡ true)
  pub fewer : (k : ℕ) → has k xs ≡ false → has k rest ≡ false
  pub frame :
      (k : ℕ)
      → lo ≤ k
      → has k xs ≡ false
      → ¬ IsFileBlk d ino (blks_of_size (file_size ino)) k
      → device.block k ≡ d.block k
  pub mode : (i : ℕ) → 104 ≤ i → i < 106 → ino' i ≡ ino i
  pub others :
      (n i : ℕ) → n ≢ num → 2 + n / 16 < lo → i < 256 → inode_in device n i ≡ inode_in d n i
