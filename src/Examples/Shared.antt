-- ===== src/Examples/Shared.antt =====
-- The theorems on all files of a device, at one with two files, 5000 bytes in the blocks 30 and 31 and
-- 100 bytes in the block 32, and with the root directory in the block 33.
use uwufs.Base.{
  leb, if◌then◌else◌, ℕ, zero, suc, ◌+◌, ◌*◌, ◌/◌, ◌≤◌, ◌<◌, ◌≡◌, ◌⊎◌, inl, inr, refl, sym, ◌∙◌,
  false, has, arith,
}
use uwufs.Bytes.{Bytes, zeros, get, put, poke, blit}
use uwufs.Machine.{Machine, put_block}
use uwufs.Layout.{
  file_size, set_inode_at, set_direct_blk, set_file_size, set_file_mode, set_entry_inode_num,
}
use uwufs.Itable.Table.{inode_in}
use uwufs.Freelist.Chain.{IsFreelist}
use uwufs.Blockmap.{blk_no_at, get_dblk}
use uwufs.Blockmap.Append.{IsFreelist-put_block}
use uwufs.Blockmap.Parts.File.{base-ge}
use uwufs.File.Map.{IsFile, IsFileBlk}
use uwufs.File.System.{blks_of, IsBlkOf, IsSystem}
use uwufs.Examples.Trees.{five, roomy, roomy-IsFreelist}

abbrev long_file : Bytes
long_file = set_file_size (set_direct_blk (set_direct_blk zeros 0 30) 1 31) 5000

abbrev short_file : Bytes
short_file = set_file_mode (set_file_size (set_direct_blk zeros 0 32) 100) 4096

abbrev root_dir : Bytes
root_dir = set_file_mode (set_file_size (set_direct_blk zeros 0 33) 4096) 8192

-- The root directory has one entry, for the second file.
abbrev entries : Bytes
entries = poke (set_entry_inode_num zeros 0 6) 0 b'a'

-- The inodes of the two files have the numbers 5 and 6.
abbrev pub shared : Machine
shared = put_block (put_block roomy 33 entries) 2 (
    set_inode_at (set_inode_at (set_inode_at zeros 5 long_file 256) 6 short_file 256) 2 root_dir
      256)

abbrev pub InUse : ℕ → Type 0
InUse n = (n ≡ 2) ⊎ (n ≡ 5) ⊎ (n ≡ 6)

pub shared-IsFreelist : IsFreelist shared 6 64 five
shared-IsFreelist =
    IsFreelist-put_block 2 _ (IsFreelist-put_block 33 entries roomy-IsFreelist (omega arith) refl)
      (omega arith) refl

size-long : file_size (inode_in shared 5) ≡ 5000
unfolding get put poke blit put_block
size-long = refl

pub size-short : file_size (inode_in shared 6) ≡ 100
unfolding get put poke blit put_block
size-short = refl

size-root : file_size (inode_in shared 2) ≡ 4096
unfolding get put poke blit put_block
size-root = refl

at-long : (j : ℕ) → j < 2 → get_dblk (inode_in shared 5) j shared ≡ 30 + j
unfolding get put poke blit put_block get_dblk blk_no_at
at-long zero lt = refl
at-long (suc zero) lt = refl
at-long (suc (suc j)) lt = absurd (omega arith)

at-short : (j : ℕ) → j < 1 → get_dblk (inode_in shared 6) j shared ≡ 32 + j
unfolding get put poke blit put_block get_dblk blk_no_at
at-short zero lt = refl
at-short (suc j) lt = absurd (omega arith)

at-root : (j : ℕ) → j < 1 → get_dblk (inode_in shared 2) j shared ≡ 33 + j
unfolding get put poke blit put_block get_dblk blk_no_at
at-root zero lt = refl
at-root (suc j) lt = absurd (omega arith)

not_free : (k : ℕ) → 11 ≤ k → has k five ≡ false
not_free k ge = ground arith

-- A file without indirect blocks, in a row of blocks.
module _ (inode : Bytes) (count first : ℕ) (few : count ≤ 10) (ge : 11 ≤ first)
    (le : first + count ≤ 64) (at : (j : ℕ) → j < count → get_dblk inode j shared ≡ first + j) where
  row-IsFile : IsFile 6 64 five shared inode count
  row-IsFile = record {
    map = record {
      trees = λ p h lt. absurd (omega (arith, base-ge p));
      apart = λ p p' k n n'. absurd (omega (arith, n.1, base-ge p));
    };
    taken = λ j lt. rw (at j lt) (omega arith, omega arith, not_free (first + j) (omega arith));
    distinct = λ i j li lj e. omega (arith, at i li, at j lj, e);
    own = λ j p lt node. absurd (omega (arith, node.1, base-ge p));
  }

  IsFileBlk-row : (k : ℕ) → IsFileBlk shared inode count k → (first ≤ k) × (k < first + count)
  IsFileBlk-row k (inl (j, lt, e)) = (omega (arith, at j lt, e), omega (arith, at j lt, e))
  IsFileBlk-row k (inr (p, node)) = absurd (omega (arith, node.1, base-ge p))

-- Which inode has the block.
abbrev owner : ℕ → ℕ
owner k = if leb 33 k then 2 else if leb 32 k then 6 else 5

owner-blk : (n k : ℕ) → InUse n → IsBlkOf shared n k → n ≡ owner k
owner-blk n k (inl e) b =
    let (ge, lt) =
      IsFileBlk-row (inode_in shared 2) 1 33 (omega arith) (omega arith) (omega arith) at-root k
        (rw size-root at (rw e at b)) in
    ground arith
owner-blk n k (inr (inl e)) b =
    let (ge, lt) =
      IsFileBlk-row (inode_in shared 5) 2 30 (omega arith) (omega arith) (omega arith) at-long k
        (rw size-long at (rw e at b)) in
    ground arith
owner-blk n k (inr (inr e)) b =
    let (ge, lt) =
      IsFileBlk-row (inode_in shared 6) 1 32 (omega arith) (omega arith) (omega arith) at-short k
        (rw size-short at (rw e at b)) in
    ground arith

file-shared : (n : ℕ) → InUse n → IsFile 6 64 five shared (inode_in shared n) (blks_of shared n)
file-shared n (inl e) =
    rw (e, size-root)
      (row-IsFile (inode_in shared 2) 1 33 (omega arith) (omega arith) (omega arith) at-root)
file-shared n (inr (inl e)) =
    rw (e, size-long)
      (row-IsFile (inode_in shared 5) 2 30 (omega arith) (omega arith) (omega arith) at-long)
file-shared n (inr (inr e)) =
    rw (e, size-short)
      (row-IsFile (inode_in shared 6) 1 32 (omega arith) (omega arith) (omega arith) at-short)

fits-shared : (n : ℕ) → InUse n → file_size (inode_in shared n) ≤ 4096 * 134480394
fits-shared n (inl e) = rw (e, size-root) (omega arith)
fits-shared n (inr (inl e)) = rw (e, size-long) (omega arith)
fits-shared n (inr (inr e)) = rw (e, size-short) (omega arith)

in_table-shared : (n : ℕ) → InUse n → 2 + n / 16 < 6
in_table-shared n used = ground arith

pub shared-IsSystem : IsSystem 6 64 five InUse shared
shared-IsSystem = record {
  freelist = shared-IsFreelist;
  file = file-shared;
  fits = fits-shared;
  in_table = in_table-shared;
  apart = λ n m k used used_m b b'. owner-blk n k used b ∙ sym (owner-blk m k used_m b');
}
