-- ===== src/Examples/Shrunk.antt =====
-- The theorem on truncate_file, at a file of 5000 bytes in the blocks 30 and 31.
use uwufs.Base.{ℕ, zero, suc, ◌+◌, ◌<◌, ◌≡◌, refl, false, has, arith}
use uwufs.Bytes.{Bytes, zeros, get, put, poke, blit}
use uwufs.Machine.{Machine, ok, put_block}
use uwufs.Layout.{file_size, set_inode_at, set_direct_blk, set_file_size}
use uwufs.Directory.{blks_of_size}
use uwufs.Itable.Table.{inode_in}
use uwufs.Freelist.Chain.{IsFreelist}
use uwufs.Blockmap.{blk_no_at, get_dblk}
use uwufs.Blockmap.Append.{IsFreelist-put_block}
use uwufs.Blockmap.Parts.File.{base-ge}
use uwufs.File.Write.{truncate_file}
use uwufs.File.Map.{IsFile}
use uwufs.File.Map.Truncated.{IsTruncated, truncate_file-IsTruncated}
use uwufs.Examples.Trees.{five, roomy, roomy-IsFreelist}

abbrev short_file : Bytes
short_file = set_file_size (set_direct_blk (set_direct_blk zeros 0 30) 1 31) 5000

-- Its inode has the number 5.
abbrev holding : Machine
holding = put_block roomy 2 (set_inode_at zeros 5 short_file 256)

holding-IsFreelist : IsFreelist holding 6 64 five
holding-IsFreelist =
    IsFreelist-put_block 2 (set_inode_at zeros 5 short_file 256) roomy-IsFreelist (omega arith) refl

size-holding : file_size (inode_in holding 5) ≡ 5000
unfolding get put poke blit put_block
size-holding = refl

at-holding : (j : ℕ) → j < 2 → get_dblk (inode_in holding 5) j holding ≡ 30 + j
unfolding get put poke blit put_block get_dblk blk_no_at
at-holding zero lt = refl
at-holding (suc zero) lt = refl
at-holding (suc (suc j)) lt = absurd (omega arith)

not_free : (j : ℕ) → j < 2 → has (30 + j) five ≡ false
not_free zero lt = refl
not_free (suc zero) lt = refl
not_free (suc (suc j)) lt = absurd (omega arith)

holding-IsFile : IsFile 6 64 five holding (inode_in holding 5) 2
holding-IsFile = record {
  map = record {
    trees = λ p h lt. absurd (omega (arith, base-ge p));
    apart = λ p p' k n n'. absurd (omega (arith, n.1, base-ge p));
  };
  taken = λ j lt. rw (at-holding j lt) (omega arith, omega arith, not_free j lt);
  distinct = λ i j li lj e. omega (arith, at-holding i li, at-holding j lj, e);
  own = λ j p lt node. absurd (omega (arith, node.1, base-ge p));
}

truncate_file-IsTruncated_example :
    (d' : Machine) × (truncate_file 5 holding ≡ (ok tt, d'))
    × IsTruncated 6 64 five 5 (blks_of_size (file_size (inode_in holding 5))) holding d'
truncate_file-IsTruncated_example =
    truncate_file-IsTruncated holding 6 64 5 five holding-IsFreelist
      (rw size-holding holding-IsFile) (rw size-holding (omega arith)) (omega arith)
