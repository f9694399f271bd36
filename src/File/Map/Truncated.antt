-- ===== src/File/Map/Truncated.antt =====
-- truncate_file gives all blocks of a file back.
use uwufs.Base.{
  ℕ, ◌+◌, ◌*◌, ◌/◌, ◌%◌, ◌≤◌, ◌<◌, ◌≡◌, ◌≢◌, ◌⊎◌, inl, inr, refl, sym, ap, ◌∙◌, true, List, has,
  arith, ◌==◌, if◌then◌else◌, Bool, eq→==, ne→not_==,
}
use uwufs.Bytes.{Bytes, zeros, blit}
use uwufs.Bytes.Fields.{get-cong, put-outside}
use uwufs.Bytes.Blit.{blit-start, blit-outside}
use uwufs.Machine.{Machine, ok}
use uwufs.Block.Access.{block-put_block_ne}
use uwufs.Layout.{file_size, set_file_size, inode_at}
use uwufs.Layout.Laws.{word-put_self}
use uwufs.Directory.{blks_of_size}
use uwufs.Itable.Table.{inode_in, written, read_inode-ok, write_inode-ok, inode_in-write}
use uwufs.Freelist.Chain.{IsFreelist}
use uwufs.Freelist.Gain.{IsFreed}
use uwufs.File.Map.Keep.{IsFileBlk-IsTaken}
use uwufs.Blockmap.Append.{IsFreelist-put_block}
use uwufs.Blockmap.Remove.{remove_dblks}
use uwufs.File.Write.{free_blks, truncate_file}
use uwufs.File.Map.{IsFile, IsFileBlk}
use uwufs.File.Map.Cut.{free_blks-remove_dblks}
use uwufs.File.Map.Inode.{IsSameMap, IsSameMap-sym, IsFile-same, IsFileBlk-same}
use uwufs.File.Map.Table.{Chain-before}

-- The file of the inode `num` has lost its `count` blocks: exactly these were put on the free list.
pub record IsTruncated (lo hi : ℕ) (xs : List ℕ) (num count : ℕ) (d d' : Machine) : Type 0 where
  pub free : List ℕ
  pub freelist : IsFreelist d' lo hi free
  pub only : (k : ℕ) → has k free ≡ true → (has k xs ≡ true) ⊎ IsFileBlk d (inode_in d num) count k
  pub old : (k : ℕ) → has k xs ≡ true → has k free ≡ true
  pub new : (k : ℕ) → IsFileBlk d (inode_in d num) count k → has k free ≡ true
  pub frame : (k : ℕ) → lo ≤ k → ¬ IsFileBlk d (inode_in d num) count k → d'.block k ≡ d.block k
  pub no_size : file_size (inode_in d' num) ≡ 0
  pub no_blocks : (i : ℕ) → i < 104 → inode_in d' num i ≡ 0
  pub kept :
      (i : ℕ) → (104 ≤ i) × (i < 106) ⊎ (114 ≤ i) × (i < 256) → inode_in d' num i ≡ inode_in d num i
  pub others : (n i : ℕ) → n ≢ num → 2 + n / 16 < lo → i < 256 → inode_in d' n i ≡ inode_in d n i

module _ (d : Machine) (lo hi num : ℕ) (xs : List ℕ) (f : IsFreelist d lo hi xs)
    (file : IsFile lo hi xs d (inode_in d num) (blks_of_size (file_size (inode_in d num))))
    (fits : file_size (inode_in d num) ≤ 4096 * 134480394) (in_table : 2 + num / 16 < lo) where
  abbrev ino : Bytes
  ino = inode_at d.stack (d.block (2 + num / 16)) (num % 16)

  read-same : (i : ℕ) → i < 256 → ino i ≡ inode_in d num i
  read-same i lt = blit-start d.stack (d.block (2 + num / 16)) (256 * (num % 16)) 256 i lt

  same_map : IsSameMap (inode_in d num) ino
  same_map k lt = read-same k (omega arith)

  same_size : file_size ino ≡ file_size (inode_in d num)
  same_size = get-cong 8 ino (inode_in d num) 106 (λ k ge lt. read-same k (omega arith))

  abbrev count : ℕ
  count = blks_of_size (file_size (inode_in d num))

  count-eq :
      (if file_size ino % 4096 == 0 then file_size ino / 4096 else file_size ino / 4096 + 1) ≡ count
  count-eq = rw same_size (rounded (file_size (inode_in d num)) fits)
    where
      rounded :
          (s : ℕ)
          → s ≤ 4096 * 134480394
          → (if s % 4096 == 0 then s / 4096 else s / 4096 + 1) ≡ blks_of_size s
      rounded s h = ground arith

  -- The blocks are freed.
  freed :
      (e : Machine) × (e' : Machine) × (free_blks count ino d ≡ (ok tt, e))
      × (remove_dblks ino 0 count e ≡ (ok tt, e'))
      × IsFreed lo hi xs (IsFileBlk d ino count) d e'
  freed =
      free_blks-remove_dblks lo hi xs d ino count f (IsFile-same (inode_in d num) ino same_map file)
        (omega (arith, fits))

  abbrev e : Machine
  e = freed.1

  abbrev r : IsFreed lo hi xs (IsFileBlk d ino count) d e
  r = freed.4

  abbrev ino' : Bytes
  ino' = set_file_size (blit ino 0 zeros 0 104) 0

  abbrev end : Machine
  end = written e num 256 ino'

  run : truncate_file num d ≡ (ok tt, end)
  unfolding truncate_file
  run =
      rw
        (
          read_inode-ok num f.works (omega (arith, f.ordered, f.within)),
          count-eq,
          freed.2,
          freed.3,
          write_inode-ok num r.freelist.works (omega (arith, r.freelist.ordered, r.freelist.within))
              ino' 256,
        )
        refl

  -- What is a block of the file by the inode that was read is one by the inode on the device.
  blk-to : (k : ℕ) → IsFileBlk d ino count k → IsFileBlk d (inode_in d num) count k
  blk-to = IsFileBlk-same (inode_in d num) ino same_map d count

  blk-from : (k : ℕ) → IsFileBlk d (inode_in d num) count k → IsFileBlk d ino count k
  blk-from =
      IsFileBlk-same ino (inode_in d num) (IsSameMap-sym (inode_in d num) ino same_map) d count

  -- No block of the file is in the inode table.
  above : (k : ℕ) → IsFileBlk d (inode_in d num) count k → lo ≤ k
  above k b = (IsFileBlk-IsTaken file k b).0

  -- The blocks before the data region are those of the device before, but for the superblock.
  table-kept : (k : ℕ) → 0 < k → k < lo → e.block k ≡ d.block k
  table-kept k pos lt = r.frame k (omega arith) (λ b. absurd (omega (arith, above k (blk-to k b))))

  inodes-end :
      (n i : ℕ)
      → 2 + n / 16 < lo
      → i < 256
      → inode_in end n i ≡ (if num == n then ino' i else inode_in d n i)
  inodes-end n i lt small =
      inode_in-write e num n i ino' small
      ∙ ap (λ (b : Bytes). if num == n then ino' i else b (256 * (n % 16) + i))
          (table-kept (2 + n / 16) (omega arith) lt)

  inode-end : (i : ℕ) → i < 256 → inode_in end num i ≡ ino' i
  inode-end i small =
      inodes-end num i in_table small
      ∙ ap (λ (c : Bool). if c then ino' i else inode_in d num i) (eq→== num num refl)

  is_truncated : IsTruncated lo hi xs num count d end
  is_truncated = record {
    free = r.free;
    freelist =
        IsFreelist-put_block (2 + num / 16) _ r.freelist (omega arith)
          (Chain-before e.block lo hi (2 + num / 16) r.free _ r.freelist.chain in_table);
    only = λ k h. elim (r.only k h) [ inl a ↦ inl a | inr b ↦ inr (blk-to k b) ];
    old = r.old;
    new = λ k b. r.new k (blk-from k b);
    frame = λ k ge out.
        block-put_block_ne e (2 + num / 16) k _ (omega arith)
        ∙ r.frame k (omega (arith, f.behind_super)) (λ b. out (blk-to k b));
    no_size =
        get-cong 8 (inode_in end num) ino' 106 (λ k ge lt. inode-end k (omega arith))
        ∙ word-put_self (blit ino 0 zeros 0 104) 106 0 (omega arith);
    no_blocks = λ i lt.
        inode-end i (omega arith)
        ∙ put-outside 8 (blit ino 0 zeros 0 104) 106 0 i (inl (omega arith))
        ∙ blit-start ino zeros 0 104 i lt;
    kept = λ i out.
        inode-end i (omega arith)
        ∙ put-outside 8 (blit ino 0 zeros 0 104) 106 0 i (ground arith)
        ∙ blit-outside ino zeros 0 0 104 i (inr (omega arith))
        ∙ read-same i (omega arith);
    others = λ n i ne lt small.
        inodes-end n i lt small
        ∙ ap (λ (c : Bool). if c then ino' i else inode_in d n i)
            (ne→not_== num n (λ e. ne (sym e)));
  }

-- On a device that works, where all blocks of the file of an inode of the table are its own and the
-- file is not longer than its block map allows: truncate_file succeeds. Its data blocks and its
-- indirect blocks, and no others, are then on the free list besides the blocks that were. The inode
-- has the size 0 and no block addresses and is otherwise as it was, as are all other inodes and
-- all blocks of the data region that the file did not have.
pub truncate_file-IsTruncated :
    (d : Machine) (lo hi num : ℕ) (xs : List ℕ)
    → IsFreelist d lo hi xs
    → IsFile lo hi xs d (inode_in d num) (blks_of_size (file_size (inode_in d num)))
    → file_size (inode_in d num) ≤ 4096 * 134480394
    → 2 + num / 16 < lo
    → (d' : Machine) × (truncate_file num d ≡ (ok tt, d'))
      × IsTruncated lo hi xs num (blks_of_size (file_size (inode_in d num))) d d'
truncate_file-IsTruncated d lo hi num xs f file fits in_table = (
  end d lo hi num xs f file fits in_table,
  run d lo hi num xs f file fits in_table,
  is_truncated d lo hi num xs f file fits in_table,
)
