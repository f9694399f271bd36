-- ===== src/Mkfs/Prepared.antt =====
-- The device before the root directory is made: free list, superblock and an empty inode table.
use uwufs.Base.{ℕ, ◌+◌, ◌≤◌, ◌<◌, ◌≡◌, refl, inl, inr, arith}
use uwufs.Bytes.{zeros}
use uwufs.Machine.{Machine, Io, ok, Works, ◌>>=◌, ◌>>◌}
use uwufs.Block.Access.{write_blk-ok, block-put_block_self}
use uwufs.Layout.Super.{ilist_start, ilist_total_size}
use uwufs.Freelist.Chain.{IsFreelist}
use uwufs.Mkfs.{init_freelist, init_superblock, init_inodes}
use uwufs.Mkfs.Freelist.{blks_from, IsLaidOut, init_freelist_lem}
use uwufs.Mkfs.Super.{
  formatted, formatted-IsFreelist, ilist_start-super_blk, ilist_total_size-super_blk,
}
use uwufs.Mkfs.Table.{IsCleared, clear_blks-IsCleared, IsFreelist-same}

-- The inode table has `isize` blocks from block 2 on, and all data blocks behind it are free.
pub record IsPrepared (isize size : ℕ) (d' : Machine) : Type 0 where
  pub freelist : IsFreelist d' (2 + isize) (2 + isize + size) (blks_from size (2 + isize))
  pub first : ilist_start (d'.block 0) ≡ 2
  pub total : ilist_total_size (d'.block 0) ≡ isize
  pub table : (k : ℕ) → 2 ≤ k → k < 2 + isize → d'.block k ≡ zeros

module _ (d : Machine) (isize size : ℕ) (w : Works d) (some_inodes : 8 ≤ isize) (big : 10 ≤ size)
    (on : 2 + isize + size ≤ d.size) where
  abbrev start : ℕ
  start = 2 + isize

  abbrev all : ℕ
  all = start + size

  laid_out :
      (e : Machine) × (init_freelist all start size d ≡ (ok start, e)) × IsLaidOut d start size e
  laid_out = init_freelist_lem d all start size w big (omega arith) on

  abbrev super_written : Machine
  super_written = formatted d laid_out.0 all 2 isize start size (omega arith) big on laid_out.2

  super-IsFreelist : IsFreelist super_written start (start + size) (blks_from size start)
  super-IsFreelist =
      formatted-IsFreelist d laid_out.0 all 2 isize start size (omega arith) big on laid_out.2

  table-IsCleared :
      (e : Machine) × (init_inodes 2 isize super_written ≡ (ok tt, e))
      × IsCleared super_written 2 isize e
  unfolding init_inodes
  table-IsCleared =
      clear_blks-IsCleared (2 + isize) (omega arith) isize 2 super_written super-IsFreelist.works
        (omega (arith, super-IsFreelist.within))

  run-super : init_superblock all 2 isize start size start laid_out.0 ≡ (ok tt, super_written)
  unfolding init_superblock
  run-super = rw (write_blk-ok 0 laid_out.2.works (rw laid_out.2.size_same (omega arith)))

  pub prepared :
      (e : Machine) × IsPrepared isize size e
      × ((then_ : Io (Unit {0}))
          → (init_freelist all start size >>= λ head.
                init_superblock all 2 isize start size head >> (init_inodes 2 isize >> then_))
              d
            ≡ then_ e)
  prepared =
      let (e, run, is) = table-IsCleared in
      let super = is.others 0 (inl (omega arith)) in
      (
        e,
        record {
          freelist =
              IsFreelist-same super-IsFreelist is.works is.size_same super
                (λ k ge. is.others k (inr (omega arith)));
          first =
              rw (super, block-put_block_self)
                (ilist_start-super_blk laid_out.0.stack all 2 isize start size start (omega arith));
          total =
              rw (super, block-put_block_self)
                (ilist_total_size-super_blk laid_out.0.stack all 2 isize start size start
                  (omega (arith, w.small)));
          table = is.cleared;
        },
        λ then_. rw (laid_out.1, run-super, run) refl,
      )
