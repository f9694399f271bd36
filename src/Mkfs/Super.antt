-- ===== src/Mkfs/Super.antt =====
-- init_freelist and init_superblock establish the free list that malloc_blk and free_blk keep.
use uwufs.Base.{ℕ, ◌+◌, ◌-◌, ◌^◌, ◌≤◌, ◌<◌, ◌≡◌, refl, ap, ◌∙◌, length, arith, zero, suc}
use uwufs.Bytes.{Bytes}
use uwufs.Machine.{Machine, ok, Works, put_block, ◌>>=◌}
use uwufs.Block.Access.{
  write_blk-ok, Works-put_block, size-put_block, block-put_block_self, block-put_block_ne,
}
use uwufs.Layout.Laws.{word-put_self, word-put_ne}
use uwufs.Layout.Super.{
  ilist_start, ilist_total_size, freelist_start, freelist_total_size, freelist_head, free_blks_left,
}
use uwufs.Freelist.Chain.{IsFreelist}
use uwufs.Freelist.Stack.{Chain-frame}
use uwufs.Mkfs.{super_blk, init_freelist, init_superblock}
use uwufs.Mkfs.Freelist.{blks_from, IsLaidOut, init_freelist_lem}

length-blks_from : (n cur : ℕ) → length (blks_from n cur) ≡ n
unfolding blks_from
length-blks_from zero cur = refl
length-blks_from (suc n) cur = ap suc (length-blks_from n (cur + 1))

module _ (buf : Bytes) (total istart isize fstart fsize head : ℕ) where
  abbrev sb : Bytes
  sb = super_blk buf total istart isize fstart fsize head

  left-super_blk : 0 < fsize → fsize < 2 ^ 64 → free_blks_left sb ≡ fsize - 1
  unfolding super_blk
  left-super_blk h small = word-put_self _ 56 _ (omega arith) ∙ omega arith

  head-super_blk : head < 2 ^ 64 → freelist_head sb ≡ head
  unfolding super_blk
  head-super_blk h = word-put_ne _ 40 56 _ (omega arith) ∙ word-put_self _ 40 head h

  total_size-super_blk : fsize < 2 ^ 64 → freelist_total_size sb ≡ fsize
  unfolding super_blk
  total_size-super_blk h =
      word-put_ne _ 32 56 _ (omega arith)
      ∙ word-put_ne _ 32 40 _ (omega arith)
      ∙ word-put_self _ 32 fsize h

  start-super_blk : fstart < 2 ^ 64 → freelist_start sb ≡ fstart
  unfolding super_blk
  start-super_blk h =
      word-put_ne _ 24 56 _ (omega arith)
      ∙ word-put_ne _ 24 40 _ (omega arith)
      ∙ word-put_ne _ 24 32 _ (omega arith)
      ∙ word-put_self _ 24 fstart h

  pub ilist_start-super_blk : istart < 2 ^ 64 → ilist_start sb ≡ istart
  unfolding super_blk
  ilist_start-super_blk h =
      word-put_ne _ 8 56 _ (omega arith)
      ∙ word-put_ne _ 8 40 _ (omega arith)
      ∙ word-put_ne _ 8 32 _ (omega arith)
      ∙ word-put_ne _ 8 24 _ (omega arith)
      ∙ word-put_ne _ 8 48 _ (omega arith)
      ∙ word-put_ne _ 8 16 _ (omega arith)
      ∙ word-put_self _ 8 istart h

  pub ilist_total_size-super_blk : isize < 2 ^ 64 → ilist_total_size sb ≡ isize
  unfolding super_blk
  ilist_total_size-super_blk h =
      word-put_ne _ 16 56 _ (omega arith)
      ∙ word-put_ne _ 16 40 _ (omega arith)
      ∙ word-put_ne _ 16 32 _ (omega arith)
      ∙ word-put_ne _ 16 24 _ (omega arith)
      ∙ word-put_ne _ 16 48 _ (omega arith)
      ∙ word-put_self _ 16 isize h

module _ (d d' : Machine) (total istart isize start size : ℕ) (pos : 0 < start) (big : 10 ≤ size)
    (on : start + size ≤ d.size) (is : IsLaidOut d start size d') where
  open is use {works, size_same, chain}

  abbrev pub new_sb : Bytes
  new_sb = super_blk d'.stack total istart isize start size start

  abbrev pub formatted : Machine
  formatted = put_block d' 0 new_sb

  pub formatted-IsFreelist : IsFreelist formatted start (start + size) (blks_from size start)
  formatted-IsFreelist = record {
    region = record {
      works = Works-put_block 0 new_sb works;
      behind_super = pos;
      ordered = omega arith;
      within = rw (size-put_block, size_same) on;
      start = rw block-put_block_self (
          start-super_blk d'.stack total istart isize start size start
            (omega (arith, works.small)));
      extent = rw block-put_block_self (
          ap (λ n. start + n)
            (total_size-super_blk d'.stack total istart isize start size start
              (omega (arith, works.small))));
    };
    chain =
        rw
          (
            block-put_block_self,
            head-super_blk d'.stack total istart isize start size start
                (omega (arith, works.small)),
          )
          (Chain-frame d'.block formatted.block start (start + size) start (blks_from size start)
            (λ k ge m. block-put_block_ne d' 0 k new_sb (omega arith)) chain);
    count =
        rw
          (
            block-put_block_self,
            left-super_blk d'.stack total istart isize start size start (omega arith)
                (omega (arith, works.small)),
            length-blks_from size start,
          )
          (omega arith);
  }

-- On a device that works, for a region of at least 10 blocks that lies on it behind block 0,
-- init_freelist and then init_superblock, as init_uwufs calls them, leave a device whose free list
-- holds all blocks of the region in order.
pub init_superblock-IsFreelist :
    (d : Machine) (total istart isize start size : ℕ)
    → Works d
    → 0 < start
    → 10 ≤ size
    → start + size ≤ total
    → total ≤ d.size
    → (d'' : Machine) × ((init_freelist total start size
            >>= init_superblock total istart isize start size)
          d
        ≡ (ok tt, d''))
      × IsFreelist d'' start (start + size) (blks_from size start)
init_superblock-IsFreelist d total istart isize start size w pos big fits on =
    let (d', run, is) = init_freelist_lem d total start size w big fits on in
    (
      formatted d d' total istart isize start size pos big (omega arith) is,
      rw run
          (unfold init_superblock in rw (write_blk-ok 0 is.works (rw is.size_same (omega arith)))),
      formatted-IsFreelist d d' total istart isize start size pos big (omega arith) is,
    )
