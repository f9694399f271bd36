-- ===== src/Mkfs/Root.antt =====
-- init_root_directory on a device with an empty inode table.
use uwufs.Base.{
  ℕ, ◌+◌, ◌*◌, ◌/◌, ◌%◌, ◌^◌, ◌≤◌, ◌<◌, ◌≡◌, refl, ap, ◌∙◌, List, ◌∷◌, ◌==◌, arith, if◌then◌else◌,
}
use uwufs.Bytes.{Bytes, zeros, get, put}
use uwufs.Bytes.Fields.{get-put_ne, get-put_self}
use uwufs.Machine.{Machine, ok, put_block, unix_time}
use uwufs.Block.Access.{write_blk-ok, block-put_block_self, block-put_block_ne}
use uwufs.Layout.{file_mode, file_size, direct_blk}
use uwufs.Layout.Super.{ilist_start, ilist_total_size}
use uwufs.Layout.Laws.{word-put_self}
use uwufs.Freelist.{popped}
use uwufs.Freelist.Chain.{IsFreelist}
use uwufs.Freelist.Relist.{field-relisted}
use uwufs.Freelist.Stack.{malloc_blk-pop, malloc_blk_lem}
use uwufs.Itable.Table.{inode_in, written, write_inode-ok, inode_in-write}
use uwufs.Blockmap.Append.{IsFreelist-put_block}
use uwufs.File.Map.Table.{Chain-before}
use uwufs.Mkfs.{root_inode, init_root_directory}
use uwufs.Mkfs.Dots.{IsRootBlk, dots_put}

-- The fields of the root inode that the other operations read.
module _ (blk_num time : ℕ) where
  pub root_inode-mode : file_mode (root_inode blk_num time) ≡ 8192 + 493
  unfolding root_inode
  root_inode-mode =
      get-put_ne 2 8 _ 104 124 _ (ground arith)
      ∙ get-put_ne 2 8 _ 104 132 _ (ground arith)
      ∙ get-put_ne 2 8 _ 104 140 _ (ground arith)
      ∙ get-put_ne 2 4 _ 104 120 _ (ground arith)
      ∙ get-put_ne 2 4 _ 104 116 _ (ground arith)
      ∙ get-put_ne 2 2 _ 104 114 _ (ground arith)
      ∙ get-put_ne 2 8 _ 104 106 _ (ground arith)
      ∙ get-put_ne 2 8 _ 104 0 _ (ground arith)
      ∙ get-put_self 2 zeros 104 8685 (omega arith)

  pub root_inode-size : file_size (root_inode blk_num time) ≡ 4096
  unfolding root_inode
  root_inode-size =
      get-put_ne 8 8 _ 106 124 _ (ground arith)
      ∙ get-put_ne 8 8 _ 106 132 _ (ground arith)
      ∙ get-put_ne 8 8 _ 106 140 _ (ground arith)
      ∙ get-put_ne 8 4 _ 106 120 _ (ground arith)
      ∙ get-put_ne 8 4 _ 106 116 _ (ground arith)
      ∙ get-put_ne 8 2 _ 106 114 _ (ground arith)
      ∙ word-put_self _ 106 4096 (omega arith)

  pub root_inode-direct : blk_num < 2 ^ 64 → direct_blk (root_inode blk_num time) 0 ≡ blk_num
  unfolding root_inode
  root_inode-direct h =
      get-put_ne 8 8 _ 0 124 _ (ground arith)
      ∙ get-put_ne 8 8 _ 0 132 _ (ground arith)
      ∙ get-put_ne 8 8 _ 0 140 _ (ground arith)
      ∙ get-put_ne 8 4 _ 0 120 _ (ground arith)
      ∙ get-put_ne 8 4 _ 0 116 _ (ground arith)
      ∙ get-put_ne 8 2 _ 0 114 _ (ground arith)
      ∙ get-put_ne 8 8 _ 0 106 _ (ground arith)
      ∙ word-put_self _ 0 blk_num h

-- The root directory is there, with its block taken from the free list, and all other inodes are free.
pub record IsRooted (isize : ℕ) (x : ℕ) (rest : List ℕ) (lo hi : ℕ) (d d' : Machine) : Type 0 where
  pub time : ℕ
  pub freelist : IsFreelist d' lo hi rest
  pub first : ilist_start (d'.block 0) ≡ ilist_start (d.block 0)
  pub total : ilist_total_size (d'.block 0) ≡ ilist_total_size (d.block 0)
  pub inodes :
      (n i : ℕ)
      → n < 16 * isize
      → i < 256
      → inode_in d' n i ≡ (if 2 == n then root_inode x time i else 0)
  pub entries : IsRootBlk (d'.block x)

module _ (d : Machine) (isize hi x y : ℕ) (zs : List ℕ)
    (f : IsFreelist d (2 + isize) hi (x ∷ y ∷ zs)) (some_inodes : 0 < isize)
    (table : (k : ℕ) → 2 ≤ k → k < 2 + isize → d.block k ≡ zeros) where
  abbrev lo : ℕ
  lo = 2 + isize

  dir_blk : Bytes
  dir_blk = (dots_put d.stack).1

  abbrev d1 : Machine
  d1 = put_block d 0 (popped (d.block 0) y)

  abbrev d2 : Machine
  d2 = put_block d1 x dir_blk

  abbrev time_now : ℕ
  time_now = unix_time d2

  abbrev rooted : Machine
  rooted = written d2 2 256 (root_inode x time_now)

  f1 : IsFreelist d1 lo hi (y ∷ zs)
  f1 = rw (malloc_blk-pop f) at (malloc_blk_lem d lo hi x y zs f).1

  f2 : IsFreelist d2 lo hi (y ∷ zs)
  f2 = IsFreelist-put_block x dir_blk f1 (omega (arith, f.chain.1)) f.chain.3

  run-root : init_root_directory d ≡ (ok tt, rooted)
  unfolding init_root_directory dir_blk
  run-root =
      let (b, b', put, put', is) = dots_put d.stack in
      rw
        (
          put,
          put',
          malloc_blk-pop f,
          write_blk-ok x f1.works (omega (arith, f.chain.2, f1.within)) b',
          write_inode-ok 2 f2.works (omega (arith, f2.ordered, f2.within)) (root_inode x time_now)
              256,
        )
        refl

  -- The blocks of the inode table before the root inode is written.
  table-d2 : (n i : ℕ) → n < 16 * isize → inode_in d2 n i ≡ 0
  table-d2 n i lt =
      ap (λ (b : Bytes). b (256 * (n % 16) + i))
        (block-put_block_ne d1 x (2 + n / 16) dir_blk (omega (arith, f.chain.1))
          ∙ block-put_block_ne d 0 (2 + n / 16) (popped (d.block 0) y) (omega arith)
          ∙ table (2 + n / 16) (omega arith) (omega arith))

  super-kept : (i : ℕ) → i + 8 ≤ 40 → get 8 (rooted.block 0) i ≡ get 8 (d.block 0) i
  super-kept i h =
      ap (λ b. get 8 b i)
        (block-put_block_ne d2 2 0 _ (omega arith)
          ∙ block-put_block_ne d1 x 0 dir_blk (omega (arith, f.chain.1))
          ∙ block-put_block_self d 0 (popped (d.block 0) y))
      ∙ field-relisted (d.block 0) y _ i h

  entries-rooted : rooted.block x ≡ dir_blk
  entries-rooted =
      block-put_block_ne d2 2 x _ (omega (arith, f.chain.1)) ∙ block-put_block_self d1 x dir_blk

  pub init_root_directory-IsRooted :
      (d' : Machine) × (init_root_directory d ≡ (ok tt, d')) × IsRooted isize x (y ∷ zs) lo hi d d'
  unfolding dir_blk
  init_root_directory-IsRooted = (
    rooted,
    run-root,
    record {
      time = time_now;
      freelist =
          IsFreelist-put_block 2 _ f2 (omega arith)
            (Chain-before d2.block lo hi 2 (y ∷ zs) _ f2.chain (omega arith));
      first = super-kept 8 (omega arith);
      total = super-kept 16 (omega arith);
      inodes = λ n i lt small.
          inode_in-write d2 2 n i (root_inode x time_now) small
          ∙ ap (λ v. if 2 == n then root_inode x time_now i else v) (table-d2 n i lt);
      entries = rw entries-rooted (dots_put d.stack).4;
    },
  )
