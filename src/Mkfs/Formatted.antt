-- ===== src/Mkfs/Formatted.antt =====
-- init_uwufs from the first write to the last.
use uwufs.Base.{
  ℕ, zero, suc, ◌+◌, ◌-◌, ◌*◌, ◌≤◌, ◌<◌, ◌≡◌, ◌≢◌, ap, ap₂, ◌∙◌, none, some, Option, List, ◌∷◌,
  ◌++◌, length, arith, bit_and, subst,
}
use uwufs.Bytes.{zeros, get}
use uwufs.Bytes.Fields.{get-cong}
use uwufs.Machine.{Machine, ok, fail, enoent, enametoolong, Works, ◌>>=◌, ◌>>◌}
use uwufs.Layout.{file_type, f_type_bits}
use uwufs.Layout.Super.{ilist_start, ilist_total_size}
use uwufs.Freelist.Chain.{IsFreelist}
use uwufs.Itable.{find_free_inode}
use uwufs.Itable.Table.{inode_in}
use uwufs.Itable.Search.{IsFirst, is_free_inode, found, find_free_inode_lem}
use uwufs.Paths.{segments}
use uwufs.Paths.Namei.{namei}
use uwufs.Mkfs.{
  root_inode, init_uwufs, init_freelist, init_superblock, init_inodes, init_root_directory,
}
use uwufs.Mkfs.Freelist.{blks_from}
use uwufs.Mkfs.Dots.{dot, dots}
use uwufs.Mkfs.Prepared.{prepared}
use uwufs.Mkfs.Root.{IsRooted, init_root_directory-IsRooted, root_inode-mode}
use uwufs.Mkfs.Lookup.{IsDots, namei-dots, namei-other, namei-long}

-- Which inodes are free once the root directory is there.
module _ (d d' : Machine) (isize hi x : ℕ) (rest : List ℕ)
    (r : IsRooted isize x rest (2 + isize) hi d d') (some_inodes : 0 < isize)
    (start : ilist_start (d.block 0) ≡ 2) (total : ilist_total_size (d.block 0) ≡ isize) where
  type-root : file_type (inode_in d' 2) ≡ 8192
  type-root =
      ap (λ m. bit_and m f_type_bits)
        (get-cong 2 (inode_in d' 2) (root_inode x r.time) 104
            (λ k ge lt. r.inodes 2 k (omega arith) (omega arith))
          ∙ root_inode-mode x r.time)

  type-third : file_type (inode_in d' 3) ≡ 0
  unfolding get
  type-third =
      ap (λ m. bit_and m f_type_bits)
        (get-cong 2 (inode_in d' 3) zeros 104 (λ k ge lt. r.inodes 3 k (omega arith) (omega arith)))

  only-third : (o : Option ℕ) → IsFirst (is_free_inode d') 0 (isize * 16) o → o ≡ some 3
  only-third none first = absurd (ground (arith, first 3 (omega arith) (omega arith), type-third))
  only-third (some n) (ge, lt, passes, before) =
      let lower : 2 ≤ n = ground (arith, passes) in
      let not_root : n ≢ 2 = λ e. ground (arith, type-root, rw e at passes) in
      let not_more : ¬ (3 < n) = λ h. ground (arith, before 3 (omega arith) h, type-third) in
      ap some (omega arith)

  pub find_free_inode-third : find_free_inode d' ≡ (ok 3, d')
  find_free_inode-third =
      let (o, run, first) =
        find_free_inode_lem d' r.freelist.works (r.first ∙ start)
          (rw (r.total, total) (omega (arith, r.freelist.ordered, r.freelist.within))) in
      run
      ∙ ap (λ o. (found o, d'))
          (only-third o
            (subst (λ t. IsFirst (is_free_inode d') 0 (t * 16) o) (r.total ∙ total) first))

-- A file system with nothing in it but the root directory.
pub record IsEmptySystem (isize size : ℕ) (d' : Machine) : Type 0 where
  pub freelist : IsFreelist d' (2 + isize) (2 + isize + size) (blks_from (size - 1) (3 + isize))
  pub next_inode : find_free_inode d' ≡ (ok 3, d')
  pub root_paths :
      (fuel : ℕ) (path : List ℕ)
      → IsDots (segments path)
      → namei (suc fuel) path none d' ≡ (ok 2, d')
  pub other_paths :
      (fuel : ℕ) (path s : List ℕ) (ss rest : List (List ℕ))
      → segments path ≡ ss ++ s ∷ rest
      → IsDots ss
      → length s < 248
      → s ≢ dot
      → s ≢ dots
      → namei (suc fuel) path none d' ≡ (fail enoent, d')
  pub long_paths :
      (fuel : ℕ) (path s : List ℕ) (ss rest : List (List ℕ))
      → segments path ≡ ss ++ s ∷ rest
      → IsDots ss
      → 248 ≤ length s
      → namei (suc fuel) path none d' ≡ (fail enametoolong, d')

-- The two first blocks of a region.
blks_from-two :
    (size cur : ℕ)
    → 2 ≤ size
    → blks_from size cur ≡ cur ∷ (cur + 1) ∷ blks_from (size - 2) (cur + 2)
unfolding blks_from
blks_from-two zero cur h = absurd (omega arith)
blks_from-two (suc zero) cur h = absurd (omega arith)
blks_from-two (suc (suc n)) cur h =
    rw (plus_two cur) (ap (λ k. cur ∷ (cur + 1) ∷ blks_from k (cur + 2)) (omega arith))
  where
    plus_two : (a : ℕ) → a + 1 + 1 ≡ a + 2
    plus_two a = omega arith

blks_from-tail :
    (size isize : ℕ)
    → 2 ≤ size
    → (2 + isize + 1) ∷ blks_from (size - 2) (2 + isize + 2) ≡ blks_from (size - 1) (3 + isize)
unfolding blks_from
blks_from-tail zero isize h = absurd (omega arith)
blks_from-tail (suc zero) isize h = absurd (omega arith)
blks_from-tail (suc (suc n)) isize h =
    ap₂ (λ a b. a ∷ b) (omega arith) (ap₂ blks_from (omega arith) (omega arith))
    ∙ ap (λ k. blks_from k (3 + isize)) {x = suc n} (omega arith)

-- On a device that works, for an inode table of at least 8 blocks and at least 10 data blocks:
-- init_uwufs succeeds. All data blocks but the first are then on the free list in order, and
-- find_free_inode returns 3, the first inode behind the root directory. A path of which every segment
-- is . or .. leads to the root directory. For any other path the first segment that is neither decides:
-- one of fewer than 248 characters ends the look-up with ENOENT, a longer one with ENAMETOOLONG.
pub init_uwufs-IsEmptySystem :
    (d : Machine) (isize size : ℕ)
    → Works d
    → 8 ≤ isize
    → 10 ≤ size
    → 2 + isize + size ≤ d.size
    → (d' : Machine) × (init_uwufs (2 + isize + size) 1 isize d ≡ (ok tt, d'))
      × IsEmptySystem isize size d'
unfolding init_uwufs
init_uwufs-IsEmptySystem d isize size w some_inodes big on =
    let (e, p, run) = prepared d isize size w some_inodes big on in
    let f =
      subst (IsFreelist e (2 + isize) (2 + isize + size))
        (blks_from-two size (2 + isize) (omega arith)) p.freelist in
    let (d', run-root, r) =
      init_root_directory-IsRooted e isize (2 + isize + size) (2 + isize) (2 + isize + 1)
        (blks_from (size - 2) (2 + isize + 2)) f (omega arith) p.table in
    (
      d',
      ap
            (λ n.
              (init_freelist (2 + isize + size) (2 + isize) n >>= λ head.
              init_superblock (2 + isize + size) 2 isize (2 + isize) n head
              >> (init_inodes 2 isize >> init_root_directory))
                d)
            (omega arith)
          ∙ run init_root_directory
          ∙ run-root,
      record {
        freelist =
            subst (IsFreelist d' (2 + isize) (2 + isize + size))
              (blks_from-tail size isize (omega arith)) r.freelist;
        next_inode =
            find_free_inode-third e d' isize (2 + isize + size) (2 + isize) _ r (omega arith)
              p.first p.total;
        root_paths =
            namei-dots e d' isize (2 + isize + size) (2 + isize) _ r (omega arith) (omega arith)
              (omega arith);
        other_paths =
            namei-other e d' isize (2 + isize + size) (2 + isize) _ r (omega arith) (omega arith)
              (omega arith);
        long_paths =
            namei-long e d' isize (2 + isize + size) (2 + isize) _ r (omega arith) (omega arith)
              (omega arith);
      },
    )
