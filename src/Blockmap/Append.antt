-- ===== src/Blockmap/Append.antt =====
-- append_dblk among the direct blocks and in the single indirect block.
use uwufs.Base.{
  ℕ, ◌-◌, ◌*◌, ◌^◌, ◌≤◌, ◌<◌, ◌≡◌, ◌≢◌, refl, sym, ap, subst, ◌∙◌, inl, inr, false, List, ◌∷◌, has,
  arith, ltb, ◌==◌, if◌then◌else◌, Bool-cases, lt→ltb, ltb→lt, not_ltb→le, le→not_ltb, lt→not_leb,
  ne→not_==,
}
use uwufs.Bytes.{Bytes, zeros}
use uwufs.Machine.{Machine, ok, put_block}
use uwufs.Block.{peek}
use uwufs.Block.Access.{load-ok, write_blk-ok, block-put_block_self, block-put_block_ne}
use uwufs.Layout.{
  entry, set_entry, direct_blk, set_direct_blk, single_indirect_blks, set_single_indirect_blks,
}
use uwufs.Layout.Laws.{word-lt, word-put_self, word-put_ne}
use uwufs.Freelist.{malloc_blk}
use uwufs.Freelist.Chain.{IsFreelist}
use uwufs.Freelist.Stack.{malloc_blk_lem, Chain-frame, IsRegion-put_block}
use uwufs.Blockmap.{
  blk_no_at, get_dblk, recursive_append_dblk, append_dblk, or_zero, indirect_blk_for,
  status_or_zero,
}

-- A block that is neither the superblock nor on the free list can be overwritten.
pub IsFreelist-put_block :
    {d : Machine} {lo hi : ℕ} {xs : List ℕ} (n : ℕ) (b : Bytes)
    → IsFreelist d lo hi xs
    → n ≢ 0
    → has n xs ≡ false
    → IsFreelist (put_block d n b) lo hi xs
IsFreelist-put_block {d} {lo} {hi} {xs} n b f ne out = record {
  region = IsRegion-put_block n b f.region ne;
  chain = rw (block-put_block_ne d n 0 b ne) (
      Chain-frame d.block (put_block d n b).block lo hi _ xs
        (λ k _ m. block-put_block_ne d n k b (λ e. ground arith)) f.chain);
  count = rw (block-put_block_ne d n 0 b ne) f.count;
}

-- Where a block stands on the device, `peek` is its content.
pub peek-ok :
    (n : ℕ) {d : Machine} {lo hi : ℕ} {xs : List ℕ}
    → IsFreelist d lo hi xs
    → n < hi
    → peek n d ≡ d.block n
unfolding peek
peek-ok n {d} f lt = rw (peek, load-ok n f.works (omega (arith, f.within))) refl

-- What get_dblk returns at the two first levels.
pub get_dblk-direct :
    (ino : Bytes) (i : ℕ) (d : Machine) → i < 10 → get_dblk ino i d ≡ direct_blk ino i
unfolding get_dblk blk_no_at
get_dblk-direct ino i d h = rw (lt→ltb i 10 h) refl

pub get_dblk-single :
    (ino : Bytes) (i root : ℕ) {d : Machine} {lo hi : ℕ} {xs : List ℕ}
    → IsFreelist d lo hi xs
    → single_indirect_blks ino ≡ root
    → root < hi
    → 10 ≤ i
    → i < 522
    → get_dblk ino i d ≡ entry (d.block root) (i - 10)
unfolding get_dblk blk_no_at
get_dblk-single ino i root f e h ge lt =
    rw (le→not_ltb i 10 ge, lt→ltb i 522 lt, e, peek-ok root f h) refl

-- An entry of the single indirect block that is there.
module _ (d : Machine) (lo hi cur i n : ℕ) (xs : List ℕ) (f : IsFreelist d lo hi xs) (ge : lo ≤ cur)
    (lt : cur < hi) where
  abbrev pub entered : Machine
  entered = put_block d cur (set_entry (d.block cur) i n)

  pub append-entered : i ≢ 0 → recursive_append_dblk 0 cur i n d ≡ (ok cur, entered)
  unfolding recursive_append_dblk or_zero indirect_blk_for status_or_zero
  append-entered ne =
      rw
        (
          ne→not_== i 0 ne,
          load-ok cur f.works (omega (arith, f.within)),
          write_blk-ok cur f.works (omega (arith, f.within)) (set_entry (d.block cur) i n),
        )
        refl

-- A new single indirect block.
module _ (d : Machine) (lo hi cur x y n : ℕ) (ys : List ℕ)
    (f : IsFreelist d lo hi (x ∷ y ∷ ys)) where
  abbrev pub started : Machine
  started = put_block (malloc_blk d).1 x (set_entry zeros 0 n)

  pub append-started : recursive_append_dblk 0 cur 0 n d ≡ (ok x, started)
  unfolding recursive_append_dblk or_zero indirect_blk_for status_or_zero
  append-started =
      let (taken, left, out, others) = malloc_blk_lem d lo hi x y ys f in
      rw
        (
          taken,
          write_blk-ok x left.works (omega (arith, left.within, f.chain.2)) (set_entry zeros 0 n),
        )
        refl

  pub IsFreelist-started : IsFreelist started lo hi (y ∷ ys)
  IsFreelist-started =
      let (taken, left, out, others) = malloc_blk_lem d lo hi x y ys f in
      IsFreelist-put_block x (set_entry zeros 0 n) left (omega (arith, f.behind_super, f.chain.1))
        out

-- From index 10 on the inode has a single indirect block of the data region that is not on the free
-- list.
abbrev pub HoldsRoot : (lo hi : ℕ) → Bytes → (index : ℕ) → List ℕ → Type 0
HoldsRoot lo hi ino index xs =
    10 ≤ index
    → (lo ≤ single_indirect_blks ino)
      × (single_indirect_blks ino < hi)
      × (has (single_indirect_blks ino) xs ≡ false)

-- What append_dblk promises at an index: it returns the number and an inode such that the block at
-- the index is the new one, the blocks before it are those that they were, and `xs'` is the free list,
-- on which the single indirect block is not. At index 10 that is a new block, the first of `xs`.
abbrev pub IsAppended :
    (d : Machine) (lo hi : ℕ) (ino : Bytes) (index n : ℕ) (xs xs' : List ℕ) → Type 0
IsAppended d lo hi ino index n xs xs' =
    let d' = (append_dblk ino index n d).1 in
    (ino' : Bytes) × ((append_dblk ino index n d).0 ≡ ok (n, ino'))
    × (get_dblk ino' index d' ≡ n)
    × ((j : ℕ) → j < index → get_dblk ino' j d' ≡ get_dblk ino j d)
    × IsFreelist d' lo hi xs'
    × HoldsRoot lo hi ino' index xs'
    × ((if index == 10 then single_indirect_blks ino' ∷ xs' else xs') ≡ xs)

-- Among the ten direct blocks.
pub append_dblk-direct :
    (d : Machine) (lo hi : ℕ) (ino : Bytes) (index n : ℕ) (xs : List ℕ)
    → IsFreelist d lo hi xs
    → index < 10
    → n < 2 ^ 64
    → IsAppended d lo hi ino index n xs xs
unfolding append_dblk
append_dblk-direct d lo hi ino index n xs f h small =
    rw (lt→not_leb 134480394 index (omega arith), lt→ltb index 10 h)
      (
        put8,
        refl,
        get_dblk-direct put8 index d h ∙ word-put_self ino (8 * index) n small,
        λ j lt.
            get_dblk-direct put8 j d (omega arith)
            ∙ word-put_ne ino (8 * j) (8 * index) n (ground arith)
            ∙ sym (get_dblk-direct ino j d (omega arith)),
        f,
        λ ge. absurd (omega arith),
        rw (ne→not_== index 10 (omega arith)) refl,
      )
  where
    put8 : Bytes
    put8 = set_direct_blk ino index n

-- In the single indirect block that is there.
pub append_dblk-single :
    (d : Machine) (lo hi : ℕ) (ino : Bytes) (index n : ℕ) (xs : List ℕ)
    → IsFreelist d lo hi xs
    → 10 < index
    → index < 522
    → n < 2 ^ 64
    → lo ≤ single_indirect_blks ino
    → single_indirect_blks ino < hi
    → has (single_indirect_blks ino) xs ≡ false
    → IsAppended d lo hi ino index n xs xs
unfolding append_dblk
append_dblk-single d lo hi ino index n xs f gt lt small ge le out =
    rw
      (
        lt→not_leb 134480394 index (omega arith),
        le→not_ltb index 10 (omega arith),
        lt→ltb index 522 lt,
        append-entered d lo hi root (index - 10) n xs f ge le (omega arith),
      )
      (
        ino',
        refl,
        get_dblk-single ino' index root f' root' le (omega arith) lt
            ∙ ap (λ b. entry b (index - 10)) (block-put_block_self d root blk')
            ∙ word-put_self (d.block root) (8 * (index - 10)) n small,
        earlier,
        f',
        λ _. rw root' (ge, le, out),
        rw (ne→not_== index 10 (omega arith)) refl,
      )
  where
    root : ℕ
    root = single_indirect_blks ino

    ino' : Bytes
    ino' = set_single_indirect_blks ino root

    blk' : Bytes
    blk' = set_entry (d.block root) (index - 10) n

    d' : Machine
    d' = put_block d root blk'

    f' : IsFreelist d' lo hi xs
    f' = IsFreelist-put_block root blk' f (omega (arith, f.behind_super)) out

    root' : single_indirect_blks ino' ≡ root
    root' = word-put_self ino 80 root (word-lt ino 80)

    earlier : (j : ℕ) → j < index → get_dblk ino' j d' ≡ get_dblk ino j d
    earlier j h = elim (Bool-cases (ltb j 10)) [
      | inl e ↦
          let direct : j < 10 = ltb→lt j 10 e in
          get_dblk-direct ino' j d' direct
          ∙ word-put_ne ino (8 * j) 80 root (inl (omega arith))
          ∙ sym (get_dblk-direct ino j d direct)
      | inr e ↦
          let behind : 10 ≤ j = not_ltb→le j 10 e in
          get_dblk-single ino' j root f' root' le behind (omega arith)
          ∙ ap (λ b. entry b (j - 10)) (block-put_block_self d root blk')
          ∙ word-put_ne (d.block root) (8 * (j - 10)) (8 * (index - 10)) n (ground arith)
          ∙ sym (get_dblk-single ino j root f refl le behind (omega arith))
    ]

-- In a new single indirect block.
pub append_dblk-start :
    (d : Machine) (lo hi x y : ℕ) (ino : Bytes) (n : ℕ) (ys : List ℕ)
    → IsFreelist d lo hi (x ∷ y ∷ ys)
    → n < 2 ^ 64
    → IsAppended d lo hi ino 10 n (x ∷ y ∷ ys) (y ∷ ys)
unfolding append_dblk
append_dblk-start d lo hi x y ino n ys f small =
    rw (append-started d lo hi (single_indirect_blks ino) x y n ys f) (
      ino',
      refl,
      get_dblk-single ino' 10 x f' root' f.chain.2 (omega arith) (omega arith)
          ∙ ap (λ b. entry b 0) (block-put_block_self (malloc_blk d).1 x (set_entry zeros 0 n))
          ∙ word-put_self zeros 0 n small,
      λ j h.
          get_dblk-direct ino' j d' h
          ∙ word-put_ne ino (8 * j) 80 x (inl (omega arith))
          ∙ sym (get_dblk-direct ino j d h),
      f',
      λ _.
          subst (λ r. (lo ≤ r) × (r < hi) × (has r (y ∷ ys) ≡ false)) (sym root')
            (f.chain.1, f.chain.2, f.chain.3),
      ap (λ r. r ∷ y ∷ ys) root',
    )
  where
    ino' : Bytes
    ino' = set_single_indirect_blks ino x

    d' : Machine
    d' = started d lo hi 0 x y n ys f

    f' : IsFreelist d' lo hi (y ∷ ys)
    f' = IsFreelist-started d lo hi 0 x y n ys f

    root' : single_indirect_blks ino' ≡ x
    root' = word-put_self ino 80 x (omega (arith, f.chain.2, f.within, f.works.small))
