-- ===== src/Freelist/Stack.antt =====
-- malloc_blk pops and free_blk pushes, on a device that works.
use uwufs.Base.{
  ℕ, ◌+◌, ◌-◌, ◌%◌, ◌≤◌, ◌<◌, ◌^◌, ◌≡◌, ◌≢◌, refl, sym, ◌∙◌, true, false, List, [], ◌∷◌, length,
  has, arith, ne→not_==, eq→==, le→not_ltb,
}
use uwufs.Bytes.{Bytes}
use uwufs.Machine.{Machine, ok, fail, enospc, put_block}
use uwufs.Block.Access.{
  load-ok, write_blk-ok, Works-put_block, size-put_block, block-put_block_self, block-put_block_ne,
}
use uwufs.Layout.{next_free_blk, set_next_free_blk}
use uwufs.Layout.Laws.{word-lt, word-put_self}
use uwufs.Layout.Super.{freelist_start, freelist_total_size, freelist_head, free_blks_left}
use uwufs.Freelist.{relisted, popped, pushed, malloc_blk, free_blk}
use uwufs.Freelist.Chain.{Chain, IsRegion, IsFreelist}
use uwufs.Freelist.Room.{length-Chain}
use uwufs.Freelist.Relist.{head-relisted, left-relisted, field-relisted}

-- A chain survives a change of blocks that are not on it.
pub Chain-frame :
    (b c : ℕ → Bytes) (lo hi h : ℕ) (xs : List ℕ)
    → ((k : ℕ) → lo ≤ k → has k xs ≡ true → c k ≡ b k)
    → Chain b lo hi h xs
    → Chain c lo hi h xs
Chain-frame b c lo hi h [] same ch = ch
Chain-frame b c lo hi h (x ∷ xs) same (e, ge, lt, out, rest) = (
  e,
  ge,
  lt,
  out,
  rw (same x ge (ground arith))
      (Chain-frame b c lo hi (next_free_blk (b x)) xs (λ k lo m. same k lo (ground arith)) rest),
)

pub IsRegion-put_block :
    {d : Machine} {lo hi : ℕ} (n : ℕ) (b : Bytes)
    → IsRegion d lo hi
    → n ≢ 0
    → IsRegion (put_block d n b) lo hi
IsRegion-put_block {d} n b r ne = record {
  works = Works-put_block n b r.works;
  behind_super = r.behind_super;
  ordered = r.ordered;
  within = rw size-put_block r.within;
  start = rw (block-put_block_ne d n 0 b ne) r.start;
  extent = rw (block-put_block_ne d n 0 b ne) r.extent;
}

IsRegion-relisted :
    {d : Machine} {lo hi : ℕ} (head left : ℕ)
    → IsRegion d lo hi
    → IsRegion (put_block d 0 (relisted (d.block 0) head left)) lo hi
IsRegion-relisted {d} head left r = record {
  works = Works-put_block 0 sb r.works;
  behind_super = r.behind_super;
  ordered = r.ordered;
  within = rw size-put_block r.within;
  start =
      rw (block-put_block_self d 0 sb, field-relisted (d.block 0) head left 24 (omega arith))
        r.start;
  extent =
      rw (block-put_block_self d 0 sb, field-relisted (d.block 0) head left 32 (omega arith))
        r.extent;
}
  where
    sb : Bytes
    sb = relisted (d.block 0) head left

-- Once the superblock has the new head and counter, the free list is what hangs on that head.
module _ {d : Machine} {lo hi : ℕ} (r : IsRegion d lo hi) (head left : ℕ) (xs : List ℕ)
    (chain : Chain d.block lo hi head xs) (count : left + 1 ≡ length xs) (fits : left < 2 ^ 64)
    (small : head < 2 ^ 64) where
  abbrev sb : Bytes
  sb = relisted (d.block 0) head left

  IsFreelist-relisted : IsFreelist (put_block d 0 sb) lo hi xs
  IsFreelist-relisted = record {
    region = IsRegion-relisted head left r;
    chain =
        rw (block-put_block_self d 0 sb, head-relisted (d.block 0) head left small)
          (Chain-frame d.block (put_block d 0 sb).block lo hi head xs
            (λ k ge m. block-put_block_ne d 0 k sb (omega (arith, r.behind_super))) chain);
    count = rw (block-put_block_self d 0 sb, left-relisted (d.block 0) head left fits) count;
  }

module _ {d : Machine} {lo hi x y : ℕ} {ys : List ℕ} (f : IsFreelist d lo hi (x ∷ y ∷ ys)) where
  open f use {works, behind_super, ordered, within, start, extent, chain, count}

  pub malloc_blk-pop : malloc_blk d ≡ (ok x, put_block d 0 (popped (d.block 0) y))
  unfolding malloc_blk
  malloc_blk-pop = rw (
    load-ok 0 works (omega arith),
    ne→not_== (free_blks_left (d.block 0)) 0 (omega arith),
    chain.0,
    ne→not_== x 0 (omega arith),
    load-ok x works (omega arith),
    chain.4.0,
    field-relisted (d.block 0) y (free_blks_left (d.block 0) - 1) 24 (omega arith),
    field-relisted (d.block 0) y (free_blks_left (d.block 0) - 1) 32 (omega arith),
    le→not_ltb ((freelist_start (d.block 0) + freelist_total_size (d.block 0)) % 2 ^ 64) y
        (omega (arith, works.small)),
    write_blk-ok 0 works (omega arith) (popped (d.block 0) y),
  )

  IsFreelist-popped : IsFreelist (put_block d 0 (popped (d.block 0) y)) lo hi (y ∷ ys)
  IsFreelist-popped =
      IsFreelist-relisted f.region y (free_blks_left (d.block 0) - 1) (y ∷ ys)
        (rw chain.4.0 at chain.4) (omega arith) (omega (arith, word-lt (d.block 0) 56))
        (omega (arith, works.small))

-- With at least two blocks on the free list malloc_blk returns the first one, which is then no longer
-- on the free list, and writes no block but the superblock.
pub malloc_blk_lem :
    (d : Machine) (lo hi x y : ℕ) (ys : List ℕ)
    → IsFreelist d lo hi (x ∷ y ∷ ys)
    → ((malloc_blk d).0 ≡ ok x)
      × IsFreelist (malloc_blk d).1 lo hi (y ∷ ys)
      × (has x (y ∷ ys) ≡ false)
      × ((k : ℕ) → k ≢ 0 → (malloc_blk d).1.block k ≡ d.block k)
malloc_blk_lem d lo hi x y ys f = rw (malloc_blk-pop f) (
  refl,
  IsFreelist-popped f,
  f.chain.3,
  λ k ne. block-put_block_ne d 0 k (popped (d.block 0) y) (λ e. ne (sym e)),
)

-- With only the buffer block left malloc_blk fails with ENOSPC and changes nothing.
pub malloc_blk-enospc :
    (d : Machine) (lo hi x : ℕ) → IsFreelist d lo hi (x ∷ []) → malloc_blk d ≡ (fail enospc, d)
unfolding malloc_blk
malloc_blk-enospc d lo hi x f =
    rw (load-ok 0 f.works (omega arith), eq→== (free_blks_left (d.block 0)) 0 (omega arith))

module _ {d : Machine} {lo hi x : ℕ} {xs : List ℕ} (f : IsFreelist d lo hi xs) (ge : lo ≤ x)
    (lt : x < hi) (out : has x xs ≡ false) where
  open f use {works, behind_super, ordered, within, chain, count}

  room : length xs ≤ hi - lo
  room = length-Chain d.block lo hi (freelist_head (d.block 0)) xs chain

  abbrev freed : Bytes
  freed = set_next_free_blk d.stack (freelist_head (d.block 0))

  abbrev linked : Machine
  linked = put_block d x freed

  super-linked : linked.block 0 ≡ d.block 0
  super-linked = block-put_block_ne d x 0 freed (omega arith)

  free_blk-push : free_blk x d ≡ (ok tt, put_block linked 0 (pushed (linked.block 0) x))
  unfolding free_blk
  free_blk-push = rw (
    load-ok 0 works (omega arith),
    write_blk-ok x works (omega arith) freed,
    super-linked,
    write_blk-ok 0 (Works-put_block x freed works) (rw size-put_block (omega arith))
        (pushed (d.block 0) x),
  )

  Chain-linked : Chain linked.block lo hi x (x ∷ xs)
  Chain-linked = (
    refl,
    ge,
    lt,
    out,
    rw
        (
          block-put_block_self d x freed,
          word-put_self d.stack 0 (freelist_head (d.block 0)) (word-lt (d.block 0) 40),
        )
        (Chain-frame d.block linked.block lo hi (freelist_head (d.block 0)) xs
          (λ k _ m. block-put_block_ne d x k freed (λ e. ground arith)) chain),
  )

  IsFreelist-pushed : IsFreelist (put_block linked 0 (pushed (linked.block 0) x)) lo hi (x ∷ xs)
  IsFreelist-pushed =
      IsFreelist-relisted (IsRegion-put_block x freed f.region (omega arith)) x
        (free_blks_left (linked.block 0) + 1) (x ∷ xs) Chain-linked (rw super-linked (omega arith))
        (rw super-linked (omega (arith, room, works.small))) (omega (arith, works.small))

-- free_blk of a block of the region that is not on the free list succeeds and makes it the first
-- block of the free list. It writes that block and the superblock only.
pub free_blk_lem :
    (d : Machine) (lo hi x : ℕ) (xs : List ℕ)
    → IsFreelist d lo hi xs
    → lo ≤ x
    → x < hi
    → has x xs ≡ false
    → ((free_blk x d).0 ≡ ok tt)
      × IsFreelist (free_blk x d).1 lo hi (x ∷ xs)
      × ((k : ℕ) → k ≢ 0 → k ≢ x → (free_blk x d).1.block k ≡ d.block k)
free_blk_lem d lo hi x xs f ge lt out = rw (free_blk-push f ge lt out) (
  refl,
  IsFreelist-pushed f ge lt out,
  λ k ne nx.
      block-put_block_ne (linked f ge lt out) 0 k _ (λ e. ne (sym e))
      ∙ block-put_block_ne d x k _ (λ e. nx (sym e)),
)

-- A block that is freed is the next one to be allocated: malloc_blk after free_blk returns it, and the
-- free list is what it was before both.
pub malloc_blk-free_blk :
    (d : Machine) (lo hi x y : ℕ) (ys : List ℕ)
    → IsFreelist d lo hi (y ∷ ys)
    → lo ≤ x
    → x < hi
    → has x (y ∷ ys) ≡ false
    → ((malloc_blk (free_blk x d).1).0 ≡ ok x)
      × IsFreelist (malloc_blk (free_blk x d).1).1 lo hi (y ∷ ys)
malloc_blk-free_blk d lo hi x y ys f ge lt out =
    let freed = free_blk_lem d lo hi x (y ∷ ys) f ge lt out in
    let taken = malloc_blk_lem (free_blk x d).1 lo hi x y ys freed.1 in (taken.0, taken.1)
