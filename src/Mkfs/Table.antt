-- ===== src/Mkfs/Table.antt =====
-- init_inodes clears the blocks of the inode table.
use uwufs.Base.{
  ℕ, zero, suc, ◌+◌, ◌/◌, ◌≤◌, ◌<◌, ◌≡◌, refl, ◌∙◌, ◌⊎◌, inl, inr, List, arith, ◌==◌, ne→not_==,
  Bool-cases, ==→eq, not_==→ne, subst,
}
use uwufs.Bytes.{zeros}
use uwufs.Machine.{Machine, ok, Works, put_block}
use uwufs.Block.Access.{
  write_blk-ok, Works-put_block, size-put_block, block-put_block_self, block-put_block_ne,
}
use uwufs.Freelist.Chain.{IsFreelist}
use uwufs.Freelist.Stack.{Chain-frame}
use uwufs.Mkfs.{clear_blks}

-- The `left` blocks from `i` on are zeroed, and no other block has changed.
pub record IsCleared (d : Machine) (i left : ℕ) (d' : Machine) : Type 0 where
  pub works : Works d'
  pub size_same : d'.size ≡ d.size
  pub cleared : (k : ℕ) → i ≤ k → k < i + left → d'.block k ≡ zeros
  pub others : (k : ℕ) → (k < i) ⊎ (i + left ≤ k) → d'.block k ≡ d.block k

IsCleared-suc :
    (d : Machine) (i left : ℕ) (d' : Machine)
    → IsCleared (put_block d i zeros) (i + 1) left d'
    → IsCleared d i (suc left) d'
IsCleared-suc d i left d' is = record {
  works = is.works;
  size_same = is.size_same ∙ size-put_block d i zeros;
  cleared = λ k ge lt. elim (Bool-cases (i == k)) [
    | inl e ↦
        is.others k (omega (arith, ==→eq i k e))
        ∙ subst (λ j. (put_block d i zeros).block j ≡ zeros) (==→eq i k e)
            (block-put_block_self d i zeros)
    | inr e ↦ is.cleared k (omega (arith, not_==→ne i k e)) (omega arith)
  ];
  others = λ k out. is.others k (omega arith) ∙ block-put_block_ne d i k zeros (omega arith);
}

pub clear_blks-IsCleared :
    (end : ℕ)
    → 10 ≤ end
    → (left i : ℕ) (d : Machine) → Works d
    → i + left ≤ d.size
    → (d' : Machine) × (clear_blks left i end d ≡ (ok tt, d')) × IsCleared d i left d'
unfolding clear_blks
clear_blks-IsCleared end big zero i d w fits = (
  d,
  refl,
  record {
    works = w;
    size_same = refl;
    cleared = λ k ge lt. absurd (omega arith);
    others = λ k out. refl;
  },
)
clear_blks-IsCleared end big (suc left) i d w fits =
    let (d', run, is) =
      clear_blks-IsCleared end big left (i + 1) (put_block d i zeros) (Works-put_block i zeros w)
        (rw size-put_block (omega arith)) in
    (
      d',
      rw (ne→not_== (end / 10) 0 (omega arith), write_blk-ok i w (omega arith) zeros) run,
      IsCleared-suc d i left d' is,
    )

-- The free list is in the superblock and the data region only.
pub IsFreelist-same :
    {d d' : Machine} {lo hi : ℕ} {xs : List ℕ}
    → IsFreelist d lo hi xs
    → Works d'
    → d'.size ≡ d.size
    → d'.block 0 ≡ d.block 0
    → ((k : ℕ) → lo ≤ k → d'.block k ≡ d.block k)
    → IsFreelist d' lo hi xs
IsFreelist-same {d} {d'} {lo} {hi} {xs} f works size super same = record {
  region = record {
    works = works;
    behind_super = f.behind_super;
    ordered = f.ordered;
    within = rw size f.within;
    start = rw super f.start;
    extent = rw super f.extent;
  };
  chain = rw super (Chain-frame d.block d'.block lo hi _ xs (λ k ge _. same k ge) f.chain);
  count = rw super f.count;
}
