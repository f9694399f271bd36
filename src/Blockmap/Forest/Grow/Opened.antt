-- ===== src/Blockmap/Forest/Grow/Opened.antt =====
-- recursive_append_dblk below the block that it has at hand.
use uwufs.Base.{
  ℕ, ◌+◌, ◌*◌, ◌/◌, ◌%◌, ◌^◌, ◌≤◌, ◌<◌, ◌≡◌, ◌⊎◌, refl, sym, ap, subst, subst₂, ◌∙◌, true, false,
  List, [], ◌∷◌, ◌++◌, has, length, arith,
}
use uwufs.Bytes.{Bytes}
use uwufs.Machine.{Machine, ok, put_block}
use uwufs.Block.Access.{block-put_block_self, block-put_block_ne}
use uwufs.Layout.{entry, set_entry}
use uwufs.Freelist.Chain.{IsFreelist}
use uwufs.Blockmap.{recursive_append_dblk}
use uwufs.Blockmap.Append.{IsFreelist-put_block}
use uwufs.Blockmap.Forest.{tree_at, IsTaken, IsInner, IsTree, IsForest}
use uwufs.Blockmap.Forest.Count.{width, width-pos, count, count-last, div-mod_eq, rem-lt}
use uwufs.Blockmap.Forest.Grow.{IsGrown, IsGrownBlk}
use uwufs.Blockmap.Forest.Grow.Entries.{IsBelow}
use uwufs.Blockmap.Forest.Grow.Inner.{
  IsForest-grown, IsInner-grown, frame-grown, new-grown, old-grown,
}

-- What recursive_append_dblk does to a tree.
pub record Outcome (lo hi level : ℕ) (d : Machine) (root index n : ℕ) (xs : List ℕ) : Type 0 where
  pub root' : ℕ
  pub device : Machine
  pub fresh : List ℕ
  pub rest : List ℕ
  pub run : recursive_append_dblk level root index n d ≡ (ok root', device)
  pub split : xs ≡ fresh ++ rest
  pub few : length fresh ≤ level + 1
  pub freelist : IsFreelist device lo hi rest
  pub small : root' < 2 ^ 64
  pub grown : IsGrown lo hi level d.block root index n fresh rest device.block root'

has-append :
    (k : ℕ) (fresh rest : List ℕ)
    → has k (fresh ++ rest) ≡ false
    → (has k fresh ≡ false) × (has k rest ≡ false)
has-append k [] rest h = (refl, h)
has-append k (y ∷ ys) rest h = ground (arith, has-append k ys rest)

pub has-split :
    (k : ℕ) (xs fresh rest : List ℕ)
    → xs ≡ fresh ++ rest
    → has k xs ≡ false
    → (has k fresh ≡ false) × (has k rest ≡ false)
has-split k xs fresh rest e h = has-append k fresh rest (rw e at h)

module _ (lo hi level : ℕ) (d1 : Machine) (r : ℕ) (blk : Bytes) (index n : ℕ) (xs : List ℕ)
    (f : IsFreelist d1 lo hi xs) (taken : IsTaken lo hi xs r)
    (forest : IsForest lo hi xs level d1.block blk r index) where
  abbrev pub q : ℕ
  q = index / width level

  abbrev pub rem : ℕ
  rem = index % width level

  index-eq : index ≡ q * width level + rem
  index-eq = div-mod_eq index (width level) (width-pos level)

  -- The tree that the index lies in, if it has an index already.
  pub below : 0 < rem → IsTree lo hi xs level d1.block (entry blk q) rem
  below pos =
      let lt : q * width level < index = omega (arith, index-eq) in
      subst (IsTree lo hi xs level d1.block (entry blk q))
        (ap (λ t. count (width level) t q) index-eq
          ∙ count-last (width level) q rem
              (omega (arith, rem-lt index (width level) (width-pos level))))
        (forest.0 q lt)

  module _ (o : Outcome lo hi level d1 (entry blk q) rem n xs) where
    abbrev pub written : Machine
    written = put_block o.device r (set_entry blk q o.root')

    pub IsBelow-written :
        IsBelow lo hi level d1.block blk r q rem n xs o.fresh o.rest o.device.block written.block
          o.root'
    IsBelow-written = record {
      behind_super = f.behind_super;
      small = o.small;
      fits = rem-lt index (width level) (width-pos level);
      root = taken;
      fewer = λ k h. (has-split k xs o.fresh o.rest o.split h).1;
      not_fresh = λ k h. (has-split k xs o.fresh o.rest o.split h).0;
      forest = subst (IsForest lo hi xs level d1.block blk r) index-eq forest;
      grown = o.grown;
      written = block-put_block_self o.device r (set_entry blk q o.root');
      others = λ k ne. block-put_block_ne o.device r k _ (λ e. ne (sym e));
    }

    pub IsFreelist-written : IsFreelist written lo hi o.rest
    IsFreelist-written =
        IsFreelist-put_block r (set_entry blk q o.root') o.freelist
          (omega (arith, taken.0, f.behind_super)) (IsBelow-written.fewer r taken.2)

    pub IsGrownBlk-written :
        IsGrownBlk lo hi level d1.block blk r index n o.fresh o.rest written.block
    unfolding tree_at
    IsGrownBlk-written =
        let g = IsBelow-written in
        let same : written.block r ≡ set_entry blk q o.root' = g.written in
        record {
          forest =
              subst₂ (λ b t. IsForest lo hi o.rest level written.block b r (t + 1)) (sym same)
                (sym index-eq) (IsForest-grown g);
          new = new-grown g;
          old = λ j lt. old-grown g j (subst (λ t. j < t) index-eq lt);
          inner = λ k i.
              subst (λ t. IsInner level d1.block blk t k ⊎ (has k o.fresh ≡ true)) (sym index-eq)
                (IsInner-grown g k
                  (subst₂ (λ b t. IsInner level written.block b (t + 1) k) same index-eq i));
          frame = λ k pos ne out new.
              frame-grown g k pos ne
                (λ i. out (subst (λ t. IsInner level d1.block blk t k) (sym index-eq) i)) new;
        }
