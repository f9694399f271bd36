-- ===== src/Blockmap/Forest/Levels.antt =====
-- recursive_append_dblk at a level above another.
use uwufs.Base.{
  ℕ, suc, ◌/◌, ◌%◌, ◌≡◌, ◌≢◌, inl, inr, refl, ap, ◌∙◌, List, ◌∷◌, arith, eq→==, ne→not_==,
}
use uwufs.Bytes.{zeros}
use uwufs.Machine.{Machine, ok}
use uwufs.Block.Access.{load-ok, write_blk-ok}
use uwufs.Layout.{entry, set_entry}
use uwufs.Freelist.{malloc_blk}
use uwufs.Freelist.Chain.{IsFreelist}
use uwufs.Freelist.Stack.{malloc_blk_lem}
use uwufs.Blockmap.{recursive_append_dblk, or_zero, indirect_blk_for, status_or_zero}
use uwufs.Blockmap.Forest.{tree_at, IsTaken, IsForest}
use uwufs.Blockmap.Forest.Count.{width}
use uwufs.Blockmap.Forest.Grow.Opened.{
  Outcome, written, IsBelow-written, IsFreelist-written, IsGrownBlk-written,
}

-- The indirect block of the level is there.
module _ (lo hi level : ℕ) (d : Machine) (cur index n : ℕ) (xs : List ℕ) (f : IsFreelist d lo hi xs)
    (taken : IsTaken lo hi xs cur)
    (forest : IsForest lo hi xs level d.block (d.block cur) cur index) (ne : index ≢ 0)
    (o : Outcome lo hi level d
      (entry (d.block cur) (index / width level))
      (index % width level)
      n
      xs) where
  abbrev after : Machine
  after = written lo hi level d cur (d.block cur) index n xs f taken forest o

  run-entered : recursive_append_dblk (suc level) cur index n d ≡ (ok cur, after)
  unfolding recursive_append_dblk or_zero indirect_blk_for status_or_zero
  run-entered =
      rw
        (
          ne→not_== index 0 ne,
          load-ok cur f.works (omega (arith, taken.1, f.within)),
          o.run,
          write_blk-ok cur o.freelist.works (omega (arith, taken.1, o.freelist.within))
              (set_entry (d.block cur) (index / width level) o.root'),
        )
        refl

  pub Outcome-above_entered : Outcome lo hi (suc level) d cur index n xs
  unfolding tree_at
  Outcome-above_entered =
      let g = IsGrownBlk-written lo hi level d cur (d.block cur) index n xs f taken forest o in
      let b = IsBelow-written lo hi level d cur (d.block cur) index n xs f taken forest o in
      record {
        root' = cur;
        device = after;
        fresh = o.fresh;
        rest = o.rest;
        run = run-entered;
        split = o.split;
        few = omega (arith, o.few);
        freelist = IsFreelist-written lo hi level d cur (d.block cur) index n xs f taken forest o;
        small = omega (arith, taken.1, f.within, f.works.small);
        grown = record {
          tree = ((taken.0, taken.1, b.fewer cur taken.2), g.forest);
          new = g.new;
          old = g.old;
          nodes = λ k node. elim node [
            | inl e ↦ inl (omega arith, inl e)
            | inr i ↦ elim (g.inner k i) [
              | inl old ↦ inl (omega arith, inr old)
              | inr new ↦ inr new
            ]
          ];
          frame = λ k pos not_old new.
              g.frame k pos (λ e. not_old (omega arith, inl e)) (λ i. not_old (omega arith, inr i))
                new;
        };
      }

-- The index is the first one, and the indirect block is new.
module _ (lo hi level : ℕ) (d : Machine) (cur x y index n : ℕ) (zs : List ℕ)
    (f : IsFreelist d lo hi (x ∷ y ∷ zs)) (e : index ≡ 0) where
  abbrev pub d1 : Machine
  d1 = (malloc_blk d).1

  IsTaken-new : IsTaken lo hi (y ∷ zs) x
  IsTaken-new = (f.chain.1, f.chain.2, f.chain.3)

  pub IsFreelist-new : IsFreelist d1 lo hi (y ∷ zs)
  IsFreelist-new = (malloc_blk_lem d lo hi x y zs f).1

  IsForest-new : IsForest lo hi (y ∷ zs) level d1.block zeros x index
  IsForest-new = (
    (λ i lt. absurd (omega (arith, lt, e))),
    (λ i lt node. absurd (omega (arith, lt, e))),
    λ i j k li lj ni nj. absurd (omega (arith, li, e)),
  )

  module _
      (o : Outcome lo hi level d1
        (entry zeros (index / width level))
        (index % width level)
        n
        (y ∷ zs)) where
    abbrev built : Machine
    built =
        written lo hi level d1 x zeros index n (y ∷ zs) IsFreelist-new IsTaken-new IsForest-new o

    run-started : recursive_append_dblk (suc level) cur index n d ≡ (ok x, built)
    unfolding recursive_append_dblk or_zero indirect_blk_for status_or_zero
    run-started =
        rw
          (
            eq→== index 0 e,
            (malloc_blk_lem d lo hi x y zs f).0,
            o.run,
            write_blk-ok x o.freelist.works (omega (arith, f.chain.2, o.freelist.within))
                (set_entry zeros (index / width level) o.root'),
          )
          refl

    pub Outcome-above_started : Outcome lo hi (suc level) d cur index n (x ∷ y ∷ zs)
    unfolding tree_at
    Outcome-above_started =
        let g =
          IsGrownBlk-written lo hi level d1 x zeros index n (y ∷ zs) IsFreelist-new IsTaken-new
            IsForest-new o in
        let b =
          IsBelow-written lo hi level d1 x zeros index n (y ∷ zs) IsFreelist-new IsTaken-new
            IsForest-new o in
        record {
          root' = x;
          device = built;
          fresh = x ∷ o.fresh;
          rest = o.rest;
          run = run-started;
          split = ap (λ l. x ∷ l) o.split;
          few = omega (arith, o.few);
          freelist =
              IsFreelist-written lo hi level d1 x zeros index n (y ∷ zs) IsFreelist-new IsTaken-new
                IsForest-new o;
          small = omega (arith, f.chain.2, f.within, f.works.small);
          grown = record {
            tree = ((IsTaken-new.0, IsTaken-new.1, b.fewer x IsTaken-new.2), g.forest);
            new = g.new;
            old = λ j h. absurd (omega arith);
            nodes = λ k node. elim node [
              | inl same ↦ inr (ground arith)
              | inr i ↦ elim (g.inner k i) [
                | inl (i', lt, _) ↦ absurd (omega (arith, lt, e))
                | inr new ↦ inr (ground arith)
              ]
            ];
            frame = λ k pos _ new.
                g.frame k pos (λ same. ground arith) (λ i. absurd (omega (arith, i.1, e)))
                  (ground arith)
                ∙ (malloc_blk_lem d lo hi x y zs f).3 k pos;
          };
        }
