-- ===== src/Blockmap/Forest/Append.antt =====
-- recursive_append_dblk at any level.
use uwufs.Base.{
  ℕ, zero, suc, ◌+◌, ◌*◌, ◌%◌, ◌^◌, ◌≤◌, ◌<◌, ◌≡◌, ◌≢◌, inl, inr, refl, sym, ap, ◌∙◌, List, [], ◌∷◌,
  ◌==◌, length, arith, Bool-cases, ==→eq, not_==→ne,
}
use native.Mathlib.Nat.{zero-mod}
use uwufs.Bytes.{zeros}
use uwufs.Machine.{Machine}
use uwufs.Block.Access.{block-put_block_self, block-put_block_ne}
use uwufs.Layout.{entry, set_entry}
use uwufs.Layout.Laws.{word-put_self, word-put_ne}
use uwufs.Freelist.{malloc_blk}
use uwufs.Freelist.Chain.{IsFreelist}
use uwufs.Freelist.Stack.{malloc_blk_lem}
use uwufs.Blockmap.Append.{
  IsFreelist-put_block, append-entered, append-started, entered, started, IsFreelist-started,
}
use uwufs.Blockmap.Forest.{tree_at, IsTaken, IsTree}
use uwufs.Blockmap.Forest.Count.{width}
use uwufs.Blockmap.Forest.Grow.Opened.{Outcome, below}
use uwufs.Blockmap.Forest.Levels.{d1, IsFreelist-new, Outcome-above_entered, Outcome-above_started}

-- A block of a single level that is there.
Outcome-entered :
    (d : Machine) (lo hi cur i n : ℕ) (xs : List ℕ)
    → IsFreelist d lo hi xs
    → IsTaken lo hi xs cur
    → n < 2 ^ 64
    → i ≢ 0
    → Outcome lo hi 0 d cur i n xs
unfolding tree_at
Outcome-entered d lo hi cur i n xs f (ge, lt, out) small ne =
    let self = block-put_block_self d cur (set_entry (d.block cur) i n) in
    record {
      root' = cur;
      device = entered d lo hi cur i n xs f ge lt;
      fresh = [];
      rest = xs;
      run = append-entered d lo hi cur i n xs f ge lt ne;
      split = refl;
      few = omega arith;
      freelist = IsFreelist-put_block cur _ f (omega (arith, f.behind_super)) out;
      small = omega (arith, f.within, f.works.small);
      grown = record {
        tree = (ge, lt, out);
        new = ap (λ b. entry b i) self ∙ word-put_self (d.block cur) (8 * i) n small;
        old = λ j h.
            ap (λ b. entry b j) self ∙ word-put_ne (d.block cur) (8 * j) (8 * i) n (ground arith);
        nodes = λ k e. inl (omega arith, e);
        frame = λ k pos not_old _. block-put_block_ne d cur k _ (λ e. not_old (omega arith, sym e));
      };
    }

-- A new block of a single level.
Outcome-started :
    (d : Machine) (lo hi cur x y i n : ℕ) (zs : List ℕ)
    → IsFreelist d lo hi (x ∷ y ∷ zs)
    → n < 2 ^ 64
    → i ≡ 0
    → Outcome lo hi 0 d cur i n (x ∷ y ∷ zs)
unfolding tree_at
Outcome-started d lo hi cur x y i n zs f small e =
    let (taken, left, out, others) = malloc_blk_lem d lo hi x y zs f in
    let self = block-put_block_self (malloc_blk d).1 x (set_entry zeros 0 n) in
    record {
      root' = x;
      device = started d lo hi cur x y n zs f;
      fresh = x ∷ [];
      rest = y ∷ zs;
      run = rw e (append-started d lo hi cur x y n zs f);
      split = refl;
      few = omega arith;
      freelist = IsFreelist-started d lo hi cur x y n zs f;
      small = omega (arith, f.chain.2, f.within, f.works.small);
      grown = record {
        tree = (f.chain.1, f.chain.2, out);
        new = ap (λ b. entry b i) self ∙ rw e (word-put_self zeros 0 n small);
        old = λ j h. absurd (omega arith);
        nodes = λ k same. inr (ground arith);
        frame = λ k pos _ new.
            block-put_block_ne (malloc_blk d).1 x k _ (λ same. ground arith) ∙ others k pos;
      };
    }

-- At least two blocks are on the list.
two-of_length :
    (P : List ℕ → Type 0) (xs : List ℕ)
    → 2 ≤ length xs
    → ((x y : ℕ) (zs : List ℕ) → xs ≡ x ∷ y ∷ zs → P (x ∷ y ∷ zs))
    → P xs
two-of_length P [] h f = absurd (omega arith)
two-of_length P (x ∷ []) h f = absurd (omega arith)
two-of_length P (x ∷ y ∷ zs) h f = f x y zs refl

-- On a device that works, recursive_append_dblk of an index that is the number of indices that the
-- tree has, with enough blocks on the free list for one at each level and the buffer: it returns a
-- root under which the tree has one index more.
pub append-Outcome :
    (level : ℕ) (d : Machine) (lo hi cur index n : ℕ) (xs : List ℕ)
    → IsFreelist d lo hi xs
    → level + 2 ≤ length xs
    → n < 2 ^ 64
    → (0 < index → IsTree lo hi xs level d.block cur index)
    → Outcome lo hi level d cur index n xs
append-Outcome zero d lo hi cur index n xs f room small tree = elim (Bool-cases (index == 0)) [
  | inl e ↦
      two-of_length (λ l. Outcome lo hi 0 d cur index n l) xs (omega (arith, room))
        λ x y zs same.
          Outcome-started d lo hi cur x y index n zs (rw same at f) small (==→eq index 0 e)
  | inr e ↦
      let ne = not_==→ne index 0 e in
      Outcome-entered d lo hi cur index n xs f (tree (omega arith)) small ne
]
append-Outcome (suc level) d lo hi cur index n xs f room small tree =
    elim (Bool-cases (index == 0)) [
      | inl e ↦
          let zero_index = ==→eq index 0 e in
          two-of_length (λ l. Outcome lo hi (suc level) d cur index n l) xs (omega (arith, room))
            λ x y zs same.
              let f' : IsFreelist d lo hi (x ∷ y ∷ zs) = rw same at f in
              let room' : suc level + 2 ≤ length (x ∷ y ∷ zs) = rw same at room in
              Outcome-above_started lo hi level d cur x y index n zs f' zero_index (
                append-Outcome level (d1 lo hi level d cur x y index n zs f' zero_index) lo hi _ _ n
                  (y ∷ zs) (IsFreelist-new lo hi level d cur x y index n zs f' zero_index)
                  (omega (arith, room')) small
                  λ pos. absurd (
                    omega
                      (arith, pos, ap (λ t. t % width level) zero_index, zero-mod (width level))))
      | inr e ↦
          let ne = not_==→ne index 0 e in
          let (taken, forest) = tree (omega arith) in
          Outcome-above_entered lo hi level d cur index n xs f taken forest ne (
            append-Outcome level d lo hi _ _ n xs f (omega (arith, room)) small
              (below lo hi level d cur (d.block cur) index n xs f taken forest))
    ]
