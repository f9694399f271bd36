-- ===== src/Blockmap/Parts.antt =====
-- The three trees of an inode.
pub mod File
pub mod Grown
pub mod Whole
pub mod Freed
use uwufs.Base.{
  ℕ, zero, suc, ◌+◌, ◌-◌, ◌*◌, ◌/◌, ◌%◌, ◌^◌, ◌≤◌, ◌<◌, ◌≡◌, ◌≢◌, ◌⊎◌, inl, inr, refl, sym, ap, ◌∙◌,
  List, min, arith, lt→ltb, le→not_ltb, lt→not_leb,
}
use uwufs.Bytes.{Bytes}
use uwufs.Machine.{Machine, ok}
use uwufs.Block.{peek}
use uwufs.Block.Access.{load-ok}
use uwufs.Layout.{
  entry, direct_blk, single_indirect_blks, set_single_indirect_blks, double_indirect_blks,
  set_double_indirect_blks, triple_indirect_blks, set_triple_indirect_blks,
}
use uwufs.Bytes.Fields.{put-outside}
use uwufs.Layout.Laws.{word-put_self, word-put_ne}
use uwufs.Freelist.Chain.{IsFreelist}
use uwufs.Blockmap.{get_dblk, append_dblk, recursive_append_dblk}
use uwufs.Blockmap.Append.{peek-ok}
use uwufs.Blockmap.Trees.{tree_blk, get_dblk-tree_blk}
use uwufs.Blockmap.Forest.{tree_at, IsNode, IsTree}
use uwufs.Blockmap.Forest.Count.{width, width-pos, count, div-lt, rem-lt_count}

-- The first index of the tree of each level, its root and the indices that it can have.
abbrev pub base : ℕ → ℕ
base zero = 10
base (suc zero) = 522
base (suc (suc zero)) = 262666
base (suc (suc (suc _))) = 134480394

abbrev pub root_of : ℕ → Bytes → ℕ
root_of zero ino = single_indirect_blks ino
root_of (suc zero) ino = double_indirect_blks ino
root_of (suc (suc _)) ino = triple_indirect_blks ino

abbrev pub set_root : ℕ → Bytes → ℕ → Bytes
set_root zero ino r = set_single_indirect_blks ino r
set_root (suc zero) ino r = set_double_indirect_blks ino r
set_root (suc (suc _)) ino r = set_triple_indirect_blks ino r

abbrev pub part : (p count : ℕ) → ℕ
part p count = min (width p) (count - base p)

pub base-suc : (p : ℕ) → p < 3 → base (suc p) ≡ base p + width p
base-suc zero h = refl
base-suc (suc zero) h = refl
base-suc (suc (suc zero)) h = refl
base-suc (suc (suc (suc p))) h = absurd (omega arith)

pub set_root-attributes : (p : ℕ) (ino : Bytes) (r i : ℕ) → 104 ≤ i → set_root p ino r i ≡ ino i
set_root-attributes zero ino r i ge = put-outside 8 ino 80 r i (inr (omega arith))
set_root-attributes (suc zero) ino r i ge = put-outside 8 ino 88 r i (inr (omega arith))
set_root-attributes (suc (suc p)) ino r i ge = put-outside 8 ino 96 r i (inr (omega arith))

pub root-set_root :
    (p : ℕ) (ino : Bytes) (r : ℕ) → p < 3 → r < 2 ^ 64 → root_of p (set_root p ino r) ≡ r
root-set_root zero ino r h small = word-put_self ino 80 r small
root-set_root (suc zero) ino r h small = word-put_self ino 88 r small
root-set_root (suc (suc zero)) ino r h small = word-put_self ino 96 r small
root-set_root (suc (suc (suc p))) ino r h small = absurd (omega arith)

pub root-set_root_ne :
    (p p' : ℕ) (ino : Bytes) (r : ℕ)
    → p < 3
    → p' < p
    → root_of p' (set_root p ino r) ≡ root_of p' ino
root-set_root_ne zero p' ino r h lt = absurd (omega arith)
root-set_root_ne (suc zero) zero ino r h lt = word-put_ne ino 80 88 r (ground arith)
root-set_root_ne (suc zero) (suc p') ino r h lt = absurd (omega arith)
root-set_root_ne (suc (suc zero)) zero ino r h lt = word-put_ne ino 80 96 r (ground arith)
root-set_root_ne (suc (suc zero)) (suc zero) ino r h lt = word-put_ne ino 88 96 r (ground arith)
root-set_root_ne (suc (suc zero)) (suc (suc p')) ino r h lt = absurd (omega arith)
root-set_root_ne (suc (suc (suc p))) p' ino r h lt = absurd (omega arith)

pub direct-set_root :
    (p i : ℕ) (ino : Bytes) (r : ℕ) → i < 10 → direct_blk (set_root p ino r) i ≡ direct_blk ino i
direct-set_root zero i ino r h = word-put_ne ino (8 * i) 80 r (ground arith)
direct-set_root (suc zero) i ino r h = word-put_ne ino (8 * i) 88 r (ground arith)
direct-set_root (suc (suc p)) i ino r h = word-put_ne ino (8 * i) 96 r (ground arith)

-- append_dblk in a tree.
pub append_dblk-part :
    (p : ℕ) (ino : Bytes) (index n root' : ℕ) (d d' : Machine)
    → p < 3
    → base p ≤ index
    → index < base (suc p)
    → recursive_append_dblk p (root_of p ino) (index - base p) n d ≡ (ok root', d')
    → append_dblk ino index n d ≡ (ok (n, set_root p ino root'), d')
unfolding append_dblk
append_dblk-part zero ino index n root' d d' h ge lt run =
    rw (lt→not_leb 134480394 index (omega arith), le→not_ltb index 10 ge, lt→ltb index 522 lt, run)
      refl
append_dblk-part (suc zero) ino index n root' d d' h ge lt run =
    rw
      (
        lt→not_leb 134480394 index (omega arith),
        le→not_ltb index 10 (omega arith),
        le→not_ltb index 522 ge,
        lt→ltb index 262666 lt,
        run,
      )
      refl
append_dblk-part (suc (suc zero)) ino index n root' d d' h ge lt run =
    rw
      (
        lt→not_leb 134480394 index (omega arith),
        le→not_ltb index 10 (omega arith),
        le→not_ltb index 522 (omega arith),
        le→not_ltb index 262666 ge,
        run,
      )
      refl
append_dblk-part (suc (suc (suc p))) ino index n root' d d' h ge lt run = absurd (omega arith)

-- get_dblk in a tree whose indirect blocks are on the device.
tree_blk-tree_at :
    (level : ℕ) (d : Machine) (lo hi : ℕ) (xs : List ℕ) (root n i : ℕ)
    → IsFreelist d lo hi xs
    → IsTree lo hi xs level d.block root n
    → i < n
    → tree_blk level d root i ≡ tree_at level d.block root i
unfolding tree_at
tree_blk-tree_at zero d lo hi xs root n i f t h = rw (peek-ok root f t.1) refl
tree_blk-tree_at (suc level) d lo hi xs root n i f (t, forest) h = rw (peek-ok root f t.1) (
    tree_blk-tree_at level d lo hi xs _ (count (width level) n (i / width level)) (i % width level)
      f (forest.0 (i / width level) (div-lt (width level) n i (width-pos level) h))
      (rem-lt_count (width level) n i (width-pos level) h))

pub get_dblk-part :
    (p : ℕ) (ino : Bytes) (i n : ℕ) (d : Machine) (lo hi : ℕ) (xs : List ℕ)
    → p < 3
    → IsFreelist d lo hi xs
    → IsTree lo hi xs p d.block (root_of p ino) n
    → i < n
    → i < width p
    → get_dblk ino (base p + i) d ≡ tree_at p d.block (root_of p ino) i
get_dblk-part zero ino i n d lo hi xs h f t lt fits =
    (get_dblk-tree_blk ino i d).0 fits ∙ tree_blk-tree_at 0 d lo hi xs _ n i f t lt
get_dblk-part (suc zero) ino i n d lo hi xs h f t lt fits =
    (get_dblk-tree_blk ino i d).1 fits ∙ tree_blk-tree_at 1 d lo hi xs _ n i f t lt
get_dblk-part (suc (suc zero)) ino i n d lo hi xs h f t lt fits =
    (get_dblk-tree_blk ino i d).2 fits ∙ tree_blk-tree_at 2 d lo hi xs _ n i f t lt
get_dblk-part (suc (suc (suc p))) ino i n d lo hi xs h f t lt fits = absurd (omega arith)
