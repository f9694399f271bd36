-- ===== src/Blockmap/Remove/Returns.antt =====
-- remove_dblks returns on any device: three levels of recursion are enough.
use uwufs.Base.{
  ℕ, zero, suc, ◌+◌, ◌-◌, ◌*◌, ◌/◌, ◌^◌, ◌≤◌, ◌≡◌, arith, false, if◌then◌else◌, le→not_ltb,
}
use native.Mathlib.Nat.{pow-suc}
use uwufs.Bytes.{Bytes}
use uwufs.Machine.{Res, ok, fail, crash, Io}
use uwufs.Block.Returns.{Returns, returning, handle-Returns, pure-Returns, bind-Returns}
use uwufs.Layout.{single_indirect_blks, double_indirect_blks, triple_indirect_blks}
use uwufs.Freelist.Returns.{free_blk-Returns}
use uwufs.Blockmap.Remove.{succeeds, release_blk, for_entries, recursive_remove_dblks, remove_dblks}

release_blk-Returns : (n : ℕ) → Returns (release_blk n)
unfolding release_blk
release_blk-Returns n = search (returning, handle-Returns, free_blk-Returns) depth 12

for_entries-Returns :
    (visit : ℕ → ℕ → Io (Unit {0})) (left i : ℕ) (blk : Bytes)
    → ((child i : ℕ) → Returns (visit child i))
    → Returns (for_entries visit left i blk)
unfolding for_entries
for_entries-Returns visit zero i blk h = pure-Returns tt
for_entries-Returns visit (suc left) i blk h =
    bind-Returns _ _ (h _ i) λ _. for_entries-Returns visit left (i + 1) blk h

succeeds-Returns :
    {A B : Type 0} (r : Res A) (f : A → Io B) (m : Io B)
    → ((a : A) → Returns (f a))
    → Returns m
    → Returns (succeeds r f m)
succeeds-Returns (ok a) f m h g = h a
succeeds-Returns (fail e) f m h g = g
succeeds-Returns crash f m h g = g

else-Returns : {A : Type 0} (m n : Io A) → Returns n → Returns (if false then m else n)
else-Returns m n h = h

-- The range of a child is one stride wide.
width-child : (left i stride : ℕ) → left + (i + 1) * stride - (left + i * stride) ≡ stride
width-child left i stride = grind arith

recursive_remove_dblks-Returns :
    (depth start end cur_no left right : ℕ)
    → right - left ≤ 512 ^ suc depth
    → Returns (recursive_remove_dblks (suc depth) start end cur_no left right)
unfolding recursive_remove_dblks
recursive_remove_dblks-Returns zero start end cur_no left right h =
    rw (le→not_ltb 1 ((right - left) / 512) (omega arith))
      (search (returning, else-Returns, release_blk-Returns) depth 8)
recursive_remove_dblks-Returns (suc depth) start end cur_no left right h =
    let stride = (right - left) / 512 in
    let wide : right - left ≤ 512 ^ suc depth * 512 = rw pow-suc at h in
    let bound : stride ≤ 512 ^ suc depth = omega arith in
    let child : (c i : ℕ)
        → Returns (
            recursive_remove_dblks (suc depth) start end c (left + i * stride)
              (left + (i + 1) * stride)) =
      λ c i.
        recursive_remove_dblks-Returns depth start end c (left + i * stride)
          (left + (i + 1) * stride) (rw width-child bound) in
    search
      (returning, handle-Returns, succeeds-Returns, for_entries-Returns, release_blk-Returns, child)
      depth 14

pub remove_dblks-Returns : (ino : Bytes) (start end : ℕ) → Returns (remove_dblks ino start end)
unfolding remove_dblks
remove_dblks-Returns ino start end =
    search
      (
        returning,
        recursive_remove_dblks-Returns 0 start end (single_indirect_blks ino) 10 522 (omega arith),
        recursive_remove_dblks-Returns 1 start end (double_indirect_blks ino) 522 262666
            (omega arith),
        recursive_remove_dblks-Returns 2 start end (triple_indirect_blks ino) 262666 134480394
            (omega arith),
      )
      depth 10
