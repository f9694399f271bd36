-- ===== src/Blockmap/Forest/Frame.antt =====
-- A tree stays one when other blocks change and blocks leave the free list.
use uwufs.Base.{ℕ, zero, suc, ◌*◌, ◌<◌, ◌≡◌, inl, inr, refl, false, List, has}
use uwufs.Bytes.{Bytes}
use uwufs.Layout.{entry}
use uwufs.Blockmap.Forest.Count.{width, count}
use uwufs.Blockmap.Forest.{IsNode, IsTaken, IsTree, Same, Same-entry, IsNode-Same}

-- Every indirect block of a tree is taken.
pub IsNode-IsTaken :
    (lo hi : ℕ) (xs : List ℕ) (level : ℕ) (b : ℕ → Bytes) (root n k : ℕ)
    → IsTree lo hi xs level b root n
    → IsNode level b root n k
    → IsTaken lo hi xs k
IsNode-IsTaken lo hi xs zero b root n k t m = rw m t
IsNode-IsTaken lo hi xs (suc level) b root n k (t, f) (inl e) = rw e t
IsNode-IsTaken lo hi xs (suc level) b root n k (t, f) (inr (i, lt, m)) =
    IsNode-IsTaken lo hi xs level b _ _ k (f.0 i lt) m

-- It is enough that the indirect blocks of the tree stay off the free list.
module _ (lo hi : ℕ) (xs ys : List ℕ) (b c : ℕ → Bytes) where
  abbrev pub StaysOff : (level root n : ℕ) → Type 0
  StaysOff level root n = (k : ℕ) → IsNode level b root n k → has k xs ≡ false → has k ys ≡ false

  pub IsTree-StaysOff :
      (level root n : ℕ)
      → Same b c level root n
      → StaysOff level root n
      → IsTree lo hi xs level b root n
      → IsTree lo hi ys level c root n
  IsTree-StaysOff zero root n s off (ge, lt, out) = (ge, lt, off root refl out)
  IsTree-StaysOff (suc level) root n s off ((ge, top, out), (trees, own, apart)) = (
    (ge, top, off root (inl refl) out),
    rw (s root (inl refl)) (
      (λ i lt. IsTree-StaysOff level _ _ (below i lt) (λ k m. off k (inr (i, lt, m))) (trees i lt)),
      (λ i lt m. own i lt (IsNode-Same b c level _ _ root (below i lt) m)),
      λ i j k li lj mi mj.
          apart i j k li lj (IsNode-Same b c level _ _ k (below i li) mi)
            (IsNode-Same b c level _ _ k (below j lj) mj),
    ),
  )
    where
      below :
          (i : ℕ)
          → i * width level < n
          → Same b c level (entry (b root) i) (count (width level) n i)
      below i lt = Same-entry b c level root n i s lt

  pub IsTree-Same :
      ((k : ℕ) → has k xs ≡ false → has k ys ≡ false)
      → (level root n : ℕ) → Same b c level root n
      → IsTree lo hi xs level b root n
      → IsTree lo hi ys level c root n
  IsTree-Same fewer level root n s = IsTree-StaysOff level root n s (λ k _. fewer k)
