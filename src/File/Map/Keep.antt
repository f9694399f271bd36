-- ===== src/File/Map/Keep.antt =====
-- A file stays one when blocks change that are not its indirect blocks, and blocks leave the free list.
use uwufs.Base.{
  refl, ℕ, ◌+◌, ◌-◌, ◌≤◌, ◌<◌, ◌≡◌, inl, inr, sym, subst, ◌∙◌, false, List, has, arith, ltb, ltb→lt,
  not_ltb→le, Bool-cases,
}
use uwufs.Bytes.{Bytes}
use uwufs.Machine.{Machine}
use uwufs.Freelist.Chain.{IsFreelist}
use uwufs.Blockmap.{get_dblk}
use uwufs.Blockmap.Append.{get_dblk-direct}
use uwufs.Blockmap.Forest.{IsTaken, IsTree, Same, IsNode-Same, tree_at-Same}
use uwufs.Blockmap.Forest.Frame.{IsNode-IsTaken, IsTree-StaysOff}
use uwufs.Blockmap.Parts.{base, base-suc, root_of, part, get_dblk-part}
use uwufs.Blockmap.Parts.File.{IsMap, IsMapNode, tree_of}
use uwufs.File.Map.{IsFile, IsFileBlk}

-- An indirect block of a file is taken.
pub IsMapNode-IsTaken :
    {lo hi : ℕ} {xs : List ℕ} {d : Machine} {ino : Bytes} {count : ℕ}
    → IsMap lo hi xs d ino count
    → (p k : ℕ) → IsMapNode d ino count p k
    → IsTaken lo hi xs k
IsMapNode-IsTaken {lo} {hi} {xs} {d} m p k (h, lt, node) =
    IsNode-IsTaken lo hi xs p d.block _ _ k (m.trees p h lt) node

-- So is any of its blocks.
pub IsFileBlk-IsTaken :
    {lo hi : ℕ} {xs : List ℕ} {d : Machine} {ino : Bytes} {count : ℕ}
    → IsFile lo hi xs d ino count
    → (k : ℕ) → IsFileBlk d ino count k
    → IsTaken lo hi xs k
IsFileBlk-IsTaken {lo} {hi} {xs} file k (inl (j, lt, at)) =
    subst (IsTaken lo hi xs) at (file.taken j lt)
IsFileBlk-IsTaken file k (inr (p, node)) = IsMapNode-IsTaken file.map p k node

module _ (lo hi : ℕ) (xs ys : List ℕ) (d e : Machine) (ino : Bytes) (count : ℕ)
    (f : IsFreelist d lo hi xs) (g : IsFreelist e lo hi ys) (m : IsMap lo hi xs d ino count)
    (fewer : (p k : ℕ) → IsMapNode d ino count p k → has k xs ≡ false → has k ys ≡ false)
    (same : (p k : ℕ) → IsMapNode d ino count p k → e.block k ≡ d.block k) where
  kept : (p : ℕ) → p < 3 → base p < count → Same d.block e.block p (root_of p ino) (part p count)
  kept p h lt k node = same p k (h, lt, node)

  pub IsMapNode-kept : (p k : ℕ) → IsMapNode e ino count p k → IsMapNode d ino count p k
  IsMapNode-kept p k (h, lt, node) = (h, lt, IsNode-Same d.block e.block p _ _ k (kept p h lt) node)

  tree-kept :
      (p : ℕ) → p < 3 → base p < count → IsTree lo hi ys p e.block (root_of p ino) (part p count)
  tree-kept p h lt =
      IsTree-StaysOff lo hi xs ys d.block e.block p _ _ (kept p h lt)
        (λ k node. fewer p k (h, lt, node)) (m.trees p h lt)

  pub IsMap-kept : IsMap lo hi ys e ino count
  IsMap-kept = record {
    trees = tree-kept;
    apart = λ p p' k n n'. m.apart p p' k (IsMapNode-kept p k n) (IsMapNode-kept p' k n');
  }

  get_dblk-in :
      (p i : ℕ)
      → p < 3
      → i < part p count
      → get_dblk ino (base p + i) e ≡ get_dblk ino (base p + i) d
  get_dblk-in p i h lt =
      let some_index : base p < count = omega arith in
      get_dblk-part p ino i (part p count) e lo hi ys h g (tree-kept p h some_index) lt
        (omega arith)
      ∙ tree_at-Same d.block e.block p _ _ i (kept p h some_index) lt
      ∙ sym (
          get_dblk-part p ino i (part p count) d lo hi xs h f (m.trees p h some_index) lt
            (omega arith))

  pub get_dblk-kept : (j : ℕ) → count ≤ 134480394 → j < count → get_dblk ino j e ≡ get_dblk ino j d
  get_dblk-kept j most lt = elim (Bool-cases (ltb j 10)) [
    | inl c ↦
        get_dblk-direct ino j e (ltb→lt j 10 c) ∙ sym (get_dblk-direct ino j d (ltb→lt j 10 c))
    | inr c ↦
        let (p, at) = tree_of j (not_ltb→le j 10 c) (omega arith) in
        subst (λ t. get_dblk ino t e ≡ get_dblk ino t d) {x = base p + (j - base p)}
          (omega (arith, at.from))
          (get_dblk-in p (j - base p) at.tree
            (omega (arith, at.from, at.until, base-suc p at.tree)))
  ]

  pub IsFile-kept :
      count ≤ 134480394
      → ((k : ℕ) → IsFileBlk d ino count k → has k xs ≡ false → has k ys ≡ false)
      → IsFile lo hi xs d ino count
      → IsFile lo hi ys e ino count
  IsFile-kept most off file = record {
    map = IsMap-kept;
    taken = λ j lt.
        let (ge, le, out) = file.taken j lt in
        rw (get_dblk-kept j most lt) (ge, le, off _ (inl (j, lt, refl)) out);
    distinct = λ i j li lj eq.
        file.distinct i j li lj (sym (get_dblk-kept i most li) ∙ eq ∙ get_dblk-kept j most lj);
    own =
        λ j p lt node. file.own j p lt (IsMapNode-kept p _ (rw (get_dblk-kept j most lt) at node));
  }

  -- And it has no other blocks.
  pub IsFileBlk-kept :
      count ≤ 134480394 → (k : ℕ) → IsFileBlk e ino count k → IsFileBlk d ino count k
  IsFileBlk-kept most k (inl (j, lt, at)) = inl (j, lt, sym (get_dblk-kept j most lt) ∙ at)
  IsFileBlk-kept most k (inr (p, node)) = inr (p, IsMapNode-kept p k node)
