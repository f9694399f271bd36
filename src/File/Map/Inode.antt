-- ===== src/File/Map/Inode.antt =====
-- The block map of an inode is in its first 104 bytes.
use uwufs.Base.{
  ℕ, zero, suc, ◌*◌, ◌<◌, ◌≡◌, inl, inr, refl, sym, ◌∙◌, List, arith, ltb, ltb→lt, Bool-cases,
}
use uwufs.Bytes.{Bytes, get}
use uwufs.Bytes.Fields.{get-cong, put-outside}
use uwufs.Layout.{file_size, set_file_size}
use uwufs.Layout.Laws.{word-put_ne}
use uwufs.Machine.{Machine}
use uwufs.Blockmap.{blk_no_at, get_dblk}
use uwufs.Blockmap.Parts.{root_of}
use uwufs.Blockmap.Parts.File.{IsMapNode}
use uwufs.File.Write.{stamped}
use uwufs.File.Map.{IsFile, IsFileBlk}

-- Two inodes with the same addresses.
abbrev pub IsSameMap : Bytes → Bytes → Type 0
IsSameMap ino ino' = (k : ℕ) → k < 104 → ino' k ≡ ino k

module _ (ino ino' : Bytes) (same : IsSameMap ino ino') where
  word-same : (i : ℕ) → i < 13 → get 8 ino' (8 * i) ≡ get 8 ino (8 * i)
  word-same i h = get-cong 8 ino' ino (8 * i) (λ k lo hi. same k (omega arith))

  root-same : (p : ℕ) → root_of p ino' ≡ root_of p ino
  root-same zero = word-same 10 (omega arith)
  root-same (suc zero) = word-same 11 (omega arith)
  root-same (suc (suc p)) = word-same 12 (omega arith)

  pub get_dblk-same : (j : ℕ) (d : Machine) → get_dblk ino' j d ≡ get_dblk ino j d
  unfolding get_dblk blk_no_at
  get_dblk-same j d = elim (Bool-cases (ltb j 10)) [
    | inl e ↦ rw e (word-same j (omega (arith, ltb→lt j 10 e)))
    | inr e ↦ rw (e, root-same 0, root-same 1, root-same 2) refl
  ]

  node-same : (d : Machine) (count p k : ℕ) → IsMapNode d ino' count p k → IsMapNode d ino count p k
  node-same d count p k (h, lt, node) = (h, lt, rw (root-same p) at node)

  pub IsFileBlk-same :
      (d : Machine) (count k : ℕ) → IsFileBlk d ino' count k → IsFileBlk d ino count k
  IsFileBlk-same d count k (inl (j, lt, at)) = inl (j, lt, sym (get_dblk-same j d) ∙ at)
  IsFileBlk-same d count k (inr (p, node)) = inr (p, node-same d count p k node)

  pub IsFile-same :
      {lo hi : ℕ} {xs : List ℕ} {d : Machine} {count : ℕ}
      → IsFile lo hi xs d ino count
      → IsFile lo hi xs d ino' count
  IsFile-same {d} {count} file = record {
    map = record {
      trees = λ p h lt. rw (root-same p) (file.map.trees p h lt);
      apart = λ p p' k n n'.
          file.map.apart p p' k (node-same d count p k n) (node-same d count p' k n');
    };
    taken = λ j lt. rw (get_dblk-same j d) (file.taken j lt);
    distinct =
        λ i j li lj e. file.distinct i j li lj (sym (get_dblk-same i d) ∙ e ∙ get_dblk-same j d);
    own = λ j p lt node. file.own j p lt (node-same d count p _ (rw (get_dblk-same j d) at node));
  }

pub IsSameMap-sym : (ino ino' : Bytes) → IsSameMap ino ino' → IsSameMap ino' ino
IsSameMap-sym ino ino' same k lt = sym (same k lt)

-- What write_file stores in the inode.
pub stamped-IsSameMap : (ino : Bytes) (t : ℕ) → IsSameMap ino (stamped ino t)
stamped-IsSameMap ino t k h =
    put-outside 8 _ 140 t k (inl (omega arith))
    ∙ put-outside 8 _ 132 t k (inl (omega arith))
    ∙ put-outside 8 ino 124 t k (inl (omega arith))

pub file_size-stamped : (ino : Bytes) (t : ℕ) → file_size (stamped ino t) ≡ file_size ino
file_size-stamped ino t =
    word-put_ne _ 106 140 t (ground arith)
    ∙ word-put_ne _ 106 132 t (ground arith)
    ∙ word-put_ne ino 106 124 t (ground arith)

pub set_file_size-IsSameMap : (ino : Bytes) (n : ℕ) → IsSameMap ino (set_file_size ino n)
set_file_size-IsSameMap ino n k h = put-outside 8 ino 106 n k (inl (omega arith))
