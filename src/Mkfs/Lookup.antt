-- ===== src/Mkfs/Lookup.antt =====
-- Names and paths on a device on which only the root directory is.
use uwufs.Base.{
  ℕ, zero, suc, ◌+◌, ◌*◌, ◌/◌, ◌%◌, ◌≤◌, ◌<◌, ◌≡◌, ◌≢◌, ◌⊎◌, refl, sym, ap, ◌∙◌, inl, inr, false,
  none, some, List, [], ◌∷◌, ◌++◌, arith, bit_and, length, Bool-cases, lt→ltb, le→not_ltb, eq→==,
  ne→not_==,
}
use mathlib.Core.List.{append-nil}
use uwufs.Bytes.{Bytes}
use uwufs.Bytes.Fields.{get-cong}
use uwufs.Bytes.Blit.{blit-start}
use uwufs.Machine.{Machine, ok, fail, enoent, enametoolong, raise}
use uwufs.Block.Access.{load-ok}
use uwufs.Layout.{file_type, file_size, inode_at, f_type_bits}
use uwufs.Itable.{read_inode}
use uwufs.Itable.Table.{read_inode-ok}
use uwufs.Blockmap.{get_dblk}
use uwufs.Blockmap.Append.{get_dblk-direct}
use uwufs.File.Read.Aligned.{next-get_dblk}
use uwufs.Directory.{same_text}
use uwufs.Directory.Text.{same_text-eq}
use uwufs.Directory.Lookup.{matches, search_entries, found_or, next_inode_in_path}
use uwufs.Paths.{segments}
use uwufs.Paths.Namei.{walk, namei}
use uwufs.Paths.Resolve.{Walks, here, step, walk-Walks}
use uwufs.Mkfs.{root_inode}
use uwufs.Mkfs.Dots.{dot, dots, IsRootBlk, search-dot, search-dots}
use uwufs.Mkfs.Root.{IsRooted, root_inode-mode, root_inode-size, root_inode-direct}

-- No entry matches.
search_entries-none :
    (left j : ℕ) (blk : Bytes) (s : List ℕ)
    → ((k : ℕ) → j ≤ k → k < j + left → matches blk s k ≡ false)
    → search_entries left j blk s ≡ none
unfolding search_entries
search_entries-none zero j blk s h = refl
search_entries-none (suc left) j blk s h =
    rw (h j (omega arith) (omega arith))
      (search_entries-none left (j + 1) blk s (λ k ge lt. h k (omega arith) (omega arith)))

module _ (blk : Bytes) (r : IsRootBlk blk) (s : List ℕ) (not_dot : s ≢ dot)
    (not_dots : s ≢ dots) where
  differs : (t : List ℕ) → s ≢ t → same_text t s ≡ false
  differs t ne = elim (Bool-cases (same_text t s)) [
    | inl e ↦ absurd (ne (sym (same_text-eq t s e)))
    | inr e ↦ e
  ]

  misses : (k : ℕ) → k < 16 → matches blk s k ≡ false
  misses zero lt = ground (arith, ap (λ t. same_text t s) r.dot_name ∙ differs dot not_dot)
  misses (suc zero) lt = ground (arith, ap (λ t. same_text t s) r.dots_name ∙ differs dots not_dots)
  misses (suc (suc k)) lt = rw (r.others (suc (suc k)) (omega arith) lt) refl

  search-other : search_entries 16 0 blk s ≡ none
  search-other = search_entries-none 16 0 blk s (λ k ge lt. misses k lt)

-- Segments that lead from the root directory to itself.
abbrev pub IsDots : List (List ℕ) → Type 0
IsDots [] = Unit
IsDots (s ∷ ss) = ((s ≡ dot) ⊎ (s ≡ dots)) × IsDots ss

module _ (d d' : Machine) (isize hi x : ℕ) (rest : List ℕ)
    (r : IsRooted isize x rest (2 + isize) hi d d') (some_inodes : 0 < isize)
    (in_region : 2 + isize ≤ x) (below : x < hi) where
  abbrev root : Bytes
  root = inode_at d'.stack (d'.block (2 + 2 / 16)) (2 % 16)

  read-root : read_inode 2 d' ≡ (ok root, d')
  read-root =
      read_inode-ok 2 r.freelist.works (omega (arith, r.freelist.ordered, r.freelist.within))

  root-same : (i : ℕ) → i < 256 → root i ≡ root_inode x r.time i
  root-same i lt =
      blit-start d'.stack (d'.block (2 + 2 / 16)) (256 * (2 % 16)) 256 i lt
      ∙ r.inodes 2 i (omega arith) lt

  root-type : file_type root ≡ 8192
  root-type =
      ap (λ m. bit_and m f_type_bits)
        (get-cong 2 root (root_inode x r.time) 104 (λ k ge lt. root-same k (omega arith))
          ∙ root_inode-mode x r.time)

  root-size : file_size root ≡ 4096
  root-size =
      get-cong 8 root (root_inode x r.time) 106 (λ k ge lt. root-same k (omega arith))
      ∙ root_inode-size x r.time

  root-direct : get_dblk root 0 d' ≡ x
  root-direct =
      get_dblk-direct root 0 d' (omega arith)
      ∙ get-cong 8 root (root_inode x r.time) 0 (λ k ge lt. root-same k (omega arith))
      ∙ root_inode-direct x r.time (omega (arith, below, r.freelist.within, r.freelist.works.small))

  lookup-root :
      (s : List ℕ)
      → next_inode_in_path s root d'
        ≡ found_or (search_entries 16 0 (d'.block x) s) (raise enoent) d'
  unfolding next_inode_in_path
  lookup-root s =
      rw
        (
          root-size,
          next-get_dblk root 0 d' (omega arith),
          root-direct,
          ne→not_== x 0 (omega arith),
          load-ok x r.freelist.works (omega (arith, below, r.freelist.within)),
        )
        refl

  lookup-dots : (s : List ℕ) → (s ≡ dot) ⊎ (s ≡ dots) → next_inode_in_path s root d' ≡ (ok 2, d')
  lookup-dots s e =
      lookup-root s ∙ ap (λ o. found_or o (raise enoent) d') (hit e) ∙ (unfold found_or in refl)
    where
      hit : (s ≡ dot) ⊎ (s ≡ dots) → search_entries 16 0 (d'.block x) s ≡ some 2
      hit (inl e) = rw e (search-dot (d'.block x) r.entries)
      hit (inr e) = rw e (search-dots (d'.block x) r.entries)

  lookup-other :
      (s : List ℕ) → s ≢ dot → s ≢ dots → next_inode_in_path s root d' ≡ (fail enoent, d')
  lookup-other s a b =
      lookup-root s
      ∙ ap (λ o. found_or o (raise enoent) d') (search-other (d'.block x) r.entries s a b)
      ∙ (unfold found_or in refl)

  short-dots : (s : List ℕ) → (s ≡ dot) ⊎ (s ≡ dots) → length s < 248
  short-dots s (inl e) = rw e (omega arith)
  short-dots s (inr e) = rw e (omega arith)

  Walks-dots : (ss : List (List ℕ)) → IsDots ss → Walks d' 2 root 2 root ss
  Walks-dots [] h = here
  Walks-dots (s ∷ ss) (h, hs) =
      step root-type (short-dots s h) (lookup-dots s h) (omega arith) read-root (Walks-dots ss hs)

  pub namei-dots :
      (fuel : ℕ) (path : List ℕ)
      → IsDots (segments path)
      → namei (suc fuel) path none d' ≡ (ok 2, d')
  unfolding namei
  namei-dots fuel path h = rw read-root (
      ap (λ ss. walk (λ link. namei fuel link none) ss 2 root d') (sym (append-nil (segments path)))
      ∙ walk-Walks (λ link. namei fuel link none) [] (Walks-dots (segments path) h)
      ∙ (unfold walk in refl))

  pub namei-other :
      (fuel : ℕ) (path s : List ℕ) (ss rest : List (List ℕ))
      → segments path ≡ ss ++ s ∷ rest
      → IsDots ss
      → length s < 248
      → s ≢ dot
      → s ≢ dots
      → namei (suc fuel) path none d' ≡ (fail enoent, d')
  unfolding namei
  namei-other fuel path s ss rest e h short a b = rw read-root (
      ap (λ all. walk (λ link. namei fuel link none) all 2 root d') e
      ∙ walk-Walks (λ link. namei fuel link none) (s ∷ rest) (Walks-dots ss h)
      ∙ (unfold walk in
          rw (
            lt→ltb (length s) 248 short,
            ne→not_== (file_type root) 4096 (omega (arith, root-type)),
            eq→== (file_type root) 8192 root-type,
            lookup-other s a b,
          )))

  -- A segment that is too long, whatever follows.
  pub namei-long :
      (fuel : ℕ) (path s : List ℕ) (ss rest : List (List ℕ))
      → segments path ≡ ss ++ s ∷ rest
      → IsDots ss
      → 248 ≤ length s
      → namei (suc fuel) path none d' ≡ (fail enametoolong, d')
  unfolding namei
  namei-long fuel path s ss rest e h long = rw read-root (
      ap (λ all. walk (λ link. namei fuel link none) all 2 root d') e
      ∙ walk-Walks (λ link. namei fuel link none) (s ∷ rest) (Walks-dots ss h)
      ∙ (unfold walk in rw (le→not_ltb (length s) 248 long) refl))
