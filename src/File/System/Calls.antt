-- ===== src/File/System/Calls.antt =====
-- write_file and truncate_file on a device with many files.
use uwufs.Base.{ℕ, ◌*◌, ◌≤◌, ◌<◌, ◌≡◌, inl, inr, sym, subst, List, has, arith, Bool-cases}
use uwufs.Bytes.{Bytes}
use uwufs.Bytes.Fields.{get-cong}
use uwufs.Machine.{Machine}
use uwufs.Layout.{file_size}
use uwufs.Directory.{blks_of_size}
use uwufs.Itable.Table.{inode_in}
use uwufs.File.Map.{IsFile, IsFileBlk}
use uwufs.File.Map.Contract.{IsWritten}
use uwufs.File.Map.Inode.{IsSameMap, IsFile-same, IsFileBlk-same}
use uwufs.File.Map.Truncated.{IsTruncated}
use uwufs.File.System.{blks_of, IsBlkOf}
use uwufs.File.System.Update.{IsUpdate}

-- Two inodes with the same bytes.
abbrev pub IsInode : Bytes → Bytes → Type 0
IsInode ino ino' = (i : ℕ) → i < 256 → ino' i ≡ ino i

pub IsInode-size : (ino ino' : Bytes) → IsInode ino ino' → file_size ino' ≡ file_size ino
IsInode-size ino ino' same = get-cong 8 ino' ino 106 (λ k ge lt. same k (omega arith))

pub IsInode-IsSameMap : (ino ino' : Bytes) → IsInode ino ino' → IsSameMap ino ino'
IsInode-IsSameMap ino ino' same k lt = same k (omega arith)

pub IsFile-inode :
    {lo hi : ℕ} {xs : List ℕ} {d : Machine} (ino ino' : Bytes)
    → IsInode ino ino'
    → IsFile lo hi xs d ino (blks_of_size (file_size ino))
    → IsFile lo hi xs d ino' (blks_of_size (file_size ino'))
IsFile-inode {lo} {hi} {xs} {d} ino ino' same file =
    subst (λ s. IsFile lo hi xs d ino' (blks_of_size s)) (sym (IsInode-size ino ino' same))
      (IsFile-same ino ino' (IsInode-IsSameMap ino ino' same) file)

IsFileBlk-inode :
    (d : Machine) (ino ino' : Bytes) (k : ℕ)
    → IsInode ino ino'
    → IsFileBlk d ino' (blks_of_size (file_size ino')) k
    → IsFileBlk d ino (blks_of_size (file_size ino)) k
IsFileBlk-inode d ino ino' k same b =
    IsFileBlk-same ino ino' (IsInode-IsSameMap ino ino' same) d (blks_of_size (file_size ino)) k
      (subst (λ s. IsFileBlk d ino' (blks_of_size s) k) (IsInode-size ino ino' same) b)

pub IsInode-sym : (ino ino' : Bytes) → IsInode ino ino' → IsInode ino' ino
IsInode-sym ino ino' same i lt = sym (same i lt)

-- A file without blocks.
IsFile-empty : (lo hi : ℕ) (xs : List ℕ) (d : Machine) (ino : Bytes) → IsFile lo hi xs d ino 0
IsFile-empty lo hi xs d ino = record {
  map = record {
    trees = λ p h lt. absurd (omega arith);
    apart = λ p p' k n n'. absurd (omega (arith, n.1));
  };
  taken = λ j lt. absurd (omega arith);
  distinct = λ i j lt. absurd (omega arith);
  own = λ j p lt. absurd (omega arith);
}

pub IsUpdate-truncated :
    (lo hi : ℕ) (xs : List ℕ) (num : ℕ) (d d' : Machine)
    → IsTruncated lo hi xs num (blks_of d num) d d'
    → IsUpdate lo hi xs num d d'
IsUpdate-truncated lo hi xs num d d' t = record {
  rest = t.free;
  freelist = t.freelist;
  file = rw t.no_size (IsFile-empty lo hi t.free d' (inode_in d' num));
  fits = rw t.no_size (omega arith);
  own = λ k b.
      absurd
        (nothing k (subst (λ s. IsFileBlk d' (inode_in d' num) (blks_of_size s) k) t.no_size b));
  off = λ k ge out not_own. elim (Bool-cases (has k t.free)) [
    | inr e ↦ e
    | inl e ↦ elim (t.only k e) [ inl old ↦ absurd (ground arith) | inr b ↦ absurd (not_own b) ]
  ];
  frame = λ k ge _ not_own. t.frame k ge not_own;
  others = t.others;
}
  where
    nothing : (k : ℕ) → ¬ IsFileBlk d' (inode_in d' num) 0 k
    nothing k (inl (j, lt, _)) = absurd (omega arith)
    nothing k (inr (p, (_, lt, _))) = absurd (omega arith)

module _ (lo hi : ℕ) (xs : List ℕ) (buf : Bytes) (size offset : ℕ) (ino : Bytes) (num : ℕ)
    (d : Machine) (w : IsWritten lo hi xs buf size offset ino num d)
    (same : IsInode (inode_in d num) ino) (fits : file_size w.ino' ≤ 4096 * 134480394) where
  pub IsInode-end : IsInode w.ino' (inode_in w.device num)
  IsInode-end i lt = w.table i lt

  blk-before : (k : ℕ) → IsFileBlk d ino (blks_of_size (file_size ino)) k → IsBlkOf d num k
  blk-before k = IsFileBlk-inode d (inode_in d num) ino k same

  blk-read : (k : ℕ) → IsBlkOf d num k → IsFileBlk d ino (blks_of_size (file_size ino)) k
  blk-read k = IsFileBlk-inode d ino (inode_in d num) k (IsInode-sym (inode_in d num) ino same)

  pub IsUpdate-written : IsUpdate lo hi xs num d w.device
  IsUpdate-written = record {
    rest = w.rest;
    freelist = w.freelist;
    file = IsFile-inode w.ino' (inode_in w.device num) IsInode-end w.file;
    fits = rw (IsInode-size w.ino' (inode_in w.device num) IsInode-end) fits;
    own = λ k b.
        elim (w.own k (IsFileBlk-inode w.device w.ino' (inode_in w.device num) k IsInode-end b)) [
          | inl old ↦ inl (blk-before k old)
          | inr free ↦ inr free
        ];
    off = λ k _ out _. w.fewer k out;
    frame = λ k ge out not_own. w.frame k ge out (λ b. not_own (blk-before k b));
    others = w.others;
  }
