-- ===== src/File/System/Update.antt =====
-- An operation on one file, seen from the others.
use uwufs.Base.{
  ℕ, ◌+◌, ◌*◌, ◌/◌, ◌%◌, ◌≤◌, ◌<◌, ◌≡◌, ◌≢◌, ◌⊎◌, inl, inr, refl, sym, ap, subst, ◌∙◌, true, false,
  List, has, arith, ◌==◌, Bool-cases, ==→eq, not_==→ne,
}
use uwufs.Bytes.{Bytes}
use uwufs.Bytes.Fields.{get-cong}
use uwufs.Machine.{Machine}
use uwufs.Layout.{file_size}
use uwufs.Blockmap.{get_dblk}
use uwufs.Directory.{blks_of_size}
use uwufs.Itable.Table.{inode_in}
use uwufs.Freelist.Chain.{IsFreelist}
use uwufs.File.Read.Aligned.{file_byte}
use uwufs.File.Map.{IsFile, IsFileBlk}
use uwufs.File.Map.Keep.{IsFileBlk-IsTaken, IsFile-kept, IsFileBlk-kept, get_dblk-kept}
use uwufs.File.Map.Inode.{IsSameMap, get_dblk-same, IsFile-same, IsFileBlk-same}
use uwufs.File.System.{blks_of, IsBlkOf, IsSystem}

-- What an operation on the file of the inode `num` does: it takes blocks from the free list and gives
-- blocks of its own back, and it writes no other blocks of the data region and no other inode.
pub record IsUpdate (lo hi : ℕ) (xs : List ℕ) (num : ℕ) (d d' : Machine) : Type 0 where
  pub rest : List ℕ
  pub freelist : IsFreelist d' lo hi rest
  pub file : IsFile lo hi rest d' (inode_in d' num) (blks_of d' num)
  pub fits : file_size (inode_in d' num) ≤ 4096 * 134480394
  pub own : (k : ℕ) → IsBlkOf d' num k → IsBlkOf d num k ⊎ (has k xs ≡ true)
  pub off : (k : ℕ) → lo ≤ k → has k xs ≡ false → ¬ IsBlkOf d num k → has k rest ≡ false
  pub frame : (k : ℕ) → lo ≤ k → has k xs ≡ false → ¬ IsBlkOf d num k → d'.block k ≡ d.block k
  pub others : (n i : ℕ) → n ≢ num → 2 + n / 16 < lo → i < 256 → inode_in d' n i ≡ inode_in d n i

-- The inode is what it was, and so are the size, the blocks and the bytes of its file.
pub record IsUntouched (d d' : Machine) (n : ℕ) : Type 0 where
  pub size : file_size (inode_in d' n) ≡ file_size (inode_in d n)
  pub inode : (i : ℕ) → i < 256 → inode_in d' n i ≡ inode_in d n i
  pub content :
      (j : ℕ)
      → j < blks_of d n
      → d'.block (get_dblk (inode_in d' n) j d') ≡ d.block (get_dblk (inode_in d n) j d)
  pub bytes :
      (p : ℕ)
      → p < 4096 * blks_of d n
      → file_byte (inode_in d' n) p d' ≡ file_byte (inode_in d n) p d

module _ (lo hi : ℕ) (xs : List ℕ) (InUse : ℕ → Type 0) (num : ℕ) (used : InUse num)
    (d d' : Machine) (s : IsSystem lo hi xs InUse d) (u : IsUpdate lo hi xs num d d') where
  module _ (n : ℕ) (used_n : InUse n) (ne : n ≢ num) where
    most : blks_of d n ≤ 134480394
    most = omega (arith, s.fits n used_n)

    same_map : IsSameMap (inode_in d n) (inode_in d' n)
    same_map k lt = u.others n k ne (s.in_table n used_n) (omega arith)

    same_size : file_size (inode_in d' n) ≡ file_size (inode_in d n)
    same_size =
        get-cong 8 (inode_in d' n) (inode_in d n) 106
          (λ k ge lt. u.others n k ne (s.in_table n used_n) (omega arith))

    -- Its blocks are neither free nor of the other file.
    blk-off : (k : ℕ) → IsBlkOf d n k → has k xs ≡ false → has k u.rest ≡ false
    blk-off k b out =
        u.off k (IsFileBlk-IsTaken (s.file n used_n) k b).0 out
          (λ b'. ne (s.apart n num k used_n used b b'))

    blk-same : (k : ℕ) → IsBlkOf d n k → d'.block k ≡ d.block k
    blk-same k b =
        let (ge, _, out) = IsFileBlk-IsTaken (s.file n used_n) k b in
        u.frame k ge out (λ b'. ne (s.apart n num k used_n used b b'))

    IsFile-untouched : IsFile lo hi u.rest d' (inode_in d' n) (blks_of d' n)
    IsFile-untouched = rw same_size (
        IsFile-same (inode_in d n) (inode_in d' n) same_map (
          IsFile-kept lo hi xs u.rest d d' (inode_in d n) (blks_of d n) s.freelist u.freelist
            (s.file n used_n).map (λ p k node. blk-off k (inr (p, node)))
            (λ p k node. blk-same k (inr (p, node))) most blk-off (s.file n used_n)))

    IsBlkOf-untouched : (k : ℕ) → IsBlkOf d' n k → IsBlkOf d n k
    IsBlkOf-untouched k b =
        IsFileBlk-kept lo hi xs u.rest d d' (inode_in d n) (blks_of d n) s.freelist u.freelist
          (s.file n used_n).map (λ p k' node. blk-off k' (inr (p, node)))
          (λ p k' node. blk-same k' (inr (p, node))) most k
          (IsFileBlk-same (inode_in d n) (inode_in d' n) same_map d' (blks_of d n) k
            (subst (λ t. IsFileBlk d' (inode_in d' n) (blks_of_size t) k) same_size b))

    content-untouched :
        (j : ℕ)
        → j < blks_of d n
        → d'.block (get_dblk (inode_in d' n) j d') ≡ d.block (get_dblk (inode_in d n) j d)
    content-untouched j lt =
        ap d'.block (
          get_dblk-same (inode_in d n) (inode_in d' n) same_map j d'
          ∙ get_dblk-kept lo hi xs u.rest d d' (inode_in d n) (blks_of d n) s.freelist u.freelist
              (s.file n used_n).map (λ p k node. blk-off k (inr (p, node)))
              (λ p k node. blk-same k (inr (p, node))) j most lt)
        ∙ blk-same _ (inl (j, lt, refl))

    pub untouched : IsUntouched d d' n
    untouched = record {
      size = same_size;
      inode = λ i lt. u.others n i ne (s.in_table n used_n) lt;
      content = content-untouched;
      bytes = λ p lt. ap (λ (b : Bytes). b (p % 4096)) (content-untouched (p / 4096) (omega arith));
    }

  this-or-other : (n : ℕ) → (num ≡ n) ⊎ (n ≢ num)
  this-or-other n = elim (Bool-cases (num == n)) [
    | inl e ↦ inl (==→eq num n e)
    | inr e ↦ inr (λ h. not_==→ne num n e (sym h))
  ]

  -- A block of the file that was changed is of no other file.
  not_shared : (m k : ℕ) → InUse m → m ≢ num → IsBlkOf d' num k → IsBlkOf d' m k → num ≡ m
  not_shared m k used_m ne b b' =
      let old = IsBlkOf-untouched m used_m ne k b' in
      elim (u.own k b) [
        | inl mine ↦ s.apart num m k used used_m mine old
        | inr free ↦
            let (_, _, out) = IsFileBlk-IsTaken (s.file m used_m) k old in absurd (ground arith)
      ]

  pub IsSystem-update : IsSystem lo hi u.rest InUse d'
  IsSystem-update = record {
    freelist = u.freelist;
    file = λ n used_n. elim (this-or-other n) [
      | inl e ↦ subst (λ m. IsFile lo hi u.rest d' (inode_in d' m) (blks_of d' m)) e u.file
      | inr ne ↦ IsFile-untouched n used_n ne
    ];
    fits = λ n used_n. elim (this-or-other n) [
      | inl e ↦ subst (λ m. file_size (inode_in d' m) ≤ 4096 * 134480394) e u.fits
      | inr ne ↦ rw (same_size n used_n ne) (s.fits n used_n)
    ];
    in_table = s.in_table;
    apart = λ n m k used_n used_m b b'. elim (this-or-other n) [
      | inl e ↦ elim (this-or-other m) [
        | inl e' ↦ sym e ∙ e'
        | inr ne' ↦ sym e ∙ not_shared m k used_m ne' (subst (λ t. IsBlkOf d' t k) (sym e) b) b'
      ]
      | inr ne ↦ elim (this-or-other m) [
        | inl e' ↦ sym (not_shared n k used_n ne (subst (λ t. IsBlkOf d' t k) (sym e') b') b) ∙ e'
        | inr ne' ↦
            s.apart n m k used_n used_m (IsBlkOf-untouched n used_n ne k b)
              (IsBlkOf-untouched m used_m ne' k b')
      ]
    ];
  }
