-- ===== src/Blockmap/Remove/Single.antt =====
-- remove_dblk among the direct blocks and in the single indirect block.
use uwufs.Base.{
  ℕ, ◌-◌, ◌*◌, ◌≤◌, ◌<◌, ◌≡◌, ◌≢◌, refl, sym, ap, subst, ◌∙◌, inl, inr, true, false, List, ◌∷◌, has,
  arith, ltb, ◌==◌, if◌then◌else◌, Bool-cases, lt→ltb, ltb→lt, not_ltb→le, le→not_ltb, lt→not_leb,
  ==→eq, not_==→ne, ne→not_==,
}
use uwufs.Bytes.{Bytes}
use uwufs.Machine.{Machine, ok, put_block}
use uwufs.Block.Access.{load-ok, write_blk-ok, block-put_block_self}
use uwufs.Layout.{entry, set_entry, set_direct_blk, single_indirect_blks, set_single_indirect_blks}
use uwufs.Layout.Laws.{word-put_ne}
use uwufs.Freelist.{free_blk}
use uwufs.Freelist.Chain.{IsFreelist}
use uwufs.Freelist.Stack.{free_blk_lem}
use uwufs.Blockmap.{get_dblk}
use uwufs.Blockmap.Append.{IsFreelist-put_block, get_dblk-direct, get_dblk-single, HoldsRoot}
use uwufs.Blockmap.Remove.{remove_dblk, recursive_remove_dblk, release, clear_entry}

-- What remove_dblk promises at an index: it returns the number of the block there and an inode such
-- that the blocks before the index are those that they were, and `xs` is the free list.
abbrev pub IsRemoved : (d : Machine) (lo hi : ℕ) (ino : Bytes) (index : ℕ) (xs : List ℕ) → Type 0
IsRemoved d lo hi ino index xs =
    let d' = (remove_dblk ino index d).1 in
    (ino' : Bytes) × ((remove_dblk ino index d).0 ≡ ok (get_dblk ino index d, ino'))
    × ((j : ℕ) → j < index → get_dblk ino' j d' ≡ get_dblk ino j d)
    × IsFreelist d' lo hi xs

module _ (d : Machine) (lo hi : ℕ) (ino : Bytes) (index : ℕ) (xs : List ℕ)
    (f : IsFreelist d lo hi xs) where
  remove_dblk-direct : index < 10 → IsRemoved d lo hi ino index xs
  unfolding remove_dblk
  remove_dblk-direct h =
      rw
        (lt→not_leb 134480394 index (omega arith), lt→ltb index 10 h, get_dblk-direct ino index d h)
        (
          set_direct_blk ino index 0,
          refl,
          λ j lt.
              get_dblk-direct (set_direct_blk ino index 0) j d (omega arith)
              ∙ word-put_ne ino (8 * j) (8 * index) 0 (ground arith)
              ∙ sym (get_dblk-direct ino j d (omega arith)),
          f,
        )

  module _ (lower : lo ≤ single_indirect_blks ino) (upper : single_indirect_blks ino < hi)
      (out : has (single_indirect_blks ino) xs ≡ false) where
    abbrev root : ℕ
    root = single_indirect_blks ino

    abbrev cleared_blk : Bytes
    cleared_blk = set_entry (d.block root) (index - 10) 0

    abbrev cleared : Machine
    cleared = put_block d root cleared_blk

    IsFreelist-cleared : IsFreelist cleared lo hi xs
    IsFreelist-cleared = IsFreelist-put_block root cleared_blk f (omega (arith, f.behind_super)) out

    remove-cleared :
        index - 10 ≢ 0
        → recursive_remove_dblk 0 root (index - 10) d
          ≡ (ok (entry (d.block root) (index - 10), false), cleared)
    unfolding recursive_remove_dblk clear_entry
    remove-cleared ne =
        rw
          (
            load-ok root f.works (omega (arith, f.within)),
            ne→not_== (index - 10) 0 ne,
            write_blk-ok root f.works (omega (arith, f.within)) cleared_blk,
          )
          refl

    earlier :
        10 ≤ index → index < 522 → (j : ℕ) → j < index → get_dblk ino j cleared ≡ get_dblk ino j d
    earlier ge lt j h = elim (Bool-cases (ltb j 10)) [
      | inl e ↦
          get_dblk-direct ino j cleared (ltb→lt j 10 e)
          ∙ sym (get_dblk-direct ino j d (ltb→lt j 10 e))
      | inr e ↦
          let behind : 10 ≤ j = not_ltb→le j 10 e in
          get_dblk-single ino j root IsFreelist-cleared refl upper behind (omega arith)
          ∙ ap (λ b. entry b (j - 10)) (block-put_block_self d root cleared_blk)
          ∙ word-put_ne (d.block root) (8 * (j - 10)) (8 * (index - 10)) 0 (ground arith)
          ∙ sym (get_dblk-single ino j root f refl upper behind (omega arith))
    ]

    remove_dblk-single : 10 < index → index < 522 → IsRemoved d lo hi ino index xs
    unfolding remove_dblk
    remove_dblk-single gt lt =
        rw
          (
            lt→not_leb 134480394 index (omega arith),
            le→not_ltb index 10 (omega arith),
            lt→ltb index 522 lt,
            remove-cleared (omega arith),
            get_dblk-single ino index root f refl upper (omega arith) lt,
          )
          (ino, refl, earlier (omega arith) lt, IsFreelist-cleared)

    abbrev freed : Machine
    freed = (free_blk root d).1

    remove-freed : recursive_remove_dblk 0 root 0 d ≡ (ok (entry (d.block root) 0, true), freed)
    unfolding recursive_remove_dblk release
    remove-freed =
        let (done, _, _) = free_blk_lem d lo hi root xs f lower upper out in
        rw (load-ok root f.works (omega (arith, f.within)), done) refl

    remove_dblk-last : index ≡ 10 → IsRemoved d lo hi ino 10 (root ∷ xs)
    unfolding remove_dblk
    remove_dblk-last e =
        let (done, freelist, others) = free_blk_lem d lo hi root xs f lower upper out in
        let ino' : Bytes = set_single_indirect_blks ino 0 in
        rw (remove-freed, get_dblk-single ino 10 root f refl upper (omega arith) (omega arith))
          (
            ino',
            refl,
            λ j h.
                get_dblk-direct ino' j freed h
                ∙ word-put_ne ino (8 * j) 80 0 (inl (omega arith))
                ∙ sym (get_dblk-direct ino j d h),
            freelist,
          )

-- For an index below 522, where a single indirect block that is in use is in the data region and not
-- on the free list: remove_dblk returns what get_dblk returned there, get_dblk then returns at
-- every smaller index what it did before, and the free list has gained the single indirect block if
-- the index is 10, else it is unchanged.
pub remove_dblk_lem :
    (d : Machine) (lo hi : ℕ) (ino : Bytes) (index : ℕ) (xs : List ℕ)
    → IsFreelist d lo hi xs
    → HoldsRoot lo hi ino index xs
    → index < 522
    → IsRemoved d lo hi ino index (if index == 10 then single_indirect_blks ino ∷ xs else xs)
remove_dblk_lem d lo hi ino index xs f root lt = elim (Bool-cases (index == 10)) [
  | inl e ↦
      let same : index ≡ 10 = ==→eq index 10 e in
      let (lower, upper, out) = root (omega arith) in
      rw e (
        subst (λ i. IsRemoved d lo hi ino i (single_indirect_blks ino ∷ xs)) (sym same)
          (remove_dblk-last d lo hi ino index xs f lower upper out same))
  | inr e ↦
      let ne = not_==→ne index 10 e in
      rw e (elim (Bool-cases (ltb index 10)) [
        | inl h ↦ remove_dblk-direct d lo hi ino index xs f (ltb→lt index 10 h)
        | inr h ↦
            let ge = not_ltb→le index 10 h in
            let (lower, upper, out) = root ge in
            remove_dblk-single d lo hi ino index xs f lower upper out (omega arith) lt
      ])
]
