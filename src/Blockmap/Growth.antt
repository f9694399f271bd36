-- ===== src/Blockmap/Growth.antt =====
-- append_dblk at any index of the first two levels.
use uwufs.Base.{
  ℕ, ◌^◌, ◌≤◌, ◌<◌, ◌≡◌, sym, subst, inl, inr, Bool, false, List, ◌∷◌, has, arith, ltb, ◌==◌,
  if◌then◌else◌, Bool-cases, ltb→lt, not_ltb→le, ==→eq, not_==→ne,
}
use uwufs.Bytes.{Bytes}
use uwufs.Machine.{Machine}
use uwufs.Layout.{single_indirect_blks}
use uwufs.Freelist.Chain.{IsFreelist}
use uwufs.Blockmap.Append.{IsAppended, append_dblk-direct, append_dblk-single, append_dblk-start}

-- Behind index 10 the inode has a single indirect block of the data region that is not on the free
-- list.
abbrev pub HasRoot : (lo hi : ℕ) → Bytes → (index : ℕ) → List ℕ → Type 0
HasRoot lo hi ino index xs =
    10 < index
    → (lo ≤ single_indirect_blks ino)
      × (single_indirect_blks ino < hi)
      × (has (single_indirect_blks ino) xs ≡ false)

-- For an index below 522, where two blocks at least are on the free list, and a single indirect block
-- that is in use is in the data region and not on the free list: append_dblk succeeds, get_dblk then returns the new block at the index and what it returned before at every smaller one,
-- and the free list is unchanged, but at index 10 its first block has become the single indirect
-- block, which is never on the free list.
pub append_dblk_lem :
    (d : Machine) (lo hi x y : ℕ) (ino : Bytes) (index n : ℕ) (ys : List ℕ)
    → IsFreelist d lo hi (x ∷ y ∷ ys)
    → HasRoot lo hi ino index (x ∷ y ∷ ys)
    → index < 522
    → n < 2 ^ 64
    → IsAppended d lo hi ino index n (x ∷ y ∷ ys) (if index == 10 then y ∷ ys else x ∷ y ∷ ys)
append_dblk_lem d lo hi x y ino index n ys f root lt small = elim (Bool-cases (index == 10)) [
  | inl e ↦ goal_at (sym e) (
      subst (λ i. IsAppended d lo hi ino i n (x ∷ y ∷ ys) (y ∷ ys)) (sym (==→eq index 10 e))
        (append_dblk-start d lo hi x y ino n ys f small))
  | inr e ↦
      let ne = not_==→ne index 10 e in
      goal_at (sym e) (elim (Bool-cases (ltb index 10)) [
        | inl h ↦ append_dblk-direct d lo hi ino index n _ f (ltb→lt index 10 h) small
        | inr h ↦
            let ge = not_ltb→le index 10 h in
            let (lower, upper, out) = root (omega arith) in
            append_dblk-single d lo hi ino index n _ f (omega arith) lt small lower upper out
      ])
]
  where
    goal_at :
        {a b : Bool}
        → a ≡ b
        → IsAppended d lo hi ino index n (x ∷ y ∷ ys) (if a then y ∷ ys else x ∷ y ∷ ys)
        → IsAppended d lo hi ino index n (x ∷ y ∷ ys) (if b then y ∷ ys else x ∷ y ∷ ys)
    goal_at e =
        subst (λ b. IsAppended d lo hi ino index n (x ∷ y ∷ ys) (if b then y ∷ ys else x ∷ y ∷ ys))
          e
