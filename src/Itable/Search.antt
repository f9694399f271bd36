-- ===== src/Itable/Search.antt =====
-- find_free_inode returns the smallest free inode number.
use uwufs.Base.{
  ℕ, zero, suc, ◌+◌, ◌-◌, ◌*◌, ◌%◌, ◌^◌, ◌≤◌, ◌<◌, ◌≡◌, refl, sym, ap, ap₂, subst₂, bit_and, ◌∙◌,
  inl, inr, Bool, true, false, ◌&&◌, Option, none, some, arith, ltb, leb, ◌==◌, Bool-cases,
  Option-cases, ltb→lt, not_ltb→le,
}
use uwufs.Bytes.{Bytes}
use uwufs.Bytes.Fields.{get-shift}
use uwufs.Bytes.Blit.{blit-start}
use uwufs.Machine.{Machine, Res, ok, fail, edquot, Works}
use uwufs.Block.Access.{load-ok}
use uwufs.Layout.{file_mode, file_type, f_type_bits, inode_at}
use uwufs.Layout.Super.{ilist_start, ilist_total_size}
use uwufs.Itable.{find_in_blk, return_or, find_in_blks, find_free_inode}
use uwufs.Itable.Table.{inode_in}

-- `r` is the first number from `lo` on and below `hi` that passes the test, or `none` if none does.
abbrev pub IsFirst : (ℕ → Bool) → (lo hi : ℕ) → Option ℕ → Type 0
IsFirst p lo hi none = (j : ℕ) → lo ≤ j → j < hi → p j ≡ false
IsFirst p lo hi (some n) =
    (lo ≤ n) × (n < hi) × (p n ≡ true) × ((j : ℕ) → lo ≤ j → j < n → p j ≡ false)

-- A free inode that may be handed out: 0 and 1 are reserved.
abbrev pub is_free_inode : Machine → ℕ → Bool
is_free_inode d n = leb 2 n && (file_type (inode_in d n) == 0)

-- No number from `lo` on and below `hi` passes.
abbrev pub NoneIn : (ℕ → Bool) → (lo hi : ℕ) → Type 0
NoneIn p lo hi = (j : ℕ) → lo ≤ j → j < hi → p j ≡ false

NoneIn-append : (p : ℕ → Bool) (lo mid hi : ℕ) → NoneIn p lo mid → NoneIn p mid hi → NoneIn p lo hi
NoneIn-append p lo mid hi before after j ge lt = elim (Bool-cases (ltb j mid)) [
  | inl a ↦ before j ge (ltb→lt j mid a)
  | inr b ↦ after j (not_ltb→le j mid b) lt
]

pub IsFirst-append :
    (p : ℕ → Bool) (lo mid hi : ℕ) (r : Option ℕ)
    → lo ≤ mid
    → NoneIn p lo mid
    → IsFirst p mid hi r
    → IsFirst p lo hi r
IsFirst-append p lo mid hi none le before rest = NoneIn-append p lo mid hi before rest
IsFirst-append p lo mid hi (some n) le before (ge, lt, passes, rest) =
    (omega arith, lt, passes, NoneIn-append p lo mid n before rest)

IsFirst-extend :
    (p : ℕ → Bool) (lo mid hi n : ℕ)
    → mid ≤ hi
    → IsFirst p lo mid (some n)
    → IsFirst p lo hi (some n)
IsFirst-extend p lo mid hi n le (ge, lt, passes, rest) = (ge, omega arith, passes, rest)

pub NoneIn-one : (p : ℕ → Bool) (lo : ℕ) → p lo ≡ false → NoneIn p lo (lo + 1)
NoneIn-one p lo h j ge lt = let e : j ≡ lo = omega arith in rw e h

-- The type that the search reads out of the block is that of the inode with the number.
file_type-inode_at :
    (d : Machine) (buf : Bytes) (c i : ℕ)
    → i < 16
    → file_type (inode_at buf (d.block (2 + c)) i) ≡ file_type (inode_in d (c * 16 + i))
file_type-inode_at d buf c i h =
    let same : file_mode (inode_at buf (d.block (2 + c)) i) ≡ file_mode (inode_in d (c * 16 + i)) =
      get-shift 2 (inode_at buf (d.block (2 + c)) i) (inode_in d (c * 16 + i)) 104 104 (λ k lt.
        blit-start buf (d.block (2 + c)) (256 * i) 256 (104 + k) (omega arith)
        ∙ ap₂ (λ b m. d.block (2 + b) (256 * m + (104 + k))) (omega arith) (omega arith)) in
    ap (λ m. bit_and m f_type_bits) same

module _ (d : Machine) (buf : Bytes) (c : ℕ) (small : c < 2 ^ 50) where
  abbrev blk : Bytes
  blk = d.block (2 + c)

  find_in_blk-IsFirst :
      (left i lo : ℕ)
      → left + i ≡ 16
      → lo ≡ c * 16 + i
      → IsFirst (is_free_inode d) lo (c * 16 + 16) (find_in_blk left i c buf blk)
  unfolding find_in_blk
  find_in_blk-IsFirst zero i lo e at = λ j ge lt. absurd (omega arith)
  find_in_blk-IsFirst (suc left) i lo e at =
      let rest = find_in_blk-IsFirst left (i + 1) (lo + 1) (omega arith) (omega arith) in
      let num : (c * 16 + i) % 2 ^ 64 ≡ lo = omega arith in
      let type : file_type (inode_at buf blk i) ≡ file_type (inode_in d lo) =
        file_type-inode_at d buf c i (omega arith) ∙ ap (λ n. file_type (inode_in d n)) (sym at) in
      rw (num, type)
        (elim (Bool-cases (file_type (inode_in d lo) == 0)) [
          | inr used ↦ rw used (
              IsFirst-append (is_free_inode d) lo (lo + 1) (c * 16 + 16) _ (omega arith)
                (NoneIn-one (is_free_inode d) lo (ground arith)) rest)
          | inl free ↦ rw free (elim (Bool-cases (ltb lo 2)) [
            | inl reserved ↦ rw reserved (
                IsFirst-append (is_free_inode d) lo (lo + 1) (c * 16 + 16) _ (omega arith)
                  (NoneIn-one (is_free_inode d) lo (ground arith)) rest)
            | inr usable ↦
                rw usable (omega arith, omega arith, ground arith, λ j ge lt. absurd (omega arith))
          ])
        ])

-- What the search of the blocks returns, as a result of the program.
abbrev pub found : Option ℕ → Res ℕ
found none = fail edquot
found (some n) = ok n

module _ (d : Machine) (w : Works d) where
  find_in_blks-some :
      (left cur n : ℕ)
      → cur < d.size
      → find_in_blk 16 0 (cur - 2) d.stack (d.block cur) ≡ some n
      → find_in_blks (suc left) cur 2 d ≡ (ok n, d)
  unfolding find_in_blks return_or
  find_in_blks-some left cur n h e =
      rw (load-ok cur w h) (ap (λ q. return_or q (find_in_blks left (cur + 1) 2) d) e)

  find_in_blks-none :
      (left cur : ℕ)
      → cur < d.size
      → find_in_blk 16 0 (cur - 2) d.stack (d.block cur) ≡ none
      → find_in_blks (suc left) cur 2 d ≡ find_in_blks left (cur + 1) 2 d
  unfolding find_in_blks return_or
  find_in_blks-none left cur h e =
      rw (load-ok cur w h) (ap (λ q. return_or q (find_in_blks left (cur + 1) 2) d) e)

  find_in_blks-IsFirst :
      (left c cur : ℕ)
      → cur ≡ 2 + c
      → cur + left ≤ d.size
      → (r : Option ℕ) × (find_in_blks left cur 2 d ≡ (found r, d))
        × IsFirst (is_free_inode d) (c * 16) ((c + left) * 16) r
  find_in_blks-IsFirst zero c cur at fits =
      (none, unfold find_in_blks in refl, λ j ge lt. absurd (omega arith))
  find_in_blks-IsFirst (suc left) c cur at fits =
      let here = find_in_blk 16 0 c d.stack (d.block (2 + c)) in
      let first : IsFirst (is_free_inode d) (c * 16) (c * 16 + 16) here =
        find_in_blk-IsFirst d d.stack c (omega (arith, w.small)) 16 0 (c * 16) refl (omega arith) in
      let read : find_in_blk 16 0 (cur - 2) d.stack (d.block cur) ≡ here =
        ap₂ (λ a b. find_in_blk 16 0 a d.stack (d.block b)) (omega arith) at in
      elim (Option-cases here) [
        | inr (n, e) ↦ (
          some n,
          find_in_blks-some left cur n (omega arith) (read ∙ e),
          IsFirst-extend (is_free_inode d) (c * 16) (c * 16 + 16) ((c + suc left) * 16) n
              (omega arith) (rw e at first),
        )
        | inl e ↦
            let (r, run, rest) =
              find_in_blks-IsFirst left (c + 1) (cur + 1) (omega arith) (omega arith) in
            (
              r,
              find_in_blks-none left cur (omega arith) (read ∙ e) ∙ run,
              IsFirst-append (is_free_inode d) (c * 16) (c * 16 + 16) ((c + suc left) * 16) r
                  (omega arith) (rw e at first)
                  (subst₂ (λ lo hi. IsFirst (is_free_inode d) lo hi r) (omega arith) (omega arith)
                    rest),
            )
      ]

-- On a device that works, whose inode blocks start at block 2 and lie on it, find_free_inode returns
-- the smallest number from 2 on of an inode that is free, or EDQUOT if every inode of the table but
-- the two reserved ones is in use. It writes nothing.
pub find_free_inode_lem :
    (d : Machine)
    → Works d
    → ilist_start (d.block 0) ≡ 2
    → 2 + ilist_total_size (d.block 0) ≤ d.size
    → (r : Option ℕ) × (find_free_inode d ≡ (found r, d))
      × IsFirst (is_free_inode d) 0 (ilist_total_size (d.block 0) * 16) r
unfolding find_free_inode
find_free_inode_lem d w start fits =
    let total : ℕ = ilist_total_size (d.block 0) in
    let rounds : (2 + total) % 2 ^ 64 - 2 ≡ total = omega (arith, w.small) in
    let (r, run, first) = find_in_blks-IsFirst d w total 0 2 refl fits in
    (
      r,
      rw (load-ok 0 w (omega arith), start, rounds) run,
      subst₂ (λ lo hi. IsFirst (is_free_inode d) lo hi r) (omega arith) (omega arith) first,
    )
