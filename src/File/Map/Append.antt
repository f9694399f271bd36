-- ===== src/File/Map/Append.antt =====
-- append_blks, with which write_file makes a file longer.
use uwufs.Base.{
  ◌^◌, true, false, has, ◌≢◌, ◌⊎◌, ℕ, zero, suc, ◌+◌, ◌*◌, ◌≤◌, ◌<◌, ◌≡◌, inl, inr, refl, sym, ap,
  subst, ◌∙◌, List, [], ◌∷◌, length, arith, ltb, ltb→lt, not_ltb→le, lt→not_leb, Bool-cases,
}
use uwufs.Bytes.{Bytes, zeros}
use uwufs.Machine.{Machine, ok}
use uwufs.Block.Access.{write_blk-ok}
use uwufs.Freelist.Chain.{IsFreelist}
use uwufs.Freelist.Stack.{malloc_blk_lem}
use uwufs.Blockmap.{get_dblk}
use uwufs.Blockmap.Parts.File.{IsExtended}
use uwufs.Blockmap.Parts.Whole.{append_dblk-IsExtended}
use uwufs.File.Write.{append_blks}
use uwufs.File.Map.{IsFile, IsFileBlk}
use uwufs.File.Map.Step.{
  IsRound, cleared, IsFreelist-taken, IsFreelist-cleared, IsFile-cleared, round,
}

-- A file of `count` blocks has become one of `left` more. The blocks that it had are where they were,
-- with what was in them, and the new ones are zeroed.
pub record IsLonger (lo hi : ℕ) (xs : List ℕ) (d : Machine) (ino : Bytes) (count left : ℕ)
    : Type 0 where
  pub ino' : Bytes
  pub device : Machine
  pub rest : List ℕ
  pub run : append_blks left count ino d ≡ (ok ino', device)
  pub freelist : IsFreelist device lo hi rest
  pub file : IsFile lo hi rest device ino' (count + left)
  pub old : (j : ℕ) → j < count → get_dblk ino' j device ≡ get_dblk ino j d
  pub content : (j : ℕ) → j < count → device.block (get_dblk ino j d) ≡ d.block (get_dblk ino j d)
  pub zeroed :
      (j : ℕ) → count ≤ j → j < count + left → device.block (get_dblk ino' j device) ≡ zeros
  pub own :
      (k : ℕ) → IsFileBlk device ino' (count + left) k → IsFileBlk d ino count k ⊎ (has k xs ≡ true)
  pub fewer : (k : ℕ) → has k xs ≡ false → has k rest ≡ false
  pub frame :
      (k : ℕ) → k ≢ 0 → has k xs ≡ false → ¬ IsFileBlk d ino count k → device.block k ≡ d.block k
  pub attributes : (i : ℕ) → 104 ≤ i → ino' i ≡ ino i

module _ (lo hi x y count left : ℕ) (zs : List ℕ) (d : Machine) (ino : Bytes)
    (f : IsFreelist d lo hi (x ∷ y ∷ zs)) (file : IsFile lo hi (x ∷ y ∷ zs) d ino count)
    (most : count < 134480394) (room : 4 ≤ length (y ∷ zs)) where
  extended : IsExtended lo hi (y ∷ zs) (cleared lo hi x y count zs d ino f file most) ino count x
  extended =
      append_dblk-IsExtended (cleared lo hi x y count zs d ino f file most) lo hi ino count x
        (y ∷ zs) (IsFreelist-cleared lo hi x y count zs d ino f file most)
        (IsFile-cleared lo hi x y count zs d ino f file most).map room most
        (omega (arith, f.chain.2, f.within, f.works.small))

  one-IsRound : IsRound lo hi (x ∷ y ∷ zs) d ino count x extended.device extended.ino' extended.rest
  one-IsRound = round lo hi x y count zs d ino f file most extended

  run-round :
      append_blks (suc left) count ino d
      ≡ append_blks left (count + 1) extended.ino' extended.device
  unfolding append_blks
  run-round =
      rw
        (
          (malloc_blk_lem d lo hi x y zs f).0,
          write_blk-ok x (IsFreelist-taken lo hi x y count zs d ino f file most).works
              (omega
                (arith, f.chain.2, (IsFreelist-taken lo hi x y count zs d ino f file most).within))
              zeros,
          extended.run,
          lt→not_leb (2 ^ 63) x (omega (arith, f.chain.2, f.within, f.works.small)),
        )
        refl

  IsLonger-round :
      IsLonger lo hi extended.rest extended.device extended.ino' (count + 1) left
      → IsLonger lo hi (x ∷ y ∷ zs) d ino count (suc left)
  IsLonger-round l =
      let r = one-IsRound in
      let last : l.device.block (get_dblk l.ino' count l.device) ≡ zeros =
        ap l.device.block (l.old count (omega arith))
        ∙ l.content count (omega arith)
        ∙ ap extended.device.block r.new
        ∙ r.zeroed in
      record {
        ino' = l.ino';
        device = l.device;
        rest = l.rest;
        run = run-round ∙ l.run;
        freelist = l.freelist;
        file = subst (IsFile lo hi l.rest l.device l.ino') (omega arith) l.file;
        old = λ j lt. l.old j (omega arith) ∙ r.old j lt;
        content = λ j lt.
            ap l.device.block (sym (r.old j lt))
            ∙ l.content j (omega arith)
            ∙ ap extended.device.block (r.old j lt)
            ∙ r.content j lt;
        zeroed = λ j ge lt. elim (Bool-cases (ltb count j)) [
          | inl c ↦ l.zeroed j (omega (arith, ltb→lt count j c)) (omega arith)
          | inr c ↦ let same : j ≡ count = omega (arith, not_ltb→le count j c) in rw same last
        ];
        own = λ k b. elim (l.own k (subst (λ n. IsFileBlk l.device l.ino' n k) (omega arith) b)) [
          | inl old ↦ r.own k old
          | inr new ↦ inr (elim (Bool-cases (has k (x ∷ y ∷ zs))) [
            | inl free ↦ free
            | inr out ↦ absurd (ground (arith, r.fewer k out))
          ])
        ];
        fewer = λ k out. l.fewer k (r.fewer k out);
        frame = λ k pos out not_own.
            l.frame k pos (r.fewer k out)
              (λ b. elim (r.own k b) [ inl old ↦ not_own old | inr free ↦ absurd (ground arith) ])
            ∙ r.frame k pos out not_own;
        attributes = λ i ge. l.attributes i ge ∙ extended.attributes i ge;
      }

-- On a device that works, where a file of `count` blocks has all its blocks as its own and four free
-- blocks are there for each new one and one more: append_blks succeeds. The file is then one of
-- `left` blocks more with all its blocks as its own; those that it had are where they were, with what
-- was in them, and the new ones are zeroed.
pub append_blks-IsLonger :
    (left : ℕ) (d : Machine) (lo hi : ℕ) (ino : Bytes) (count : ℕ) (xs : List ℕ)
    → IsFreelist d lo hi xs
    → IsFile lo hi xs d ino count
    → 4 * left + 1 ≤ length xs
    → count + left ≤ 134480394
    → IsLonger lo hi xs d ino count left
unfolding append_blks
append_blks-IsLonger zero d lo hi ino count xs f file room most = record {
  ino' = ino;
  device = d;
  rest = xs;
  run = refl;
  freelist = f;
  file = subst (IsFile lo hi xs d ino) (omega arith) file;
  old = λ j lt. refl;
  content = λ j lt. refl;
  zeroed = λ j ge lt. absurd (omega arith);
  own = λ k b. inl (subst (λ n. IsFileBlk d ino n k) (omega arith) b);
  fewer = λ k out. out;
  frame = λ k _ _ _. refl;
  attributes = λ i ge. refl;
}
append_blks-IsLonger (suc left) d lo hi ino count [] f file room most = absurd (omega arith)
append_blks-IsLonger (suc left) d lo hi ino count (x ∷ []) f file room most = absurd (omega arith)
append_blks-IsLonger (suc left) d lo hi ino count (x ∷ y ∷ zs) f file room most =
    let small : count < 134480394 = omega arith in
    let free : 4 ≤ length (y ∷ zs) = omega arith in
    let e = extended lo hi x y count left zs d ino f file small free in
    let r = one-IsRound lo hi x y count left zs d ino f file small free in
    IsLonger-round lo hi x y count left zs d ino f file small free (
      append_blks-IsLonger left e.device lo hi e.ino' (count + 1) e.rest r.freelist r.file
        (omega (arith, r.few)) (omega arith))
