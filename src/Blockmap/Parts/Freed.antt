-- ===== src/Blockmap/Parts/Freed.antt =====
-- remove_dblks from index 0 on frees all indirect blocks of a file.
use uwufs.Base.{
  ℕ, suc, ◌≤◌, ◌<◌, ◌≡◌, ◌⊎◌, inl, inr, refl, sym, ap, ◌∙◌, List, arith, ltb, ltb→lt, not_ltb→le,
  lt→not_leb, Bool-cases, ◌==◌, ==→eq, not_==→ne,
}
use uwufs.Bytes.{Bytes}
use uwufs.Machine.{Machine, Io, ok}
use uwufs.Freelist.Chain.{IsFreelist}
use uwufs.Freelist.Gain.{IsFreed, Frees, IsFreed-off, IsFreed-none, IsFreed-same, IsFreed-join}
use uwufs.Blockmap.Forest.{IsTree, Same, IsNode-Same}
use uwufs.Blockmap.Forest.Count.{width-pos}
use uwufs.Blockmap.Forest.Frame.{IsNode-IsTaken, IsTree-StaysOff}
use uwufs.Blockmap.Remove.{recursive_remove_dblks, remove_dblks}
use uwufs.Blockmap.Remove.Trees.{recursive_remove_dblks-Frees, recursive_remove_dblks-beyond}
use uwufs.Blockmap.Parts.{base, base-suc, root_of, part}
use uwufs.Blockmap.Parts.File.{IsMap, IsMapNode}

module _ (lo hi : ℕ) (xs : List ℕ) (d : Machine) (ino : Bytes) (blks : ℕ)
    (m : IsMap lo hi xs d ino blks) where
  abbrev Nodes : ℕ → ℕ → Type 0
  Nodes p k = IsMapNode d ino blks p k

  -- The indirect blocks of the trees before `q`.
  abbrev Before : ℕ → ℕ → Type 0
  Before q k = (p : ℕ) × (p < q) × Nodes p k

  abbrev remove_part : ℕ → Io (Unit {0})
  remove_part p = recursive_remove_dblks (suc p) 0 blks (root_of p ino) (base p) (base (suc p))

  -- A tree is there until it is its turn.
  module _ (q : ℕ) (h : q < 3) (e : Machine) (r : IsFreed lo hi xs (Before q) d e) where
    not_yet : (k : ℕ) → Nodes q k → ¬ Before q k
    not_yet k n (p, lt, n') = absurd (omega (arith, lt, m.apart p q k n' n))

    Same-yet : base q < blks → Same d.block e.block q (root_of q ino) (part q blks)
    Same-yet lt k n =
        let (ge, _, _) = IsNode-IsTaken lo hi xs q d.block _ _ k (m.trees q h lt) n in
        r.frame k (omega (arith, ge, r.freelist.behind_super)) (not_yet k (h, lt, n))

    tree-yet : base q < blks → IsTree lo hi r.free q e.block (root_of q ino) (part q blks)
    tree-yet lt =
        IsTree-StaysOff lo hi xs r.free d.block e.block q _ _ (Same-yet lt)
          (λ k n. IsFreed-off r k (not_yet k (h, lt, n))) (m.trees q h lt)

    part-beyond : blks ≤ base q → Frees lo hi r.free (Nodes q) (remove_part q) e
    part-beyond le = (
      e,
      recursive_remove_dblks-beyond q blks (root_of q ino) (base q) (base (suc q)) e
          (omega (arith, base-suc q h, width-pos q)) le,
      IsFreed-none r.freelist (λ k (_, lt, _). absurd (omega (arith, lt, le))),
    )

    part-within : base q < blks → Frees lo hi r.free (Nodes q) (remove_part q) e
    part-within lt =
        let (e', run, freed) =
          recursive_remove_dblks-Frees q e lo hi r.free (root_of q ino) (part q blks) (base q) blks
            r.freelist (tree-yet lt) lt refl in
        (
          e',
          ap (λ right. recursive_remove_dblks (suc q) 0 blks (root_of q ino) (base q) right e)
                (base-suc q h)
              ∙ run,
          IsFreed-same (λ k n. (h, lt, IsNode-Same d.block e.block q _ _ k (Same-yet lt) n))
              (λ k (_, _, n).
                IsNode-Same e.block d.block q _ _ k
                  (λ k' n'.
                    sym (Same-yet lt k' (IsNode-Same d.block e.block q _ _ k' (Same-yet lt) n')))
                  n)
              freed,
        )

    part-Frees : Frees lo hi r.free (Nodes q) (remove_part q) e
    part-Frees = elim (Bool-cases (ltb (base q) blks)) [
      | inl c ↦ part-within (ltb→lt (base q) blks c)
      | inr c ↦ part-beyond (not_ltb→le (base q) blks c)
    ]

    Before-suc : (k : ℕ) → Before (suc q) k → Before q k ⊎ Nodes q k
    Before-suc k (p, lt, n) = elim (Bool-cases (p == q)) [
      | inl c ↦ inr (rw (==→eq p q c) at n)
      | inr c ↦ inl (p, omega (arith, lt, not_==→ne p q c), n)
    ]

    next-Before :
        (e' : Machine) × (remove_part q e ≡ (ok tt, e')) × IsFreed lo hi xs (Before (suc q)) d e'
    next-Before =
        let (e', run, freed) = part-Frees in
        (
          e',
          run,
          IsFreed-same
              (λ k c. elim c [
                | inl (p, lt, n) ↦ (p, omega (arith, lt), n)
                | inr n ↦ (q, omega arith, n)
              ])
              Before-suc (IsFreed-join r freed),
        )

  all-Frees :
      IsFreelist d lo hi xs
      → 0 < blks
      → Frees lo hi xs (λ k. (p : ℕ) × Nodes p k) (remove_dblks ino 0 blks) d
  unfolding remove_dblks
  all-Frees f pos =
      let r0 = IsFreed-none f (λ k (p, lt, _). absurd (omega (arith, lt))) in
      let (e1, run1, r1) = next-Before 0 (omega arith) d r0 in
      let (e2, run2, r2) = next-Before 1 (omega arith) e1 r1 in
      let (e3, run3, r3) = next-Before 2 (omega arith) e2 r2 in
      (
        e3,
        rw (lt→not_leb blks 0 pos, run1, run2, run3) refl,
        IsFreed-same (λ k (p, _, n). (p, n)) (λ k (p, n). (p, n.0, n)) r3,
      )

  none-Frees :
      IsFreelist d lo hi xs
      → blks ≡ 0
      → Frees lo hi xs (λ k. (p : ℕ) × Nodes p k) (remove_dblks ino 0 blks) d
  unfolding remove_dblks
  none-Frees f e =
      (d, rw e refl, IsFreed-none f (λ k (p, (_, lt, _)). absurd (omega (arith, lt, e))))

  -- remove_dblks of all indices of a file succeeds and puts its indirect blocks on the free list.
  pub remove_dblks-Frees :
      IsFreelist d lo hi xs
      → Frees lo hi xs (λ k. (p : ℕ) × IsMapNode d ino blks p k) (remove_dblks ino 0 blks) d
  remove_dblks-Frees f = elim (Bool-cases (ltb 0 blks)) [
    | inl c ↦ all-Frees f (ltb→lt 0 blks c)
    | inr c ↦ none-Frees f (omega (arith, not_ltb→le 0 blks c))
  ]
