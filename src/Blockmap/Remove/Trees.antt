-- ===== src/Blockmap/Remove/Trees.antt =====
-- recursive_remove_dblks from index 0 on frees a tree of indirect blocks.
use uwufs.Base.{
  ℕ, zero, suc, ◌+◌, ◌-◌, ◌*◌, ◌/◌, ◌≤◌, ◌<◌, ◌≡◌, ◌⊎◌, inl, inr, refl, sym, ap, ◌∙◌, List, min,
  arith, ◌==◌, ==→eq, not_==→ne, ltb, ltb→lt, not_ltb→le, lt→ltb, lt→not_leb, le→leb, Bool-cases,
}
use native.Mathlib.Nat.{pow-suc}
use uwufs.Bytes.{Bytes}
use uwufs.Machine.{Machine, Io, ok}
use uwufs.Block.Access.{load-ok}
use uwufs.Layout.{entry}
use uwufs.Freelist.Chain.{IsFreelist}
use uwufs.Freelist.Gain.{
  Frees, IsFreed-off, IsFreed-none, IsFreed-same, IsFreed-join, free_blk-Frees,
}
use uwufs.Blockmap.Forest.{IsNode, IsTaken, IsTree, Same, IsNode-Same}
use uwufs.Blockmap.Forest.Count.{width, width-pos, count}
use uwufs.Blockmap.Forest.Frame.{IsNode-IsTaken, IsTree-StaysOff}
use uwufs.Blockmap.Remove.{release_blk, for_entries, recursive_remove_dblks}

release_blk-Frees :
    (d : Machine) (lo hi x : ℕ) (xs : List ℕ)
    → IsFreelist d lo hi xs
    → IsTaken lo hi xs x
    → Frees lo hi xs (λ k. k ≡ x) (release_blk x) d
unfolding release_blk
release_blk-Frees d lo hi x xs f (ge, lt, out) =
    let (d', run, freed) = free_blk-Frees d lo hi x xs f ge lt out in (d', rw run refl, freed)

-- That the tree under a root, of indices from `left` on, is freed where the indices below `end` are
-- removed.
abbrev FreesTree : (level : ℕ) → Type 0
FreesTree level =
    (d : Machine) (lo hi : ℕ) (xs : List ℕ) (root n left end : ℕ)
    → IsFreelist d lo hi xs
    → IsTree lo hi xs level d.block root n
    → left < end
    → n ≡ min (width level) (end - left)
    → Frees lo hi xs (IsNode level d.block root n)
        (recursive_remove_dblks (suc level) 0 end root left (left + width level)) d

Frees-leaf : FreesTree 0
unfolding recursive_remove_dblks
Frees-leaf d lo hi xs root n left end f t lt e =
    let stride : (left + 512 - left) / 512 ≡ 1 = omega arith in
    let (d', run, freed) = release_blk-Frees d lo hi root xs f t in
    (
      d',
      rw
          (
            stride,
            lt→not_leb (left + 512) 0 (omega arith),
            lt→not_leb end left lt,
            le→leb 0 left (omega arith),
          )
          run,
      freed,
    )

-- A tree behind the indices to remove is passed over.
pub recursive_remove_dblks-beyond :
    (level end root left right : ℕ) (d : Machine)
    → 0 < right
    → end ≤ left
    → recursive_remove_dblks (suc level) 0 end root left right d ≡ (ok tt, d)
unfolding recursive_remove_dblks
recursive_remove_dblks-beyond level end root left right d pos le =
    rw (lt→not_leb right 0 pos, le→leb end left le) refl

row-suc : (i w : ℕ) → (i + 1) * w ≡ i * w + w
row-suc i w = grind arith

row-fits : (i w : ℕ) → i < 512 → i * w + w ≤ 512 * w
row-fits i w h = grind arith

-- The entries of one block, against a device `b` on which nothing is freed yet.
module _ (level : ℕ) (frees : FreesTree level) (lo hi : ℕ) (b : ℕ → Bytes) (blk : Bytes)
    (n left end : ℕ) (size : n ≡ min (512 * width level) (end - left)) (some_index : left < end)
    (apart : (i j k : ℕ)
      → i * width level < n
      → j * width level < n
      → IsNode level b (entry blk i) (count (width level) n i) k
      → IsNode level b (entry blk j) (count (width level) n j) k
      → i ≡ j) where
  abbrev w : ℕ
  w = width level

  -- The blocks under the entries from `i` on.
  abbrev Under : (i : ℕ) → ℕ → Type 0
  Under i k = (j : ℕ) × (i ≤ j) × (j * w < n) × IsNode level b (entry blk j) (count w n j) k

  abbrev visit : (child i : ℕ) → Io (Unit {0})
  visit child i = recursive_remove_dblks (suc level) 0 end child (left + i * w) (left + (i + 1) * w)

  module _ (d : Machine) (xs : List ℕ) (i : ℕ) (f : IsFreelist d lo hi xs)
      (trees : (j : ℕ) → i ≤ j → j * w < n → IsTree lo hi xs level b (entry blk j) (count w n j))
      (same : (j : ℕ) → i ≤ j → j * w < n → Same b d.block level (entry blk j) (count w n j)) where
    -- An entry without indices is passed over.
    visit-beyond : i < 512 → n ≤ i * w → visit (entry blk i) i d ≡ (ok tt, d)
    visit-beyond lt beyond =
        recursive_remove_dblks-beyond level end (entry blk i) (left + i * w) (left + (i + 1) * w) d
          (omega (arith, row-suc i w, width-pos level))
          (omega (arith, row-fits i w lt, width-pos level))

    visit-entry :
        i < 512
        → i * w < n
        → Frees lo hi xs (IsNode level b (entry blk i) (count w n i)) (visit (entry blk i) i) d
    visit-entry lt some_entry =
        let s = same i (omega arith) some_entry in
        let t =
          IsTree-StaysOff lo hi xs xs b d.block level _ _ s (λ k _ h. h)
            (trees i (omega arith) some_entry) in
        let (d', run, freed) =
          frees d lo hi xs (entry blk i) (count w n i) (left + i * w) end f t
            (omega (arith, some_entry, size)) (omega (arith, row-fits i w lt, size)) in
        (
          d',
          ap (λ r. recursive_remove_dblks (suc level) 0 end (entry blk i) (left + i * w) r d)
                (omega (arith, row-suc i w))
              ∙ run,
          IsFreed-same (λ k. IsNode-Same b d.block level _ _ k s)
              (λ k m.
                IsNode-Same d.block b level _ _ k
                  (λ k' m'. sym (s k' (IsNode-Same b d.block level _ _ k' s m'))) m)
              freed,
        )

  Under-to :
      (i : ℕ)
      → i * w < n
      → (k : ℕ) → IsNode level b (entry blk i) (count w n i) k ⊎ Under (i + 1) k
      → Under i k
  Under-to i some_entry k (inl m) = (i, omega arith, some_entry, m)
  Under-to i some_entry k (inr (j, ge, lt, m)) = (j, omega arith, lt, m)

  Under-from :
      (i k : ℕ) → Under i k → IsNode level b (entry blk i) (count w n i) k ⊎ Under (i + 1) k
  Under-from i k (j, ge, lt, m) = elim (Bool-cases (i == j)) [
    | inl e ↦ inl (rw (==→eq i j e) m)
    | inr e ↦ inr (j, omega (arith, ge, not_==→ne i j e), lt, m)
  ]

  -- The `for` over the entries.
  entries-Frees :
      (rem i : ℕ) (d : Machine) (xs : List ℕ)
      → i + rem ≡ 512
      → IsFreelist d lo hi xs
      → ((j : ℕ) → i ≤ j → j * w < n → IsTree lo hi xs level b (entry blk j) (count w n j))
      → ((j : ℕ) → i ≤ j → j * w < n → Same b d.block level (entry blk j) (count w n j))
      → Frees lo hi xs (Under i) (for_entries visit rem i blk) d
  unfolding for_entries
  entries-Frees zero i d xs all f trees same =
      (d, refl, IsFreed-none f (λ k (j, ge, lt, _). absurd (grind (arith, ge, lt, size, all))))
  entries-Frees (suc rem) i d xs all f trees same = elim (Bool-cases (ltb (i * w) n)) [
    | inr e ↦
        let beyond = not_ltb→le (i * w) n e in
        let (d', run, freed) =
          entries-Frees rem (i + 1) d xs (omega arith) f (λ j ge. trees j (omega arith))
            (λ j ge. same j (omega arith)) in
        (
          d',
          rw (visit-beyond d xs i f trees same (omega arith) beyond) run,
          IsFreed-same (λ k (j, ge, lt, m). (j, omega arith, lt, m))
              (λ k (j, ge, lt, m). absurd (grind (arith, ge, lt, beyond))) freed,
        )
    | inl e ↦
        let some_entry = ltb→lt (i * w) n e in
        let (d1, run1, freed1) = visit-entry d xs i f trees same (omega arith) some_entry in
        let later : (j k : ℕ)
            → i + 1 ≤ j
            → j * w < n
            → IsNode level b (entry blk j) (count w n j) k
            → ¬ IsNode level b (entry blk i) (count w n i) k =
          λ j k ge lt m m'. absurd (omega (arith, apart i j k some_entry lt m' m)) in
        let (d', run, freed) =
          entries-Frees rem (i + 1) d1 freed1.free (omega arith) freed1.freelist
            (λ j ge lt.
              IsTree-StaysOff lo hi xs freed1.free b b level _ _ (λ k _. refl)
                (λ k m. IsFreed-off freed1 k (later j k ge lt m)) (trees j (omega arith) lt))
            (λ j ge lt k m.
              freed1.frame k
                (omega (
                  arith,
                  f.behind_super,
                  (IsNode-IsTaken lo hi xs level b _ _ k (trees j (omega arith) lt) m).0,
                ))
                (later j k ge lt m)
              ∙ same j (omega arith) lt k m) in
        (
          d',
          rw run1 run,
          IsFreed-same (Under-to i some_entry) (Under-from i) (IsFreed-join freed1 freed),
        )
  ]

width-many : (level : ℕ) → 512 ≤ width level
width-many zero = omega arith
width-many (suc level) = omega (arith, pow-suc 512 (suc level), width-many level)

stride-width : (level left : ℕ) → (left + width (suc level) - left) / 512 ≡ width level
stride-width level left = omega (arith, pow-suc 512 (suc level))

Frees-above : (level : ℕ) → FreesTree level → FreesTree (suc level)
unfolding recursive_remove_dblks
Frees-above level frees d lo hi xs root n left end f ((ge, top, out), (trees, own, apart)) lt e =
    let wide : width (suc level) ≡ 512 * width level = omega (arith, pow-suc 512 (suc level)) in
    let (d1, run1, freed1) =
      entries-Frees level frees lo hi d.block (d.block root) n left end (omega (arith, e, wide)) lt
        apart 512 0 d xs refl f (λ j _. trees j) (λ j _ _ k m. refl) in
    let (d2, run2, freed2) =
      release_blk-Frees d1 lo hi root freed1.free freed1.freelist
        (ge, top, IsFreed-off freed1 root (λ (j, _, lt', m). own j lt' m) out) in
    (
      d2,
      rw
          (
            stride-width level left,
            lt→not_leb (left + width (suc level)) 0 (omega (arith, width-pos (suc level))),
            lt→not_leb end left lt,
            lt→ltb 1 (width level) (omega (arith, width-many level)),
            load-ok root f.works (omega (arith, top, f.within)),
            run1,
            le→leb 0 left (omega arith),
          )
          run2,
      IsFreed-same (λ k h. elim h [ inl (j, _, lt', m) ↦ inr (j, lt', m) | inr m ↦ inl m ])
          (λ k h. elim h [ inl m ↦ inr m | inr (j, lt', m) ↦ inl (j, omega arith, lt', m) ])
          (IsFreed-join freed1 freed2),
    )

-- At any level.
pub recursive_remove_dblks-Frees :
    (level : ℕ) (d : Machine) (lo hi : ℕ) (xs : List ℕ) (root n left end : ℕ)
    → IsFreelist d lo hi xs
    → IsTree lo hi xs level d.block root n
    → left < end
    → n ≡ min (width level) (end - left)
    → Frees lo hi xs
        (IsNode level d.block root n)
        (recursive_remove_dblks (suc level) 0 end root left (left + width level))
        d
recursive_remove_dblks-Frees zero = Frees-leaf
recursive_remove_dblks-Frees (suc level) = Frees-above level (recursive_remove_dblks-Frees level)
