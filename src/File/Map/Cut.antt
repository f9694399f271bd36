-- ===== src/File/Map/Cut.antt =====
-- The `for` of truncate_file frees the data blocks of a file, and remove_dblks then its block map.
use uwufs.Base.{
  ℕ, zero, suc, ◌≤◌, ◌<◌, ◌≡◌, ◌⊎◌, inl, inr, refl, sym, ap, ◌∙◌, false, List, has, arith, ◌==◌,
  ==→eq, not_==→ne, ne→not_==, Bool-cases,
}
use uwufs.Bytes.{Bytes}
use uwufs.Machine.{Machine, ok}
use uwufs.Freelist.{free_blk}
use uwufs.Freelist.Chain.{IsFreelist}
use uwufs.Freelist.Gain.{
  IsFreed, Frees, IsFreed-off, IsFreed-none, IsFreed-same, IsFreed-join, free_blk-Frees,
}
use uwufs.Blockmap.{get_dblk}
use uwufs.Blockmap.Parts.File.{IsMap, IsMapNode}
use uwufs.Blockmap.Parts.Freed.{remove_dblks-Frees}
use uwufs.Blockmap.Remove.{remove_dblks}
use uwufs.File.Write.{free_blks}
use uwufs.File.Map.{IsFile, IsFileBlk}
use uwufs.File.Map.Keep.{IsMapNode-IsTaken, IsMapNode-kept, IsMap-kept, get_dblk-kept}

module _ (lo hi : ℕ) (xs : List ℕ) (d : Machine) (ino : Bytes) (count : ℕ)
    (f : IsFreelist d lo hi xs) (file : IsFile lo hi xs d ino count)
    (most : count ≤ 134480394) where
  -- The data blocks from an index on.
  abbrev From : ℕ → ℕ → Type 0
  From i k = (j : ℕ) × (i ≤ j) × (j < count) × (get_dblk ino j d ≡ k)

  module _ (i : ℕ) (e : Machine) (r : IsFreed lo hi xs (From i) d e) where
    not_data : (p k : ℕ) → IsMapNode d ino count p k → ¬ From i k
    not_data p k node (j, _, lt, at) = file.own j p lt (rw at node)

    node-same : (p k : ℕ) → IsMapNode d ino count p k → e.block k ≡ d.block k
    node-same p k node =
        let (ge, _, _) = IsMapNode-IsTaken file.map p k node in
        r.frame k (omega (arith, ge, f.behind_super)) (not_data p k node)

    node-off : (p k : ℕ) → IsMapNode d ino count p k → has k xs ≡ false → has k r.free ≡ false
    node-off p k node = IsFreed-off r k (not_data p k node)

    get_dblk-same : (j : ℕ) → j < count → get_dblk ino j e ≡ get_dblk ino j d
    get_dblk-same j lt =
        get_dblk-kept lo hi xs r.free d e ino count f r.freelist file.map node-off node-same j most
          lt

    IsMap-then : IsMap lo hi r.free e ino count
    IsMap-then = IsMap-kept lo hi xs r.free d e ino count f r.freelist file.map node-off node-same

    node-before : (p k : ℕ) → IsMapNode e ino count p k → IsMapNode d ino count p k
    node-before =
        IsMapNode-kept lo hi xs r.free d e ino count f r.freelist file.map node-off node-same

    node-after : (p k : ℕ) → IsMapNode d ino count p k → IsMapNode e ino count p k
    node-after =
        IsMapNode-kept lo hi r.free xs e d ino count r.freelist f IsMap-then
          (λ p k node _. (IsMapNode-IsTaken file.map p k (node-before p k node)).2)
          (λ p k node. sym (node-same p k (node-before p k node)))

  module _ (i : ℕ) (lt : i < count) (e : Machine) (r : IsFreed lo hi xs (From (suc i)) d e) where
    abbrev x : ℕ
    x = get_dblk ino i d

    freed-next : Frees lo hi r.free (λ k. k ≡ x) (free_blk x) e
    freed-next =
        let (ge, top, out) = file.taken i lt in
        free_blk-Frees e lo hi x r.free r.freelist ge top (
          IsFreed-off r x
            (λ (j, ge', lt', same). absurd (omega (arith, file.distinct j i lt' lt same))) out)

    From-suc : (k : ℕ) → From i k → From (suc i) k ⊎ (k ≡ x)
    From-suc k (j, ge, lt', at) = elim (Bool-cases (i == j)) [
      | inl c ↦ inr (sym at ∙ ap (λ n. get_dblk ino n d) (sym (==→eq i j c)))
      | inr c ↦ inl (j, omega (arith, ge, not_==→ne i j c), lt', at)
    ]

    step : (e' : Machine) × (free_blk x e ≡ (ok tt, e')) × IsFreed lo hi xs (From i) d e'
    step =
        let (e', run, freed) = freed-next in
        (
          e',
          run,
          IsFreed-same
              (λ k c. elim c [
                | inl (j, ge, lt', at) ↦ (j, omega (arith, ge), lt', at)
                | inr same ↦ (i, omega arith, lt, sym same)
              ])
              From-suc (IsFreed-join r freed),
        )

    run-step :
        (e' : Machine) → free_blk x e ≡ (ok tt, e') → free_blks (suc i) ino e ≡ free_blks i ino e'
    unfolding free_blks
    run-step e' run =
        let (ge, _, _) = file.taken i lt in
        rw (get_dblk-same (suc i) e r i lt, ne→not_== x 0 (omega (arith, ge, f.behind_super)), run)
          refl

  free_blks-From :
      (i : ℕ) (e : Machine)
      → i ≤ count
      → IsFreed lo hi xs (From i) d e
      → (e' : Machine) × (free_blks i ino e ≡ (ok tt, e')) × IsFreed lo hi xs (From 0) d e'
  unfolding free_blks
  free_blks-From zero e le r = (e, refl, r)
  free_blks-From (suc i) e le r =
      let lt : i < count = omega arith in
      let (e1, run1, r1) = step i lt e r in
      let (e2, run2, r2) = free_blks-From i e1 (omega arith) r1 in
      (e2, run-step i lt e r e1 run1 ∙ run2, r2)

  -- All blocks of a file are freed.
  pub free_blks-remove_dblks :
      (e : Machine) × (e' : Machine) × (free_blks count ino d ≡ (ok tt, e))
      × (remove_dblks ino 0 count e ≡ (ok tt, e'))
      × IsFreed lo hi xs (IsFileBlk d ino count) d e'
  free_blks-remove_dblks =
      let (e, run, r) =
        free_blks-From count d (omega arith)
          (IsFreed-none f (λ k (j, ge, lt, _). absurd (omega (arith, ge, lt)))) in
      let (e', run', r') =
        remove_dblks-Frees lo hi r.free e ino count (IsMap-then 0 e r) r.freelist in
      (
        e,
        e',
        run,
        run',
        IsFreed-same
            (λ k c. elim c [
              | inl (j, _, lt, at) ↦ inl (j, lt, at)
              | inr (p, node) ↦ inr (p, node-before 0 e r p k node)
            ])
            (λ k c. elim c [
              | inl (j, lt, at) ↦ inl (j, omega arith, lt, at)
              | inr (p, node) ↦ inr (p, node-after 0 e r p k node)
            ])
            (IsFreed-join r r'),
      )
