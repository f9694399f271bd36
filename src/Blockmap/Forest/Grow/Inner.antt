-- ===== src/Blockmap/Forest/Grow/Inner.antt =====
-- What holds of the block once the root of the tree that grew is written into it.
use uwufs.Base.{
  ℕ, ◌+◌, ◌*◌, ◌/◌, ◌%◌, ◌<◌, ◌≡◌, ◌≢◌, ◌⊎◌, inl, inr, refl, sym, ap, subst₂, ◌∙◌, true, false,
  List, has, arith,
}
use uwufs.Bytes.{Bytes}
use uwufs.Layout.{entry}
use uwufs.Blockmap.Forest.{tree_at, IsNode, IsInner, IsTree, IsForest, IsNode-Same, tree_at-Same}
use uwufs.Blockmap.Forest.Count.{width-pos, count, count-last, div-lt, rem-lt_count}
use uwufs.Blockmap.Forest.Frame.{IsTree-Same}
use uwufs.Blockmap.Forest.Grow.Entries.{
  IsBelow, w, m, blk', IsNode-last, not_root-grown, Same-grown, lt-before, entry-before,
  count-before, IsTaken-before, apart-before, Same-before, entry-last, count-after, place,
}

module _ {lo hi level : ℕ} {b1 : ℕ → Bytes} {blk : Bytes} {r q rem n : ℕ} {xs fresh ys : List ℕ}
    {b2 b3 : ℕ → Bytes} {c : ℕ} (g : IsBelow lo hi level b1 blk r q rem n xs fresh ys b2 b3 c) where
  abbrev Node : (i k : ℕ) → Type 0
  Node i k = IsNode level b3 (entry (blk' g) i) (count (w g) (m g + 1) i) k

  -- A node under the new block is one of the tree that grew, or was one before.
  abbrev Place : (i k : ℕ) → Type 0
  Place i k =
      ((i ≡ q) × IsNode level b2 c (rem + 1) k)
      ⊎ ((i < q) × IsNode level b1 (entry blk i) (count (w g) (m g) i) k)

  Node-Place : (i k : ℕ) → i * w g < m g + 1 → Node i k → Place i k
  Node-Place i k lt node = elim (place g i lt) [
    | inl e ↦
        let at : IsNode level b3 c (rem + 1) k =
          subst₂ (λ a t. IsNode level b3 a t k) (entry-last g) (count-after g) (rw e at node) in
        inl (e, IsNode-Same b2 b3 level c (rem + 1) k (Same-grown g) at)
    | inr h ↦
        let at : IsNode level b3 (entry blk i) (count (w g) (m g) i) k =
          subst₂ (λ a t. IsNode level b3 a t k) (entry-before g i h) (count-before g i h) node in
        inr (h, IsNode-Same b1 b3 level _ _ k (Same-before g i h) at)
  ]

  IsTree-Place :
      (i : ℕ)
      → i * w g < m g + 1
      → IsTree lo hi ys level b3 (entry (blk' g) i) (count (w g) (m g + 1) i)
  IsTree-Place i lt = elim (place g i lt) [
    | inl e ↦ rw e (
        subst₂ (IsTree lo hi ys level b3) (sym (entry-last g)) (sym (count-after g))
          (IsTree-Same lo hi ys ys b2 b3 (λ _ h. h) level c (rem + 1) (Same-grown g) g.grown.tree))
    | inr h ↦
        subst₂ (IsTree lo hi ys level b3) (sym (entry-before g i h)) (sym (count-before g i h)) (
          IsTree-Same lo hi xs ys b1 b3 g.fewer level _ _ (Same-before g i h)
            (g.forest.0 i (lt-before g i h)))
  ]

  not_root-Place : (i : ℕ) → ¬ Place i r
  not_root-Place i (inl (e, node)) = not_root-grown g r node refl
  not_root-Place i (inr (h, node)) = g.forest.1 i (lt-before g i h) node

  -- A node of the tree that grew is no node of a tree before it.
  grown-before :
      (i k : ℕ)
      → i < q
      → IsNode level b2 c (rem + 1) k
      → ¬ IsNode level b1 (entry blk i) (count (w g) (m g) i) k
  grown-before i k h node node' = elim (g.grown.nodes k node) [
    | inl old ↦ apart-before g i h k node' old
    | inr new ↦ let out = g.not_fresh k (IsTaken-before g i h k node').2 in absurd (ground arith)
  ]

  apart-Place : (i j k : ℕ) → Place i k → Place j k → i ≡ j
  apart-Place i j k (inl (e, _)) (inl (e', _)) = e ∙ sym e'
  apart-Place i j k (inl (e, node)) (inr (h, node')) = absurd (grown-before j k h node node')
  apart-Place i j k (inr (h, node')) (inl (e, node)) = absurd (grown-before i k h node node')
  apart-Place i j k (inr (h, node)) (inr (h', node')) =
      g.forest.2 i j k (lt-before g i h) (lt-before g j h') node node'

  pub IsForest-grown : IsForest lo hi ys level b3 (blk' g) r (m g + 1)
  IsForest-grown = (
    IsTree-Place,
    (λ i lt node. not_root-Place i (Node-Place i r lt node)),
    λ i j k li lj ni nj. apart-Place i j k (Node-Place i k li ni) (Node-Place j k lj nj),
  )

  pub IsInner-grown :
      (k : ℕ)
      → IsInner level b3 (blk' g) (m g + 1) k
      → IsInner level b1 blk (m g) k ⊎ (has k fresh ≡ true)
  IsInner-grown k (i, lt, node) = elim (Node-Place i k lt node) [
    | inr (h, before) ↦ inl (i, lt-before g i h, before)
    | inl (e, last) ↦ elim (g.grown.nodes k last) [
      | inl old ↦ inl (let (l, at) = IsNode-last g k old in (q, l, at))
      | inr new ↦ inr new
    ]
  ]

  pub frame-grown :
      (k : ℕ) → k ≢ 0 → k ≢ r → ¬ IsInner level b1 blk (m g) k → has k fresh ≡ false → b3 k ≡ b1 k
  frame-grown k pos ne out new =
      g.others k ne
      ∙ g.grown.frame k pos (λ old. let (l, at) = IsNode-last g k old in out (q, l, at)) new

  pub new-grown : tree_at level b3 (entry (b3 r) q) rem ≡ n
  new-grown =
      ap (λ a. tree_at level b3 a rem) (ap (λ b. entry b q) g.written ∙ entry-last g)
      ∙ tree_at-Same b2 b3 level c (rem + 1) rem (Same-grown g) (omega arith)
      ∙ g.grown.new

  old-last :
      (s : ℕ)
      → s < count (w g) (m g) q
      → tree_at level b3 (entry (b3 r) q) s ≡ tree_at level b1 (entry blk q) s
  old-last s lt =
      let lt' : s < rem = rw (count-last (w g) q rem (omega (arith, g.fits))) at lt in
      ap (λ a. tree_at level b3 a s) (ap (λ b. entry b q) g.written ∙ entry-last g)
      ∙ tree_at-Same b2 b3 level c (rem + 1) s (Same-grown g) (omega arith)
      ∙ g.grown.old s lt'

  old-place :
      (p s : ℕ)
      → p * w g < m g
      → s < count (w g) (m g) p
      → tree_at level b3 (entry (b3 r) p) s ≡ tree_at level b1 (entry blk p) s
  old-place p s lt rest = elim (place g p (omega (arith, lt))) [
    | inr h ↦
        ap (λ a. tree_at level b3 a s) (ap (λ b. entry b p) g.written ∙ entry-before g p h)
        ∙ tree_at-Same b1 b3 level _ _ s (Same-before g p h) rest
    | inl e ↦ let rest' : s < count (w g) (m g) q = rw e at rest in rw e (old-last s rest')
  ]

  pub old-grown :
      (j : ℕ)
      → j < m g
      → tree_at level b3 (entry (b3 r) (j / w g)) (j % w g)
        ≡ tree_at level b1 (entry blk (j / w g)) (j % w g)
  old-grown j lt =
      old-place (j / w g) (j % w g) (div-lt (w g) (m g) j (width-pos level) lt)
        (rem-lt_count (w g) (m g) j (width-pos level) lt)
