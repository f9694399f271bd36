-- ===== src/Blockmap/Forest/Grow/Entries.antt =====
-- The block `r` with the content `blk` names trees with `index` indices in all. The tree under its
-- entry `q` has grown, from the blocks `b1` to `b2`, and its root is written there: this gives `b3`.
use uwufs.Base.{
  ℕ, ◌+◌, ◌*◌, ◌^◌, ◌<◌, ◌≡◌, ◌≢◌, ◌⊎◌, inl, inr, sym, ap, ◌∙◌, false, List, has, arith, ◌==◌,
  Bool-cases, ==→eq, not_==→ne,
}
use uwufs.Bytes.{Bytes}
use uwufs.Layout.{entry, set_entry}
use uwufs.Layout.Laws.{word-put_self, word-put_ne}
use uwufs.Blockmap.Forest.{IsNode, IsTaken, IsForest, Same}
use uwufs.Blockmap.Forest.Count.{width, width-pos, count, count-full, count-last, entry-le}
use uwufs.Blockmap.Forest.Frame.{IsNode-IsTaken}
use uwufs.Blockmap.Forest.Grow.{IsOld, IsGrown}

pub record IsBelow (lo hi level : ℕ) (b1 : ℕ → Bytes) (blk : Bytes) (r q rem n : ℕ)
    (xs fresh ys : List ℕ) (b2 b3 : ℕ → Bytes) (c : ℕ) : Type 0 where
  pub behind_super : 0 < lo
  pub small : c < 2 ^ 64
  pub fits : rem < width level
  pub root : IsTaken lo hi xs r
  pub fewer : (k : ℕ) → has k xs ≡ false → has k ys ≡ false
  pub not_fresh : (k : ℕ) → has k xs ≡ false → has k fresh ≡ false
  pub forest : IsForest lo hi xs level b1 blk r (q * width level + rem)
  pub grown : IsGrown lo hi level b1 (entry blk q) rem n fresh ys b2 c
  pub written : b3 r ≡ set_entry blk q c
  pub others : (k : ℕ) → k ≢ r → b3 k ≡ b2 k

module _ {lo hi level : ℕ} {b1 : ℕ → Bytes} {blk : Bytes} {r q rem n : ℕ} {xs fresh ys : List ℕ}
    {b2 b3 : ℕ → Bytes} {c : ℕ} (g : IsBelow lo hi level b1 blk r q rem n xs fresh ys b2 b3 c) where
  abbrev pub w : ℕ
  w = width level

  abbrev pub m : ℕ
  m = q * w + rem

  abbrev pub blk' : Bytes
  blk' = set_entry blk q c

  -- Two places: the entry that grew, and those before it.
  pub IsNode-last :
      (k : ℕ)
      → IsOld level b1 (entry blk q) rem k
      → (q * w < m) × IsNode level b1 (entry blk q) (count w m q) k
  IsNode-last k (pos, node) = (omega arith, rw (count-last w q rem (omega (arith, g.fits))) node)

  pub not_root-grown : (k : ℕ) → IsNode level b2 c (rem + 1) k → k ≢ r
  not_root-grown k node e = elim (g.grown.nodes k node) [
    | inl old ↦ let (lt, at) = IsNode-last k old in g.forest.1 q lt (rw e at at)
    | inr new ↦ let out = g.not_fresh r g.root.2 in absurd (ground arith)
  ]

  pub Same-grown : Same b2 b3 level c (rem + 1)
  Same-grown k node = g.others k (not_root-grown k node)

  module _ (i : ℕ) (before : i < q) where
    pub lt-before : i * w < m
    lt-before = grind (arith, width-pos level)

    pub entry-before : entry blk' i ≡ entry blk i
    entry-before = word-put_ne blk (8 * i) (8 * q) c (ground arith)

    pub count-before : count w (m + 1) i ≡ count w m i
    count-before =
        ap (λ t. count w t i) {y = q * w + (rem + 1)} (omega arith)
        ∙ count-full w q (rem + 1) i before
        ∙ sym (count-full w q rem i before)

    pub IsTaken-before :
        (k : ℕ) → IsNode level b1 (entry blk i) (count w m i) k → IsTaken lo hi xs k
    IsTaken-before k node = IsNode-IsTaken lo hi xs level b1 _ _ k (g.forest.0 i lt-before) node

    -- No block is both in a tree before the entry and in the tree that grew.
    pub apart-before :
        (k : ℕ)
        → IsNode level b1 (entry blk i) (count w m i) k
        → ¬ IsOld level b1 (entry blk q) rem k
    apart-before k node old =
        let (lt, at) = IsNode-last k old in
        let e : i ≡ q = g.forest.2 i q k lt-before lt node at in omega arith

    pub Same-before : Same b1 b3 level (entry blk i) (count w m i)
    Same-before k node =
        let (ge, _, out) = IsTaken-before k node in
        g.others k (λ e. g.forest.1 i lt-before (rw e at node))
        ∙ g.grown.frame k (omega (arith, g.behind_super)) (apart-before k node) (g.not_fresh k out)

  pub entry-last : entry blk' q ≡ c
  entry-last = word-put_self blk (8 * q) c g.small

  pub count-after : count w (m + 1) q ≡ rem + 1
  count-after =
      ap (λ t. count w t q) {y = q * w + (rem + 1)} (omega arith)
      ∙ count-last w q (rem + 1) (omega (arith, g.fits))

  pub place : (i : ℕ) → i * w < m + 1 → (i ≡ q) ⊎ (i < q)
  place i lt = elim (Bool-cases (i == q)) [
    | inl e ↦ inl (==→eq i q e)
    | inr e ↦ let ne = not_==→ne i q e in let le = entry-le w q rem i g.fits lt in inr (omega arith)
  ]
