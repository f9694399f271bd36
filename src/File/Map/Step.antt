-- ===== src/File/Map/Step.antt =====
-- One round of append_blks: a new zeroed block at the end of a file.
use uwufs.Base.{
  true, ℕ, ◌+◌, ◌≤◌, ◌<◌, ◌≡◌, ◌≢◌, ◌⊎◌, inl, inr, sym, ap, ◌∙◌, false, List, ◌∷◌, has, length,
  length-append, arith, ltb, ltb→lt, not_ltb→le, Bool-cases,
}
use uwufs.Bytes.{Bytes, zeros}
use uwufs.Machine.{Machine, put_block}
use uwufs.Block.Access.{block-put_block_self, block-put_block_ne}
use uwufs.Freelist.{malloc_blk}
use uwufs.Freelist.Chain.{IsFreelist}
use uwufs.Freelist.Stack.{malloc_blk_lem}
use uwufs.Blockmap.{get_dblk}
use uwufs.Blockmap.Append.{IsFreelist-put_block}
use uwufs.Blockmap.Forest.{IsTaken}
use uwufs.Blockmap.Forest.Grow.Opened.{has-split}
use uwufs.Blockmap.Parts.File.{IsMapNode, IsExtended}
use uwufs.File.Map.{IsFile, IsFileBlk}
use uwufs.File.Map.Keep.{IsMapNode-IsTaken, IsMapNode-kept, get_dblk-kept, IsFile-kept}

-- What a round leaves: the file has one block more, which is zeroed, and the others as they were.
pub record IsRound (lo hi : ℕ) (xs : List ℕ) (d : Machine) (ino : Bytes) (count x : ℕ)
    (d' : Machine) (ino' : Bytes) (ys : List ℕ) : Type 0 where
  pub freelist : IsFreelist d' lo hi ys
  pub file : IsFile lo hi ys d' ino' (count + 1)
  pub few : length xs ≤ length ys + 4
  pub old : (j : ℕ) → j < count → get_dblk ino' j d' ≡ get_dblk ino j d
  pub content : (j : ℕ) → j < count → d'.block (get_dblk ino j d) ≡ d.block (get_dblk ino j d)
  pub new : get_dblk ino' count d' ≡ x
  pub zeroed : d'.block x ≡ zeros
  pub own : (k : ℕ) → IsFileBlk d' ino' (count + 1) k → IsFileBlk d ino count k ⊎ (has k xs ≡ true)
  pub fewer : (k : ℕ) → has k xs ≡ false → has k ys ≡ false
  pub frame :
      (k : ℕ) → k ≢ 0 → has k xs ≡ false → ¬ IsFileBlk d ino count k → d'.block k ≡ d.block k

module _ (lo hi x y count : ℕ) (zs : List ℕ) (d : Machine) (ino : Bytes)
    (f : IsFreelist d lo hi (x ∷ y ∷ zs)) (file : IsFile lo hi (x ∷ y ∷ zs) d ino count)
    (most : count < 134480394) where
  abbrev pub taken : Machine
  taken = (malloc_blk d).1

  abbrev pub cleared : Machine
  cleared = put_block taken x zeros

  new-IsTaken : IsTaken lo hi (y ∷ zs) x
  new-IsTaken = (f.chain.1, f.chain.2, f.chain.3)

  pub IsFreelist-taken : IsFreelist taken lo hi (y ∷ zs)
  IsFreelist-taken = (malloc_blk_lem d lo hi x y zs f).1

  pub IsFreelist-cleared : IsFreelist cleared lo hi (y ∷ zs)
  IsFreelist-cleared =
      IsFreelist-put_block x zeros IsFreelist-taken (omega (arith, new-IsTaken.0, f.behind_super))
        new-IsTaken.2

  -- Any block that is not free keeps its content, but for the superblock.
  block-cleared_ne : (k : ℕ) → k ≢ 0 → has k (x ∷ y ∷ zs) ≡ false → cleared.block k ≡ d.block k
  block-cleared_ne k pos out =
      block-put_block_ne taken x k zeros (λ e. ground arith)
      ∙ (malloc_blk_lem d lo hi x y zs f).3 k pos

  block-cleared : (k : ℕ) → IsTaken lo hi (x ∷ y ∷ zs) k → cleared.block k ≡ d.block k
  block-cleared k (ge, _, out) = block-cleared_ne k (omega (arith, ge, f.behind_super)) out

  fewer : (k : ℕ) → has k (x ∷ y ∷ zs) ≡ false → has k (y ∷ zs) ≡ false
  fewer k out = ground arith

  fewer_node :
      (p k : ℕ) → IsMapNode d ino count p k → has k (x ∷ y ∷ zs) ≡ false → has k (y ∷ zs) ≡ false
  fewer_node p k _ = fewer k

  node-cleared : (p k : ℕ) → IsMapNode d ino count p k → cleared.block k ≡ d.block k
  node-cleared p k node = block-cleared k (IsMapNode-IsTaken file.map p k node)

  pub IsFile-cleared : IsFile lo hi (y ∷ zs) cleared ino count
  IsFile-cleared =
      IsFile-kept lo hi (x ∷ y ∷ zs) (y ∷ zs) d cleared ino count f IsFreelist-cleared file.map
        fewer_node node-cleared (omega arith) (λ k _. fewer k) file

  same-cleared : (j : ℕ) → j < count → get_dblk ino j cleared ≡ get_dblk ino j d
  same-cleared j lt =
      get_dblk-kept lo hi (x ∷ y ∷ zs) (y ∷ zs) d cleared ino count f IsFreelist-cleared file.map
        fewer_node node-cleared j (omega arith) lt

  module _ (e : IsExtended lo hi (y ∷ zs) cleared ino count x) where
    old-round : (j : ℕ) → j < count → get_dblk e.ino' j e.device ≡ get_dblk ino j d
    old-round j lt = e.old j lt ∙ same-cleared j lt

    -- Blocks that are neither free nor indirect blocks of the file keep their content.
    block-round :
        (k : ℕ)
        → IsTaken lo hi (y ∷ zs) k
        → ((p : ℕ) → ¬ IsMapNode cleared ino count p k)
        → e.device.block k ≡ cleared.block k
    block-round k (ge, _, out) own =
        e.frame k (omega (arith, ge, f.behind_super)) own
          (has-split k (y ∷ zs) e.fresh e.rest e.split out).0

    new-own : (p : ℕ) → ¬ IsMapNode cleared ino count p x
    new-own p node =
        let node' =
          IsMapNode-kept lo hi (x ∷ y ∷ zs) (y ∷ zs) d cleared ino count f IsFreelist-cleared
            file.map fewer_node node-cleared p x node in
        let out = (IsMapNode-IsTaken file.map p x node').2 in absurd (ground arith)

    -- A block that is taken before, and no indirect block, is none after the round.
    own-round :
        (k p : ℕ)
        → IsTaken lo hi (y ∷ zs) k
        → ¬ IsMapNode cleared ino count p k
        → ¬ IsMapNode e.device e.ino' (count + 1) p k
    own-round k p (_, _, out) own node = elim (e.nodes p k node) [
      | inl old ↦ own old
      | inr new ↦
          let out' = (has-split k (y ∷ zs) e.fresh e.rest e.split out).0 in absurd (ground arith)
    ]

    -- The data block at an index of the file with one block more.
    at-index :
        (P : ℕ → Type 0)
        → ((j : ℕ) → j < count → P (get_dblk ino j cleared))
        → P x
        → (j : ℕ) → j < count + 1
        → P (get_dblk e.ino' j e.device)
    at-index P before last j lt = elim (Bool-cases (ltb j count)) [
      | inl c ↦ let lt' = ltb→lt j count c in rw (e.old j lt') (before j lt')
      | inr c ↦ let same : j ≡ count = omega (arith, not_ltb→le j count c) in rw (same, e.new) last
    ]

    not_new : (j : ℕ) → j < count → get_dblk ino j d ≢ x
    not_new j lt same = let out = (file.taken j lt).2 in absurd (ground arith)

    last-index : (i : ℕ) → i < count + 1 → (i < count) ⊎ (i ≡ count)
    last-index i lt = elim (Bool-cases (ltb i count)) [
      | inl c ↦ inl (ltb→lt i count c)
      | inr c ↦ inr (omega (arith, not_ltb→le i count c))
    ]

    new-at : (i : ℕ) → i ≡ count → get_dblk e.ino' i e.device ≡ x
    new-at i same = rw same e.new

    distinct-round :
        (i j : ℕ)
        → i < count + 1
        → j < count + 1
        → get_dblk e.ino' i e.device ≡ get_dblk e.ino' j e.device
        → i ≡ j
    distinct-round i j li lj same = elim (last-index i li) [
      | inl a ↦ elim (last-index j lj) [
        | inl b ↦ file.distinct i j a b (sym (old-round i a) ∙ same ∙ old-round j b)
        | inr b ↦ absurd (not_new i a (sym (old-round i a) ∙ same ∙ new-at j b))
      ]
      | inr a ↦ elim (last-index j lj) [
        | inl b ↦ absurd (not_new j b (sym (old-round j b) ∙ sym same ∙ new-at i a))
        | inr b ↦ a ∙ sym b
      ]
    ]

    fewer-rest : (k : ℕ) → IsTaken lo hi (y ∷ zs) k → IsTaken lo hi e.rest k
    fewer-rest k (ge, lt, out) = (ge, lt, (has-split k (y ∷ zs) e.fresh e.rest e.split out).1)

    IsFile-round : IsFile lo hi e.rest e.device e.ino' (count + 1)
    IsFile-round = record {
      map = e.map;
      taken =
          at-index (IsTaken lo hi e.rest) (λ j lt. fewer-rest _ (IsFile-cleared.taken j lt))
            (fewer-rest x new-IsTaken);
      distinct = distinct-round;
      own = λ j p lt.
          at-index (λ k. ¬ IsMapNode e.device e.ino' (count + 1) p k)
            (λ i li. own-round _ p (IsFile-cleared.taken i li) (IsFile-cleared.own i p li))
            (own-round x p new-IsTaken (new-own p)) j lt;
    }

    -- Only free blocks became blocks of the file, and only these and its own were written.
    node-before : (p k : ℕ) → IsMapNode cleared ino count p k → IsMapNode d ino count p k
    node-before =
        IsMapNode-kept lo hi (x ∷ y ∷ zs) (y ∷ zs) d cleared ino count f IsFreelist-cleared file.map
          fewer_node node-cleared

    fresh-free : (k : ℕ) → has k e.fresh ≡ true → has k (x ∷ y ∷ zs) ≡ true
    fresh-free k new = elim (Bool-cases (has k (y ∷ zs))) [
      | inl free ↦ ground arith
      | inr out ↦ absurd (ground (arith, (has-split k (y ∷ zs) e.fresh e.rest e.split out).0))
    ]

    own-blk :
        (k : ℕ)
        → IsFileBlk e.device e.ino' (count + 1) k
        → IsFileBlk d ino count k ⊎ (has k (x ∷ y ∷ zs) ≡ true)
    own-blk k (inl (j, lt, at)) = elim (last-index j lt) [
      | inl before ↦ inl (inl (j, before, sym (old-round j before) ∙ at))
      | inr last ↦ let same : x ≡ k = sym (new-at j last) ∙ at in inr (ground arith)
    ]
    own-blk k (inr (p, node)) = elim (e.nodes p k node) [
      | inl old ↦ inl (inr (p, node-before p k old))
      | inr new ↦ inr (fresh-free k new)
    ]

    frame-blk :
        (k : ℕ)
        → k ≢ 0
        → has k (x ∷ y ∷ zs) ≡ false
        → ¬ IsFileBlk d ino count k
        → e.device.block k ≡ d.block k
    frame-blk k pos out not_own =
        e.frame k pos (λ p node. not_own (inr (p, node-before p k node)))
          (has-split k (y ∷ zs) e.fresh e.rest e.split (fewer k out)).0
        ∙ block-cleared_ne k pos out

    pub round : IsRound lo hi (x ∷ y ∷ zs) d ino count x e.device e.ino' e.rest
    round = record {
      freelist = e.freelist;
      file = IsFile-round;
      few =
          let size : length (y ∷ zs) ≡ length e.fresh + length e.rest =
            ap length e.split ∙ length-append e.fresh e.rest in
          omega (arith, size, e.few);
      old = old-round;
      content = λ j lt.
          rw (← same-cleared j lt) (
            block-round (get_dblk ino j cleared) (IsFile-cleared.taken j lt)
              (λ p. IsFile-cleared.own j p lt))
          ∙ block-cleared (get_dblk ino j d) (file.taken j lt);
      new = e.new;
      zeroed = block-round x new-IsTaken new-own ∙ block-put_block_self taken x zeros;
      own = own-blk;
      fewer = λ k out. (has-split k (y ∷ zs) e.fresh e.rest e.split (fewer k out)).1;
      frame = frame-blk;
    }
