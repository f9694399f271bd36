-- ===== src/Blockmap/Parts/Grown.antt =====
-- append_dblk at any index of the three trees keeps the invariant of the block map.
use uwufs.Base.{
  true, ℕ, suc, ◌+◌, ◌-◌, ◌≤◌, ◌<◌, ◌≡◌, ◌⊎◌, inl, inr, sym, ap, subst, subst₂, ◌∙◌, false, List,
  has, arith, ltb, ltb→lt, not_ltb→le, Bool-cases,
}
use uwufs.Bytes.{Bytes}
use uwufs.Machine.{Machine}
use uwufs.Freelist.Chain.{IsFreelist}
use uwufs.Blockmap.{get_dblk}
use uwufs.Blockmap.Append.{get_dblk-direct}
use uwufs.Blockmap.Forest.{tree_at, IsNode, IsTree, Same, IsNode-Same, tree_at-Same}
use uwufs.Blockmap.Forest.Count.{width}
use uwufs.Blockmap.Forest.Frame.{IsNode-IsTaken, IsTree-Same}
use uwufs.Blockmap.Forest.Grow.Opened.{Outcome, has-split}
use uwufs.Blockmap.Parts.{
  base, base-suc, root_of, set_root, set_root-attributes, part, root-set_root, root-set_root_ne,
  direct-set_root, append_dblk-part, get_dblk-part,
}
use uwufs.Blockmap.Parts.File.{
  IsMapNode, IsMap, IsExtended, base_mono, IsIn, tree_of, part-last, part-next, part-full,
  part-full_next, base-before, tree-before,
}

module _ (lo hi : ℕ) (xs : List ℕ) (d : Machine) (ino : Bytes) (index n p : ℕ)
    (f : IsFreelist d lo hi xs) (file : IsMap lo hi xs d ino index) (at : IsIn p index)
    (o : Outcome lo hi p d (root_of p ino) (index - base p) n xs) where
  abbrev ino' : Bytes
  ino' = set_root p ino o.root'

  abbrev b : ℕ → Bytes
  b = d.block

  abbrev b' : ℕ → Bytes
  b' = o.device.block

  root-last : root_of p ino' ≡ o.root'
  root-last = root-set_root p ino o.root' at.tree o.small

  module _ (q : ℕ) (before : q < p) where
    root-before : root_of q ino' ≡ root_of q ino
    root-before = root-set_root_ne p q ino o.root' at.tree before

    here : (k : ℕ) → IsNode q b (root_of q ino) (part q index) k → IsMapNode d ino index q k
    here k node = (omega (arith, at.tree), base-before p q index at before, node)

    tree-full : IsTree lo hi xs q b (root_of q ino) (part q index)
    tree-full = file.trees q (omega (arith, at.tree)) (base-before p q index at before)

    out-full : (k : ℕ) → IsNode q b (root_of q ino) (part q index) k → has k o.fresh ≡ false
    out-full k node =
        (has-split k xs o.fresh o.rest o.split
          (IsNode-IsTaken lo hi xs q b _ _ k tree-full node).2).0

    -- The tree that grows has no block of a tree before it.
    not_old-full :
        (k : ℕ)
        → IsNode q b (root_of q ino) (part q index) k
        → ¬ ((0 < index - base p) × IsNode p b (root_of p ino) (index - base p) k)
    not_old-full k node (pos, old) =
        let old' : IsNode p b (root_of p ino) (part p index) k = rw (part-last p index at) old in
        let e : q ≡ p = file.apart q p k (here k node) (at.tree, omega arith, old') in omega arith

    Same-full : Same b b' q (root_of q ino) (part q index)
    Same-full k node =
        let (ge, _, _) = IsNode-IsTaken lo hi xs q b _ _ k tree-full node in
        o.grown.frame k (omega (arith, ge, f.behind_super)) (not_old-full k node) (out-full k node)

  abbrev Place : (q k : ℕ) → Type 0
  Place q k =
      ((q ≡ p) × IsNode p b' o.root' (index - base p + 1) k)
      ⊎ ((q < p) × IsNode q b (root_of q ino) (part q index) k)

  place : (q k : ℕ) → IsMapNode o.device ino' (index + 1) q k → Place q k
  place q k (h, lt, node) = elim (tree-before p q index at lt) [
    | inl e ↦
        let node' : IsNode p b' (root_of p ino') (part p (index + 1)) k = rw e at node in
        inl (e, subst₂ (λ r t. IsNode p b' r t k) root-last (part-next p index at) node')
    | inr before ↦
        let node' : IsNode q b' (root_of q ino) (part q index) k =
          subst₂ (λ r t. IsNode q b' r t k) (root-before q before)
            (part-full_next p q index at before) node in
        inr (before, IsNode-Same b b' q _ _ k (Same-full q before) node')
  ]

  last-full :
      (q k : ℕ)
      → q < p
      → IsNode p b' o.root' (index - base p + 1) k
      → ¬ IsNode q b (root_of q ino) (part q index) k
  last-full q k before node full = elim (o.grown.nodes k node) [
    | inl old ↦ not_old-full q before k full old
    | inr new ↦ let out = out-full q before k full in absurd (ground arith)
  ]

  apart-Place : (q r k : ℕ) → Place q k → Place r k → q ≡ r
  apart-Place q r k (inl (e, _)) (inl (e', _)) = e ∙ sym e'
  apart-Place q r k (inl (e, node)) (inr (h, full)) = absurd (last-full r k h node full)
  apart-Place q r k (inr (h, full)) (inl (e, node)) = absurd (last-full q k h node full)
  apart-Place q r k (inr (h, full)) (inr (h', full')) =
      file.apart q r k (here q h k full) (here r h' k full')

  trees' :
      (q : ℕ)
      → q < 3
      → base q < index + 1
      → IsTree lo hi o.rest q b' (root_of q ino') (part q (index + 1))
  trees' q h lt = elim (tree-before p q index at lt) [
    | inl e ↦ rw e (
        subst₂ (IsTree lo hi o.rest p b') (sym root-last) (sym (part-next p index at)) o.grown.tree)
    | inr before ↦
        subst₂ (IsTree lo hi o.rest q b') (sym (root-before q before))
          (sym (part-full_next p q index at before))
          (IsTree-Same lo hi xs o.rest b b' (λ k out. (has-split k xs o.fresh o.rest o.split out).1)
            q _ _ (Same-full q before) (tree-full q before))
  ]

  IsMap-grown : IsMap lo hi o.rest o.device ino' (index + 1)
  IsMap-grown = record {
    trees = trees';
    apart = λ q r k nq nr. apart-Place q r k (place q k nq) (place r k nr);
  }

  -- Below the new index get_dblk returns what it did.
  old-full :
      (q i : ℕ)
      → q < p
      → i < width q
      → get_dblk ino' (base q + i) o.device ≡ get_dblk ino (base q + i) d
  old-full q i before fits =
      let small : q < 3 = omega (arith, at.tree) in
      let lt : i < part q index = omega (arith, part-full p q index at before) in
      let tree' : IsTree lo hi o.rest q b' (root_of q ino') (part q index) =
        rw (part-full_next p q index at before) at
          (trees' q small (omega (arith, base-before p q index at before))) in
      get_dblk-part q ino' i (part q index) o.device lo hi o.rest small o.freelist tree' lt fits
      ∙ ap (λ r. tree_at q b' r i) (root-before q before)
      ∙ tree_at-Same b b' q _ _ i (Same-full q before) lt
      ∙ sym (get_dblk-part q ino i (part q index) d lo hi xs small f (tree-full q before) lt fits)

  tree-last : IsTree lo hi o.rest p b' (root_of p ino') (index - base p + 1)
  tree-last =
      subst (λ r. IsTree lo hi o.rest p b' r (index - base p + 1)) (sym root-last) o.grown.tree

  at-last :
      (i : ℕ)
      → i < index - base p + 1
      → get_dblk ino' (base p + i) o.device ≡ tree_at p b' o.root' i
  at-last i lt =
      get_dblk-part p ino' i (index - base p + 1) o.device lo hi o.rest at.tree o.freelist tree-last
        lt (omega (arith, base-suc p at.tree, at.until, at.from))
      ∙ ap (λ r. tree_at p b' r i) root-last

  old-last :
      (i : ℕ)
      → i < index - base p
      → get_dblk ino' (base p + i) o.device ≡ get_dblk ino (base p + i) d
  old-last i lt =
      let tree : IsTree lo hi xs p b (root_of p ino) (index - base p) =
        rw (part-last p index at) at (file.trees p at.tree (omega arith)) in
      at-last i (omega arith)
      ∙ o.grown.old i lt
      ∙ sym (
          get_dblk-part p ino i (index - base p) d lo hi xs at.tree f tree lt
            (omega (arith, base-suc p at.tree, at.until, at.from)))

  old-in : (q j : ℕ) → IsIn q j → j < index → get_dblk ino' j o.device ≡ get_dblk ino j d
  old-in q j in_q lt =
      let back : base q + (j - base q) ≡ j = omega (arith, in_q.from) in
      elim (tree-before p q index at (omega (arith, in_q.from))) [
        | inr before ↦
            subst (λ t. get_dblk ino' t o.device ≡ get_dblk ino t d) back
              (old-full q (j - base q) before
                (omega (arith, base-suc q in_q.tree, in_q.until, in_q.from)))
        | inl e ↦
            let back' : base p + (j - base p) ≡ j = rw e at back in
            let from : base p ≤ j = rw e at in_q.from in
            subst (λ t. get_dblk ino' t o.device ≡ get_dblk ino t d) back'
              (old-last (j - base p) (omega arith))
      ]

  old-direct : (j : ℕ) → j < 10 → get_dblk ino' j o.device ≡ get_dblk ino j d
  old-direct j h =
      get_dblk-direct ino' j o.device h
      ∙ direct-set_root p j ino o.root' h
      ∙ sym (get_dblk-direct ino j d h)

  old-any : (j : ℕ) → j < index → get_dblk ino' j o.device ≡ get_dblk ino j d
  old-any j lt = elim (Bool-cases (ltb j 10)) [
    | inl e ↦ old-direct j (ltb→lt j 10 e)
    | inr e ↦
        let (q, in_q) = tree_of j (not_ltb→le j 10 e) (omega (arith, ends)) in old-in q j in_q lt
  ]
    where
      ends : index < 134480394
      ends =
          let cap : base (suc p) ≤ 134480394 = base_mono p 3 at.tree in omega (arith, at.until, cap)

  nodes-Place : (q k : ℕ) → Place q k → IsMapNode d ino index q k ⊎ (has k o.fresh ≡ true)
  nodes-Place q k (inr (before, node)) = inl (here q before k node)
  nodes-Place q k (inl (e, node)) = elim (o.grown.nodes k node) [
    | inr new ↦ inr new
    | inl old ↦
        let at_p : IsMapNode d ino index p k =
          (at.tree, omega (arith, old.0), rw (part-last p index at) old.1) in
        inl (rw e at_p)
  ]

  pub extended : IsExtended lo hi xs d ino index n
  extended = record {
    ino' = ino';
    device = o.device;
    fresh = o.fresh;
    rest = o.rest;
    run = append_dblk-part p ino index n o.root' d o.device at.tree at.from at.until o.run;
    split = o.split;
    few = omega (arith, o.few, at.tree);
    freelist = o.freelist;
    map = IsMap-grown;
    new =
        subst (λ t. get_dblk ino' t o.device ≡ n) {x = base p + (index - base p)}
          (omega (arith, at.from)) (at-last (index - base p) (omega arith) ∙ o.grown.new);
    old = old-any;
    nodes = λ q k node. nodes-Place q k (place q k node);
    frame = λ k pos out new.
        o.grown.frame k pos
          (λ old. out p (at.tree, omega (arith, old.0), rw (part-last p index at) old.1)) new;
    attributes = set_root-attributes p ino o.root';
  }
