-- ===== src/Blockmap/Parts/File.antt =====
-- The invariant of a file's block map, and what an append must keep.
use uwufs.Base.{
  true, ℕ, zero, suc, ◌+◌, ◌-◌, ◌≤◌, ◌<◌, ◌≡◌, ◌≢◌, ◌⊎◌, inl, inr, false, List, ◌++◌, has, length,
  arith, ltb, ltb→lt, not_ltb→le, Bool-cases,
}
use uwufs.Bytes.{Bytes}
use uwufs.Machine.{Machine, ok}
use uwufs.Freelist.Chain.{IsFreelist}
use uwufs.Blockmap.{get_dblk, append_dblk}
use uwufs.Blockmap.Forest.{IsNode, IsTree}
use uwufs.Blockmap.Forest.Count.{width, width-pos}
use uwufs.Blockmap.Parts.{base, base-suc, root_of, part}

-- `k` is an indirect block of the tree `p` of a file of `count` blocks.
abbrev pub IsMapNode : (d : Machine) (ino : Bytes) (count p : ℕ) → ℕ → Type 0
IsMapNode d ino count p k =
    (p < 3) × (base p < count) × IsNode p d.block (root_of p ino) (part p count) k

-- The first `count` blocks of the file hang on indirect blocks that are in the data region, not on the
-- free list, and each at one place only.
pub record IsMap (lo hi : ℕ) (xs : List ℕ) (d : Machine) (ino : Bytes) (count : ℕ) : Type 0 where
  pub trees :
      (p : ℕ) → p < 3 → base p < count → IsTree lo hi xs p d.block (root_of p ino) (part p count)
  pub apart : (p p' k : ℕ) → IsMapNode d ino count p k → IsMapNode d ino count p' k → p ≡ p'

-- What append_dblk does to a file of `index` blocks.
pub record IsExtended (lo hi : ℕ) (xs : List ℕ) (d : Machine) (ino : Bytes) (index n : ℕ)
    : Type 0 where
  pub ino' : Bytes
  pub device : Machine
  pub fresh : List ℕ
  pub rest : List ℕ
  pub run : append_dblk ino index n d ≡ (ok (n, ino'), device)
  pub split : xs ≡ fresh ++ rest
  pub few : length fresh ≤ 3
  pub freelist : IsFreelist device lo hi rest
  pub map : IsMap lo hi rest device ino' (index + 1)
  pub new : get_dblk ino' index device ≡ n
  pub old : (j : ℕ) → j < index → get_dblk ino' j device ≡ get_dblk ino j d
  pub nodes :
      (p k : ℕ)
      → IsMapNode device ino' (index + 1) p k
      → IsMapNode d ino index p k ⊎ (has k fresh ≡ true)
  pub frame :
      (k : ℕ)
      → k ≢ 0
      → ((p : ℕ) → ¬ IsMapNode d ino index p k)
      → has k fresh ≡ false
      → device.block k ≡ d.block k
  pub attributes : (i : ℕ) → 104 ≤ i → ino' i ≡ ino i

pub base-ge : (p : ℕ) → 10 ≤ base p
base-ge zero = omega arith
base-ge (suc zero) = omega arith
base-ge (suc (suc zero)) = omega arith
base-ge (suc (suc (suc p))) = omega arith

pub base_mono : (p p' : ℕ) → p < p' → base (suc p) ≤ base p'
base_mono p zero h = absurd (omega arith)
base_mono zero (suc p') h = grow p'
  where
    grow : (k : ℕ) → 522 ≤ base (suc k)
    grow zero = omega arith
    grow (suc zero) = omega arith
    grow (suc (suc k)) = omega arith
base_mono (suc zero) (suc zero) h = absurd (omega arith)
base_mono (suc zero) (suc (suc zero)) h = omega arith
base_mono (suc zero) (suc (suc (suc p'))) h = omega arith
base_mono (suc (suc p)) (suc zero) h = absurd (omega arith)
base_mono (suc (suc p)) (suc (suc zero)) h = absurd (omega arith)
base_mono (suc (suc p)) (suc (suc (suc p'))) h = omega arith

-- Each index behind the direct blocks lies in one tree.
pub record IsIn (p i : ℕ) : Type 0 where
  pub tree : p < 3
  pub from : base p ≤ i
  pub until : i < base (suc p)

pub tree_of : (i : ℕ) → 10 ≤ i → i < 134480394 → (p : ℕ) × IsIn p i
tree_of i ge lt = elim (Bool-cases (ltb i 522)) [
  | inl e ↦ (0, record { tree = omega arith; from = ge; until = ltb→lt i 522 e })
  | inr e ↦ elim (Bool-cases (ltb i 262666)) [
    | inl e' ↦
        (1, record { tree = omega arith; from = not_ltb→le i 522 e; until = ltb→lt i 262666 e' })
    | inr e' ↦ (2, record { tree = omega arith; from = not_ltb→le i 262666 e'; until = lt })
  ]
]

-- The tree of an index that is the next one of a file, and the trees before it, which are full.
pub part-last : (p i : ℕ) → IsIn p i → part p i ≡ i - base p
part-last p i h = omega (arith, base-suc p h.tree, h.until)

pub part-next : (p i : ℕ) → IsIn p i → part p (i + 1) ≡ i - base p + 1
part-next p i h = omega (arith, base-suc p h.tree, h.until, h.from)

pub part-full : (p q i : ℕ) → IsIn p i → q < p → part q i ≡ width q
part-full p q i h lt = omega (arith, base-suc q (omega (arith, h.tree)), base_mono q p lt, h.from)

pub part-full_next : (p q i : ℕ) → IsIn p i → q < p → part q (i + 1) ≡ part q i
part-full_next p q i h lt =
    omega (arith, base-suc q (omega (arith, h.tree)), base_mono q p lt, h.from)

pub base-before : (p q i : ℕ) → IsIn p i → q < p → base q < i
base-before p q i h lt =
    omega (arith, width-pos q, base-suc q (omega (arith, h.tree)), base_mono q p lt, h.from)

pub tree-before : (p q i : ℕ) → IsIn p i → base q < i + 1 → (q ≡ p) ⊎ (q < p)
tree-before p q i h lt = elim (Bool-cases (ltb q p)) [
  | inl e ↦ inr (ltb→lt q p e)
  | inr e ↦ elim (Bool-cases (ltb p q)) [
    | inl e' ↦ absurd (omega (arith, base_mono p q (ltb→lt p q e'), h.until))
    | inr e' ↦ inl (omega (arith, not_ltb→le q p e, not_ltb→le p q e'))
  ]
]
