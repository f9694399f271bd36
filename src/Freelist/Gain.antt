-- ===== src/Freelist/Gain.antt =====
-- Actions that give blocks back to the free list.
use uwufs.Base.{
  ℕ, ◌≡◌, ◌≢◌, ◌⊎◌, ◌≤◌, ◌<◌, inl, inr, refl, ap, ◌∙◌, true, false, ◌==◌, List, ◌∷◌, has, arith,
  Bool-cases, ==→eq,
}
use uwufs.Machine.{Machine, Io, ok}
use uwufs.Freelist.{free_blk}
use uwufs.Freelist.Chain.{IsFreelist}
use uwufs.Freelist.Stack.{free_blk_lem}

-- On the way from `d` to `d'` the blocks `P` were put on the free list, and no other block was; no
-- block but these and the superblock was written.
pub record IsFreed (lo hi : ℕ) (xs : List ℕ) (P : ℕ → Type 0) (d d' : Machine) : Type 0 where
  pub free : List ℕ
  pub freelist : IsFreelist d' lo hi free
  pub only : (k : ℕ) → has k free ≡ true → (has k xs ≡ true) ⊎ P k
  pub old : (k : ℕ) → has k xs ≡ true → has k free ≡ true
  pub new : (k : ℕ) → P k → has k free ≡ true
  pub frame : (k : ℕ) → k ≢ 0 → ¬ P k → d'.block k ≡ d.block k

-- The action succeeds and does that.
abbrev pub Frees : (lo hi : ℕ) → List ℕ → (ℕ → Type 0) → Io (Unit {0}) → Machine → Type 0
Frees lo hi xs P m d = (d' : Machine) × (m d ≡ (ok tt, d')) × IsFreed lo hi xs P d d'

-- What was neither free nor freed is not free.
pub IsFreed-off :
    {lo hi : ℕ} {xs : List ℕ} {P : ℕ → Type 0} {d d' : Machine} (r : IsFreed lo hi xs P d d')
    (k : ℕ)
    → ¬ P k
    → has k xs ≡ false
    → has k r.free ≡ false
IsFreed-off {xs} r k not_new out = elim (Bool-cases (has k r.free)) [
  | inr e ↦ e
  | inl e ↦ elim (r.only k e) [ inl h ↦ absurd (ground arith) | inr p ↦ absurd (not_new p) ]
]

pub IsFreed-none :
    {lo hi : ℕ} {xs : List ℕ} {P : ℕ → Type 0} {d : Machine}
    → IsFreelist d lo hi xs
    → ((k : ℕ) → ¬ P k)
    → IsFreed lo hi xs P d d
IsFreed-none {xs} f nothing = record {
  free = xs;
  freelist = f;
  only = λ k h. inl h;
  old = λ k h. h;
  new = λ k p. absurd (nothing k p);
  frame = λ k _ _. refl;
}

pub IsFreed-same :
    {lo hi : ℕ} {xs : List ℕ} {P Q : ℕ → Type 0} {d d' : Machine}
    → ((k : ℕ) → P k → Q k)
    → ((k : ℕ) → Q k → P k)
    → IsFreed lo hi xs P d d'
    → IsFreed lo hi xs Q d d'
IsFreed-same to from r = record {
  free = r.free;
  freelist = r.freelist;
  only = λ k h. elim (r.only k h) [ inl a ↦ inl a | inr p ↦ inr (to k p) ];
  old = r.old;
  new = λ k q. r.new k (from k q);
  frame = λ k pos out. r.frame k pos (λ p. out (to k p));
}

pub IsFreed-join :
    {lo hi : ℕ} {xs : List ℕ} {P Q : ℕ → Type 0} {d e g : Machine} (r : IsFreed lo hi xs P d e)
    → IsFreed lo hi r.free Q e g
    → IsFreed lo hi xs (λ k. P k ⊎ Q k) d g
IsFreed-join r s = record {
  free = s.free;
  freelist = s.freelist;
  only = λ k h. elim (s.only k h) [
    | inr q ↦ inr (inr q)
    | inl a ↦ elim (r.only k a) [ inl b ↦ inl b | inr p ↦ inr (inl p) ]
  ];
  old = λ k h. s.old k (r.old k h);
  new = λ k p. elim p [ inl a ↦ s.old k (r.new k a) | inr b ↦ s.new k b ];
  frame = λ k pos out. s.frame k pos (λ q. out (inr q)) ∙ r.frame k pos (λ p. out (inl p));
}

-- free_blk frees its block.
pub free_blk-Frees :
    (d : Machine) (lo hi x : ℕ) (xs : List ℕ)
    → IsFreelist d lo hi xs
    → lo ≤ x
    → x < hi
    → has x xs ≡ false
    → Frees lo hi xs (λ k. k ≡ x) (free_blk x) d
free_blk-Frees d lo hi x xs f ge lt out =
    let (run, freelist, others) = free_blk_lem d lo hi x xs f ge lt out in
    (
      (free_blk x d).1,
      ap (λ r. (r, (free_blk x d).1)) run,
      record {
        free = x ∷ xs;
        freelist = freelist;
        only = λ k h. elim (Bool-cases (k == x)) [
          | inl e ↦ inr (==→eq k x e)
          | inr e ↦ inl (ground arith)
        ];
        old = λ k h. ground arith;
        new = λ k e. ground arith;
        frame = others;
      },
    )
