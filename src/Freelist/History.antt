-- ===== src/Freelist/History.antt =====
-- A client that allocates blocks and frees the ones that it holds, in any order.
use mathlib.Core.List.{
  Mem, Perm, Nodup, Nodup-cons, Nodup-nil, not-mem-nil, mem-cons, append-nil, mem-append_left,
  mem-cons_self, perm_middle,
}
use mathlib.Core.List.Perm
use mathlib.Core.Logic.Or
use native.Mathlib.Bridge.{le_prop}
use uwufs.Base.{ℕ, ◌≤◌, ◌<◌, ◌≡◌, refl, true, false, List, [], ◌∷◌, ◌++◌, has, arith, eq→==}
use uwufs.Bytes.{Bytes}
use uwufs.Machine.{Machine, Errno, ok, fail}
use uwufs.Layout.{next_free_blk}
use uwufs.Freelist.{malloc_blk, free_blk}
use uwufs.Freelist.Chain.{Chain, IsFreelist}
use uwufs.Freelist.Stack.{malloc_blk_lem, malloc_blk-enospc, free_blk_lem}
use uwufs.Freelist.Failure.{malloc_blk-fail}

-- `has` decides the library's membership.
Mem-has : (x : ℕ) (xs : List ℕ) → Mem x xs → has x xs ≡ true
Mem-has x [] m = absurd (not-mem-nil m)
Mem-has x (y ∷ ys) m =
    Or.elim (hlevel) (mem-cons.0 m) (λ e. rw (eq→== x y e) refl)
      (λ h. ground (arith, Mem-has x ys h))

not_Mem-has : (x : ℕ) (xs : List ℕ) → ¬ Mem x xs → has x xs ≡ false
not_Mem-has x [] n = refl
not_Mem-has x (y ∷ ys) n = ground (
  arith,
  λ (e : x ≡ y). n (mem-cons.1 (Or.inl e)),
  not_Mem-has x ys (λ m. n (mem-cons.1 (Or.inr m))),
)

has-not_Mem : (x : ℕ) (xs : List ℕ) → has x xs ≡ false → ¬ Mem x xs
has-not_Mem x xs h m = ground (arith, Mem-has x xs m)

module _ (b : ℕ → Bytes) (lo hi : ℕ) where
  Chain-Nodup : (h : ℕ) (xs : List ℕ) → Chain b lo hi h xs → Nodup xs
  Chain-Nodup h [] ch = Nodup-nil
  Chain-Nodup h (x ∷ xs) (_, _, _, out, rest) =
      Nodup-cons.1 (has-not_Mem x xs out, Chain-Nodup (next_free_blk (b x)) xs rest)

  Chain-within :
      (h : ℕ) (xs : List ℕ) → Chain b lo hi h xs → (x : ℕ) → Mem x xs → (lo ≤ x) × (x < hi)
  Chain-within h [] ch x m = absurd (not-mem-nil m)
  Chain-within h (y ∷ ys) (_, ge, lt, _, rest) x m =
      Or.elim (hlevel le_prop) (mem-cons.0 m) (λ e. rw e (ge, lt))
        (Chain-within (next_free_blk (b y)) ys rest x)

pub record State : Type 0 where
  pub device : Machine
  pub held : List ℕ

-- The client's steps: a block that malloc_blk returns is held, and a block that is held can be freed.
pub data Step : State → State → Type 0 where
  allocate :
      (d : Machine) (held : List ℕ) (x : ℕ)
      → (malloc_blk d).0 ≡ ok x
      → Step
          (record { device = d; held = held })
          (record { device = (malloc_blk d).1; held = x ∷ held })
  refuse :
      (d : Machine) (held : List ℕ) (e : Errno)
      → (malloc_blk d).0 ≡ fail e
      → Step
          (record { device = d; held = held })
          (record { device = (malloc_blk d).1; held = held })
  release :
      (d : Machine) (held rest : List ℕ) (x : ℕ)
      → Perm held (x ∷ rest)
      → Step
          (record { device = d; held = held })
          (record { device = (free_blk x d).1; held = rest })

pub data Reach (s : State) : State → Type 0 where
  here : Reach s s
  next : {t u : State} → Reach s t → Step t u → Reach s u

-- The free blocks and those that are held are, in some order, the blocks `all`.
pub record Conserves (lo hi : ℕ) (all : List ℕ) (s : State) : Type 0 where
  pub free : List ℕ
  pub freelist : IsFreelist s.device lo hi free
  pub total : Perm (free ++ s.held) all

module _ (lo hi : ℕ) (all : List ℕ) (distinct : Nodup all)
    (within : (x : ℕ) → Mem x all → (lo ≤ x) × (x < hi)) where
  Conserves-allocate :
      (d : Machine) (held : List ℕ) (x : ℕ) (free : List ℕ)
      → IsFreelist d lo hi free
      → Perm (free ++ held) all
      → (malloc_blk d).0 ≡ ok x
      → Conserves lo hi all (record { device = (malloc_blk d).1; held = x ∷ held })
  Conserves-allocate d held x [] f p e = absurd (omega (arith, f.count))
  Conserves-allocate d held x (y ∷ []) f p e =
      absurd (ground (arith, malloc_blk-enospc d lo hi y f))
  Conserves-allocate d held x (y ∷ z ∷ zs) f p e =
      let (taken, left, _, _) = malloc_blk_lem d lo hi y z zs f in
      let same : y ≡ x = ground (arith) in
      record {
        free = z ∷ zs;
        freelist = left;
        total = Perm.trans (perm_middle (z ∷ zs) held) (rw same at p);
      }

  Conserves-release :
      (d : Machine) (held rest : List ℕ) (x : ℕ) (free : List ℕ)
      → IsFreelist d lo hi free
      → Perm (free ++ held) all
      → Perm held (x ∷ rest)
      → Conserves lo hi all (record { device = (free_blk x d).1; held = rest })
  Conserves-release d held rest x free f p q =
      let p' : Perm (x ∷ (free ++ rest)) all =
        Perm.trans (Perm.symm (perm_middle free rest))
          (Perm.trans (Perm.append_left free (Perm.symm q)) p) in
      let alone : ¬ Mem x (free ++ rest) = (Nodup-cons.0 (Perm.nodup (Perm.symm p') distinct)).0 in
      let (ge, lt) = within x ((Perm.mem_iff p').0 mem-cons_self) in
      let (_, left, _) =
        free_blk_lem d lo hi x free f ge lt
          (not_Mem-has x free (λ m. alone (mem-append_left rest m))) in
      record { free = x ∷ free; freelist = left; total = p' }

  Step-Conserves : {s t : State} → Step s t → Conserves lo hi all s → Conserves lo hi all t
  Step-Conserves (allocate d held x e) c = Conserves-allocate d held x c.free c.freelist c.total e
  Step-Conserves (refuse d held x e) c =
      rw (malloc_blk-fail d x e) (record { free = c.free; freelist = c.freelist; total = c.total })
  Step-Conserves (release d held rest x q) c =
      Conserves-release d held rest x c.free c.freelist c.total q

  Reach-Conserves : {s t : State} → Conserves lo hi all s → Reach s t → Conserves lo hi all t
  Reach-Conserves c here = c
  Reach-Conserves c (next r step) = Step-Conserves step (Reach-Conserves c r)

-- From a device with the free list `all`, whatever a client allocates and frees, as long as it frees
-- only blocks that it holds: the blocks that are free and those that are held are together the
-- blocks of `all`, each of them once. So no block is lost, and none is handed out twice.
pub Reach-free_or_held :
    (d : Machine) (lo hi : ℕ) (all : List ℕ) (t : State)
    → IsFreelist d lo hi all
    → Reach (record { device = d; held = [] }) t
    → (free : List ℕ) × IsFreelist t.device lo hi free
      × Perm (free ++ t.held) all
      × Nodup (free ++ t.held)
Reach-free_or_held d lo hi all t f r =
    let distinct : Nodup all = Chain-Nodup d.block lo hi _ all f.chain in
    let start : Conserves lo hi all (record { device = d; held = [] }) = record {
      free = all;
      freelist = f;
      total = rw append-nil (Perm.refl all);
    } in
    let c = Reach-Conserves lo hi all distinct (Chain-within d.block lo hi _ all f.chain) start r in
    (c.free, c.freelist, c.total, Perm.nodup (Perm.symm c.total) distinct)
