-- ===== src/Layout/Laws.antt =====
-- Fields of eight bytes, as laws without side conditions to prove by hand.
use uwufs.Base.{ℕ, ◌+◌, ◌^◌, ◌≤◌, ◌<◌, ◌≡◌, ◌⊎◌, arith}
use uwufs.Bytes.{Bytes, get, put}
use uwufs.Bytes.Fields.{get-lt, get-put_ne, get-put_self}

pub word-lt : (b : Bytes) (i : ℕ) → get 8 b i < 2 ^ 64
word-lt b i = omega (arith, get-lt 8 b i)

pub word-put_self : (b : Bytes) (i v : ℕ) → v < 2 ^ 64 → get 8 (put 8 b i v) i ≡ v
word-put_self b i v h = get-put_self 8 b i v (omega arith)

pub word-put_ne :
    (b : Bytes) (i j v : ℕ) → (i + 8 ≤ j) ⊎ (j + 8 ≤ i) → get 8 (put 8 b j v) i ≡ get 8 b i
word-put_ne b i j v h = get-put_ne 8 8 b i j v h
