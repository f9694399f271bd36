-- ===== src/Block/Access.antt =====
-- Reads and writes of a device that works.
use uwufs.Base.{
  ℕ, ◌<◌, ◌≡◌, ◌≢◌, ◌⊎◌, inl, inr, refl, Option, none, some, arith, ne→not_==, Bool-cases, ◌==◌,
}
use uwufs.Bytes.{Bytes}
use uwufs.Machine.{Machine, Errno, eperm, ok, fail, Works, put_block}
use uwufs.Block.{seek, read_at, write_at, read_blk, write_blk, load}

pub Works-put_block : {d : Machine} (n : ℕ) (b : Bytes) → Works d → Works (put_block d n b)
unfolding put_block
Works-put_block n b w = record { small = w.small; reads = w.reads; writes = w.writes }

pub seek-lt : (n : ℕ) (d : Machine) → Works d → n < d.size → seek n d ≡ some n
unfolding seek
seek-lt n d w h = ground (arith, w.small)

pub size-put_block : (d : Machine) (n : ℕ) (b : Bytes) → (put_block d n b).size ≡ d.size
unfolding put_block
size-put_block d n b = refl

pub block-put_block_self : (d : Machine) (n : ℕ) (b : Bytes) → (put_block d n b).block n ≡ b
unfolding put_block
block-put_block_self d n b = ground arith

pub block-put_block_ne :
    (d : Machine) (n k : ℕ) (b : Bytes) → n ≢ k → (put_block d n b).block k ≡ d.block k
unfolding put_block
block-put_block_ne d n k b h = ground arith

pub ruleset put_block_laws = (size-put_block, block-put_block_self, block-put_block_ne)

module _ {d : Machine} (n : ℕ) (w : Works d) (h : n < d.size) where
  pub read_blk-ok : (buf : Bytes) → read_blk buf n d ≡ (ok (d.block n), d)
  unfolding read_blk
  read_blk-ok buf = rw (seek-lt n d w h, read_at, ne→not_== n d.size (omega arith), w.reads n)

  pub load-ok : load n d ≡ (ok (d.block n), d)
  unfolding load
  load-ok = read_blk-ok d.stack

  pub write_blk-ok : (b : Bytes) → write_blk b n d ≡ (ok tt, put_block d n b)
  unfolding write_blk
  write_blk-ok b = rw (seek-lt n d w h, write_at, ne→not_== n d.size (omega arith), w.writes n)

read_at-cases :
    (o : Option ℕ) (buf : Bytes) (d : Machine)
    → ((b : Bytes) × (read_at o buf d ≡ (ok b, d)))
      ⊎ ((e : Errno) × (read_at o buf d ≡ (fail e, d)))
unfolding read_at
read_at-cases none buf d = inr (eperm, refl)
read_at-cases (some k) buf d = elim (Bool-cases (k == d.size)) [
  | inl e ↦ inl (buf, rw e refl)
  | inr e ↦ elim (Bool-cases (d.readable k)) [
    | inl r ↦ inl (d.block k, rw (e, r) refl)
    | inr r ↦ inr (eperm, rw (e, r) refl)
  ]
]

-- A block is read, or the read fails; neither changes anything.
pub load-cases :
    (n : ℕ) (d : Machine)
    → ((b : Bytes) × (load n d ≡ (ok b, d))) ⊎ ((e : Errno) × (load n d ≡ (fail e, d)))
unfolding load read_blk
load-cases n d = read_at-cases (seek n d) d.stack d
