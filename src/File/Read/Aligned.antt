-- ===== src/File/Read/Aligned.antt =====
-- read_file from an offset that is a multiple of the block size.
use uwufs.Base.{
  ℕ, zero, suc, ◌+◌, ◌-◌, ◌*◌, ◌/◌, ◌%◌, min, ◌≤◌, ◌<◌, ◌≡◌, ◌≢◌, ◌⊎◌, refl, ap, ap₂, subst, ◌∙◌,
  inl, inr, arith, ltb, Bool-cases, lt→ltb, ltb→lt, not_ltb→le, le→not_ltb, ne→not_==,
}
use uwufs.Bytes.{Bytes, blit}
use uwufs.Bytes.Blit.{blit-inside, blit-outside}
use uwufs.Machine.{Machine, Works, ok}
use uwufs.Block.Access.{load-ok}
use uwufs.Blockmap.{dblk_itr, next, get_dblk}
use uwufs.File.Read.{copy_round, read_loop, read_file}

pub next-get_dblk :
    (ino : Bytes) (i : ℕ) (d : Machine)
    → i < 134480394
    → next (dblk_itr ino i) d ≡ (get_dblk ino i d, dblk_itr ino (i + 1))
unfolding next get_dblk
next-get_dblk ino i d h = rw (lt→ltb i 134480394 h) refl

-- The byte of a file at a position.
abbrev pub file_byte : Bytes → ℕ → Machine → ℕ
file_byte ino p d = d.block (get_dblk ino (p / 4096) d) (p % 4096)

-- `count` bytes from the block `base` of the file on lie in blocks of the device.
pub record IsMapped (ino : Bytes) (base count : ℕ) (d : Machine) : Type 0 where
  pub works : Works d
  pub indexed : (k : ℕ) → 4096 * k < count → base + k < 134480394
  pub used : (k : ℕ) → 4096 * k < count → get_dblk ino (base + k) d ≢ 0
  pub inside : (k : ℕ) → 4096 * k < count → get_dblk ino (base + k) d < d.size

-- The buffer has the bytes of the file from the position `cur` on, and outside of them what it had.
pub record IsCopied (ino : Bytes) (base cur size : ℕ) (d : Machine) (buf buf' : Bytes)
    : Type 0 where
  pub copied : (p : ℕ) → cur ≤ p → p < size → buf' p ≡ file_byte ino (4096 * base + p) d
  pub kept : (p : ℕ) → (p < cur) ⊎ (size ≤ p) → buf' p ≡ buf p

pub read_loop-done :
    (fuel size off cur : ℕ) (buf : Bytes) (d : Machine)
    → (itr : _) → size ≤ cur
    → read_loop fuel size off itr buf cur d ≡ (ok (cur, buf), d)
unfolding read_loop
read_loop-done zero size off cur buf d itr h = rw (le→not_ltb cur size h) refl
read_loop-done (suc fuel) size off cur buf d itr h = rw (le→not_ltb cur size h) refl

module _ (ino : Bytes) (base size : ℕ) (d : Machine) (m : IsMapped ino base size d) where
  module _ (k : ℕ) (buf : Bytes) (lt : 4096 * k < size) where
    abbrev blk : Bytes
    blk = d.block (get_dblk ino (base + k) d)

    byte-blk :
        (p : ℕ)
        → 4096 * k ≤ p
        → p < 4096 * k + 4096
        → blk (p - 4096 * k) ≡ file_byte ino (4096 * base + p) d
    byte-blk p ge small = ap₂ (λ i j. d.block (get_dblk ino i d) j) (omega arith) (omega arith)

    abbrev count : ℕ
    count = min (size - 4096 * k) 4096

    copy_round-aligned :
        copy_round size 0 blk buf (4096 * k) d
        ≡ (ok (blit buf (4096 * k) blk 0 count, 4096 * k + count), d)
    unfolding copy_round
    copy_round-aligned = elim (Bool-cases (ltb 4096 (size - 4096 * k))) [
      | inl e ↦
          let full : count ≡ 4096 = omega (arith, ltb→lt 4096 (size - 4096 * k) e) in
          rw (e, full) refl
      | inr e ↦
          let part : count ≡ size - 4096 * k = omega (arith, not_ltb→le 4096 (size - 4096 * k) e) in
          rw (e, part) refl
    ]

    -- One round of the loop.
    read_loop-round :
        (fuel : ℕ)
        → read_loop (suc fuel) size 0 (dblk_itr ino (base + k)) buf (4096 * k) d
          ≡ read_loop fuel size 0
              (dblk_itr ino (base + k + 1))
              (blit buf (4096 * k) blk 0 count)
              (4096 * k + count)
              d
    unfolding read_loop
    read_loop-round fuel =
        rw
          (
            lt→ltb (4096 * k) size lt,
            next-get_dblk ino (base + k) d (m.indexed k lt),
            ne→not_== (get_dblk ino (base + k) d) 0 (m.used k lt),
            load-ok (get_dblk ino (base + k) d) m.works (m.inside k lt),
            copy_round-aligned,
          )
          refl

    IsCopied-round :
        IsCopied ino base (4096 * k) (4096 * k + count) d buf (blit buf (4096 * k) blk 0 count)
    IsCopied-round = record {
      copied = λ p ge le.
          ap (blit buf (4096 * k) blk 0 count) (omega arith)
          ∙ blit-inside buf blk (4096 * k) 0 count (p - 4096 * k) (omega arith)
          ∙ ap blk (omega arith)
          ∙ byte-blk p ge (omega arith);
      kept = λ p out. blit-outside buf blk (4096 * k) 0 count p out;
    }

  IsCopied-join :
      (cur mid end : ℕ) (buf b c : Bytes)
      → cur ≤ mid
      → mid ≤ end
      → IsCopied ino base cur mid d buf b
      → IsCopied ino base mid end d b c
      → IsCopied ino base cur end d buf c
  IsCopied-join cur mid end buf b c le le' f g = record {
    copied = λ p ge lt. elim (Bool-cases (ltb p mid)) [
      | inl e ↦
          let before : p < mid = ltb→lt p mid e in g.kept p (inl before) ∙ f.copied p ge before
      | inr e ↦ g.copied p (not_ltb→le p mid e) lt
    ];
    kept = λ p out. g.kept p (ground arith) ∙ f.kept p (ground arith);
  }

  -- Where the loop got to the end of the block before `k`, it copies the rest and ends.
  abbrev IsRest : (fuel k : ℕ) → Bytes → Type 0
  IsRest fuel k buf =
      (buf' : Bytes) × (read_loop fuel size 0 (dblk_itr ino (base + k)) buf (4096 * k) d
        ≡ (ok (size, buf'), d))
      × IsCopied ino base (4096 * k) size d buf buf'

  IsRest-none : (fuel k : ℕ) (buf : Bytes) → 4096 * k ≡ size → IsRest fuel k buf
  IsRest-none fuel k buf e = (
    buf,
    read_loop-done fuel size 0 (4096 * k) buf d (dblk_itr ino (base + k)) (omega arith)
        ∙ ap (λ n. (ok (n, buf), d)) e,
    record { copied = λ p ge lt. absurd (omega arith); kept = λ p out. refl },
  )

  module _ (fuel k : ℕ) (buf : Bytes) (lt : 4096 * k < size) where
    abbrev next_buf : Bytes
    next_buf = blit buf (4096 * k) (blk k buf lt) 0 (count k buf lt)

    abbrev stop_at : ℕ
    stop_at = 4096 * k + count k buf lt

    read_loop-step :
        read_loop (suc fuel) size 0 (dblk_itr ino (base + k)) buf (4096 * k) d
        ≡ read_loop fuel size 0 (dblk_itr ino (base + k + 1)) next_buf stop_at d
    read_loop-step = read_loop-round k buf lt fuel

    IsRest-last : size ≤ 4096 * k + 4096 → IsRest (suc fuel) k buf
    IsRest-last h =
        let end : stop_at ≡ size = omega arith in
        (
          next_buf,
          read_loop-step
              ∙ read_loop-done fuel size 0 stop_at next_buf d (dblk_itr ino (base + k + 1))
                  (omega (arith, end))
              ∙ ap (λ n. (ok (n, next_buf), d)) end,
          subst (λ n. IsCopied ino base (4096 * k) n d buf next_buf) end (IsCopied-round k buf lt),
        )

    IsRest-more : 4096 * k + 4096 < size → IsRest fuel (k + 1) next_buf → IsRest (suc fuel) k buf
    IsRest-more h (buf', run, copied) =
        let mid : stop_at ≡ 4096 * (k + 1) = omega arith in
        (
          buf',
          read_loop-step
              ∙ ap₂ (λ i n. read_loop fuel size 0 (dblk_itr ino i) next_buf n d) (omega arith) mid
              ∙ run,
          IsCopied-join (4096 * k) (4096 * (k + 1)) size buf next_buf buf' (omega arith)
              (omega arith)
              (subst (λ n. IsCopied ino base (4096 * k) n d buf next_buf) mid
                (IsCopied-round k buf lt))
              copied,
        )

  read_loop-IsRest :
      (fuel k : ℕ) (buf : Bytes) → 4096 * k ≤ size → size ≤ 4096 * k + fuel → IsRest fuel k buf
  read_loop-IsRest zero k buf le fits = IsRest-none zero k buf (omega arith)
  read_loop-IsRest (suc fuel) k buf le fits = elim (Bool-cases (ltb (4096 * k) size)) [
    | inr e ↦ IsRest-none (suc fuel) k buf (omega (arith, not_ltb→le (4096 * k) size e))
    | inl e ↦
        let lt = ltb→lt (4096 * k) size e in
        elim (Bool-cases (ltb (4096 * k + 4096) size)) [
          | inl m ↦
              let more = ltb→lt (4096 * k + 4096) size m in
              IsRest-more fuel k buf lt more
                (read_loop-IsRest fuel (k + 1) (next_buf fuel k buf lt) (omega arith) (omega arith))
          | inr m ↦ IsRest-last fuel k buf lt (not_ltb→le (4096 * k + 4096) size m)
        ]
  ]

-- Where the offset is a multiple of the block size and all bytes asked for lie in blocks of a device
-- that works, read_file returns their number and a buffer that holds those bytes of the file in
-- order, keeps the bytes of the buffer behind them and changes nothing on the device.
pub read_file-IsCopied :
    (buf : Bytes) (size base : ℕ) (ino : Bytes) (d : Machine)
    → IsMapped ino base size d
    → (buf' : Bytes) × (read_file buf size (4096 * base) ino d ≡ (ok (size, buf'), d))
      × IsCopied ino base 0 size d buf buf'
unfolding read_file
read_file-IsCopied buf size base ino d m =
    let (buf', run, copied) =
      read_loop-IsRest ino base size d m size 0 buf (omega arith) (omega arith) in
    (
      buf',
      ap₂ (λ off i. read_loop size size off (dblk_itr ino i) buf 0 d) (omega arith) (omega arith)
          ∙ run,
      copied,
    )
