-- ===== src/File/Read/Bounds.antt =====
-- How much read_file writes to the buffer that it is given, on any device.
use uwufs.Base.{
  ℕ, zero, suc, ◌+◌, ◌-◌, ◌*◌, ◌%◌, ◌/◌, ◌≤◌, ◌<◌, ◌≡◌, ◌⊎◌, inl, inr, refl, ◌∙◌, arith, min, none,
  true, false, ◌&&◌, Bool-cases, Option-cases, ltb, ltb→lt, le→not_ltb, ◌==◌, ==→eq,
}
use uwufs.Bytes.{Bytes, blit}
use uwufs.Bytes.Blit.{blit-outside}
use uwufs.Machine.{Machine, Res, ok, fail, crash}
use uwufs.Block.Access.{load-cases}
use uwufs.Blockmap.{DataBlockIterator, dblk_itr, next}
use uwufs.File.Read.{copy_round, read_loop, read_file}

-- The offset is inside a block, and the memory so many blocks behind the local one, from which
-- the first copy is made, cannot be read.
abbrev pub IsStray : (size off : ℕ) → Machine → Type 0
IsStray size off d = (0 < off) × (d.beyond (off * 4096) (min size (4096 - off)) ≡ none)

-- At most `size` bytes were read, and the buffer is as it was behind those that were; the process is
-- ended for a stray access only.
abbrev pub IsWithin : (size off : ℕ) → Machine → Bytes → Res (ℕ × Bytes) → Type 0
IsWithin size off d buf (ok (n, buf')) = (n ≤ size) × ((p : ℕ) → n ≤ p → buf' p ≡ buf p)
IsWithin size off d buf (fail _) = Unit
IsWithin size off d buf crash = IsStray size off d

-- One round: it copies some bytes, or ends the process.
abbrev IsRound : (size off : ℕ) (blk buf : Bytes) (cur : ℕ) → Machine → Type 0
IsRound size off blk buf cur d =
    ((buf' : Bytes) × (cur' : ℕ) × (copy_round size off blk buf cur d ≡ (ok (buf', cur'), d))
      × (cur < cur')
      × (cur' ≤ size)
      × ((p : ℕ) → cur' ≤ p → buf' p ≡ buf p))
    ⊎ ((copy_round size off blk buf cur d ≡ (crash, d)) × IsStray size off d)

module _ (size off : ℕ) (blk buf : Bytes) (cur : ℕ) (d : Machine) (small : off < 4096)
    (more : cur < size) where
  -- A copy from the block itself.
  one-IsRound : (ltb 0 off && (cur == 0)) ≡ false → IsRound size off blk buf cur d
  unfolding copy_round
  one-IsRound e = elim (Bool-cases (ltb 4096 (size - cur))) [
    | inl f ↦ inl (
      blit buf cur blk 0 4096,
      cur + 4096,
      rw (e, f) refl,
      omega arith,
      omega (arith, ltb→lt 4096 (size - cur) f),
      λ p le. blit-outside buf blk cur 0 4096 p (inr le),
    )
    | inr f ↦ inl (
      blit buf cur blk 0 (size - cur),
      cur + (size - cur),
      rw (e, f) refl,
      omega arith,
      omega arith,
      λ p le. blit-outside buf blk cur 0 (size - cur) p (inr le),
    )
  ]

  first-IsRound : ltb 0 off ≡ true → (cur == 0) ≡ true → IsRound size off blk buf cur d
  unfolding copy_round
  first-IsRound e z =
      let inside = ltb→lt 0 off e in
      let start : cur ≡ 0 = ==→eq cur 0 z in
      let n : ℕ = min (size - cur) (4096 - off) in
      elim (Option-cases (d.beyond (off * 4096) n)) [
        | inl stray ↦
            let all : size - cur ≡ size = omega arith in
            inr (rw (e, z, stray) refl, (inside, rw all at stray))
        | inr (b, found) ↦ inl (
          blit buf 0 b 0 n,
          cur + n,
          rw (e, z, found) refl,
          omega arith,
          omega arith,
          λ p le. blit-outside buf b 0 0 n p (inr (omega arith)),
        )
      ]

  any-IsRound : IsRound size off blk buf cur d
  any-IsRound = elim (Bool-cases (ltb 0 off)) [
    | inl e ↦ elim (Bool-cases (cur == 0)) [
      | inl z ↦ first-IsRound e z
      | inr z ↦ one-IsRound (rw (e, z) refl)
    ]
    | inr e ↦ one-IsRound (rw e refl)
  ]

-- The same with the bytes that had been read before.
abbrev IsFrom : (cur size off : ℕ) → Machine → Bytes → Res (ℕ × Bytes) → Type 0
IsFrom cur size off d buf (ok (n, buf')) =
    (cur ≤ n) × (n ≤ size) × ((p : ℕ) → n ≤ p → buf' p ≡ buf p)
IsFrom cur size off d buf (fail _) = Unit
IsFrom cur size off d buf crash = IsStray size off d

IsFrom-trans :
    (cur cur' size off : ℕ) (d : Machine) (buf buf' : Bytes) (r : Res (ℕ × Bytes))
    → cur ≤ cur'
    → ((p : ℕ) → cur' ≤ p → buf' p ≡ buf p)
    → IsFrom cur' size off d buf' r
    → IsFrom cur size off d buf r
IsFrom-trans cur cur' size off d buf buf' (ok (n, last)) le same (ge, top, rest) =
    (omega arith, top, λ p h. rest p h ∙ same p (omega arith))
IsFrom-trans cur cur' size off d buf buf' (fail _) le same h = tt
IsFrom-trans cur cur' size off d buf buf' crash le same h = h

IsFrom-IsWithin :
    (cur size off : ℕ) (d : Machine) (buf : Bytes) (r : Res (ℕ × Bytes))
    → IsFrom cur size off d buf r
    → IsWithin size off d buf r
IsFrom-IsWithin cur size off d buf (ok (n, last)) (ge, top, rest) = (top, rest)
IsFrom-IsWithin cur size off d buf (fail _) h = tt
IsFrom-IsWithin cur size off d buf crash h = h

-- The loop, with `cur` bytes read so far.
read_loop-IsFrom :
    (fuel size off : ℕ) (itr : DataBlockIterator) (buf : Bytes) (cur : ℕ) (d : Machine)
    → off < 4096
    → cur ≤ size
    → size ≤ cur + fuel
    → IsFrom cur size off d buf (read_loop fuel size off itr buf cur d).0
      × ((read_loop fuel size off itr buf cur d).1 ≡ d)
unfolding read_loop
read_loop-IsFrom zero size off itr buf cur d ho hc hf =
    rw (le→not_ltb cur size (omega arith)) ((omega arith, hc, λ p _. refl), refl)
read_loop-IsFrom (suc fuel) size off itr buf cur d ho hc hf = elim (Bool-cases (ltb cur size)) [
  | inr e ↦ rw e ((omega arith, hc, λ p _. refl), refl)
  | inl e ↦ elim (Bool-cases ((next itr d).0 == 0)) [
    | inl z ↦ rw (e, z) ((omega arith, hc, λ p _. refl), refl)
    | inr z ↦ elim (load-cases (next itr d).0 d) [
      | inr (_, failed) ↦ rw (e, z, failed) (tt, refl)
      | inl (blk, loaded) ↦ elim (any-IsRound size off blk buf cur d ho (ltb→lt cur size e)) [
        | inr (ends, stray) ↦ rw (e, z, loaded, ends) (stray, refl)
        | inl (buf', cur', run, gt, top, same) ↦
            let rest =
              read_loop-IsFrom fuel size off (next itr d).1 buf' cur' d ho top
                (omega (arith, gt)) in
            rw (e, z, loaded, run)
              (IsFrom-trans cur cur' size off d buf buf' _ (omega (arith, gt)) same rest.0, rest.1)
      ]
    ]
  ]
]

-- On any device, for any inode and offset: read_file changes nothing on the device. Unless it fails it
-- returns a number of bytes that is at most the size asked for, and has written no byte of the buffer
-- behind that number. It ends the process in one case only: the offset is inside a block, and the
-- memory as many blocks behind its local variable as the offset has bytes cannot be read.
pub read_file-IsWithin :
    (buf : Bytes) (size offset : ℕ) (ino : Bytes) (d : Machine)
    → IsWithin size (offset % 4096) d buf (read_file buf size offset ino d).0
      × ((read_file buf size offset ino d).1 ≡ d)
unfolding read_file
read_file-IsWithin buf size offset ino d =
    let (within, same) =
      read_loop-IsFrom size size (offset % 4096) (dblk_itr ino (offset / 4096)) buf 0 d
        (omega arith) (omega arith) (omega arith) in
    (IsFrom-IsWithin 0 size (offset % 4096) d buf _ within, same)
