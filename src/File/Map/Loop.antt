-- ===== src/File/Map/Loop.antt =====
-- The loop of write_file stores the bytes of the buffer in the file.
use uwufs.Base.{
  ℕ, zero, suc, ◌+◌, ◌-◌, ◌*◌, ◌/◌, ◌%◌, ◌≤◌, ◌<◌, ◌≡◌, ◌⊎◌, inl, inr, refl, sym, ap, ap₂, ◌∙◌,
  List, min, arith, ltb, ltb→lt, lt→ltb, not_ltb→le, le→not_ltb, Bool-cases, ◌==◌, ==→eq, not_==→ne,
}
use uwufs.Bytes.{Bytes, blit}
use uwufs.Bytes.Blit.{blit-inside, blit-outside}
use uwufs.Machine.{Machine, ok}
use uwufs.Block.Access.{load-ok, write_blk-ok, size-put_block}
use uwufs.Freelist.Chain.{IsFreelist}
use uwufs.Blockmap.{dblk_itr, get_dblk}
use uwufs.File.Write.{write_loop}
use uwufs.File.Map.{IsFile}
use uwufs.File.Map.Store.{
  IsStored, IsStored-none, IsStored-join, stored_at, IsFreelist-stored, IsFile-stored,
  get_dblk-stored, block-stored_self, block-stored_ne, IsFileBlk-stored, block-stored_other,
}
use uwufs.File.Read.Aligned.{file_byte, next-get_dblk}

module _ (lo hi : ℕ) (xs : List ℕ) (ino : Bytes) (count offset : ℕ) (buf : Bytes)
    (most : count ≤ 134480394) where
  -- One write, of `n` bytes from `o` on in the block `j`.
  module _ (d : Machine) (f : IsFreelist d lo hi xs) (file : IsFile lo hi xs d ino count)
      (j o w n : ℕ) (in_file : j < count) (at : 4096 * j + o ≡ offset + w)
      (fits : o + n ≤ 4096) where
    abbrev content : Bytes
    content = blit (d.block (get_dblk ino j d)) o buf w n

    abbrev pub after : Machine
    after = stored_at lo hi xs d ino count f file most j in_file content

    byte_self : (q : ℕ) → after.block (get_dblk ino j after) q ≡ content q
    byte_self q =
        ap (λ (b : Bytes). b q)
          (block-stored_self lo hi xs d ino count f file most j in_file content)

    stored-one :
        (p : ℕ) → offset + w ≤ p → p < offset + (w + n) → file_byte ino p after ≡ buf (p - offset)
    stored-one p ge lt =
        let block : p / 4096 ≡ j = omega arith in
        let place : p % 4096 ≡ o + (p - (offset + w)) = omega arith in
        ap₂ (λ i q. after.block (get_dblk ino i after) q) block place
        ∙ byte_self (o + (p - (offset + w)))
        ∙ blit-inside (d.block (get_dblk ino j d)) buf o w n (p - (offset + w)) (omega arith)
        ∙ ap buf (omega arith)

    kept-one :
        (p : ℕ)
        → p < 4096 * count
        → (p < offset + w) ⊎ (offset + (w + n) ≤ p)
        → file_byte ino p after ≡ file_byte ino p d
    kept-one p top out = elim (Bool-cases (p / 4096 == j)) [
      | inl e ↦
          let block : p / 4096 ≡ j = ==→eq (p / 4096) j e in
          ap (λ i. after.block (get_dblk ino i after) (p % 4096)) block
          ∙ byte_self (p % 4096)
          ∙ blit-outside (d.block (get_dblk ino j d)) buf o w n (p % 4096) (ground arith)
          ∙ ap (λ i. d.block (get_dblk ino i d) (p % 4096)) (sym block)
      | inr e ↦
          ap (λ (b : Bytes). b (p % 4096))
            (block-stored_ne lo hi xs d ino count f file most j in_file content (p / 4096)
              (omega arith) (not_==→ne (p / 4096) j e))
    ]

    pub IsStored-one : IsStored lo hi xs ino count offset buf w (w + n) d after
    IsStored-one = record {
      freelist = IsFreelist-stored lo hi xs d ino count f file most j in_file content;
      file = IsFile-stored lo hi xs d ino count f file most j in_file content;
      where_it_was = get_dblk-stored lo hi xs d ino count f file most j in_file content;
      size_kept = size-put_block d (get_dblk ino j d) content;
      stored = λ p _ ge lt. stored-one p ge lt;
      kept = kept-one;
      same_blks = IsFileBlk-stored lo hi xs d ino count f file most j in_file content;
      frame = block-stored_other lo hi xs d ino count f file most j in_file content;
    }

  module _ (d : Machine) (f : IsFreelist d lo hi xs) (file : IsFile lo hi xs d ino count)
      (k w size : ℕ) (lt : w < size) (at : 4096 * k ≡ offset + w)
      (end : offset + size ≤ 4096 * count) where
    abbrev n : ℕ
    n = min (size - w) 4096

    in_file : k < count
    in_file = omega arith

    round_content :
        blit (d.block (get_dblk ino k d)) 0 buf w n
        ≡ content d f file k 0 w n in_file (omega arith) (omega arith)
    round_content = refl

    abbrev next_device : Machine
    next_device = after d f file k 0 w n in_file (omega arith) (omega arith)

    run-round :
        (fuel : ℕ)
        → write_loop (suc fuel) (dblk_itr ino k) buf size w d
          ≡ write_loop fuel (dblk_itr ino (k + 1)) buf size (w + n) next_device
    unfolding write_loop
    run-round fuel =
        let (ge, top, out) = file.taken k in_file in
        rw
          (
            lt→ltb w size lt,
            next-get_dblk ino k d (omega (arith, in_file)),
            load-ok (get_dblk ino k d) f.works (omega (arith, top, f.within)),
            write_blk-ok (get_dblk ino k d) f.works (omega (arith, top, f.within))
                (blit (d.block (get_dblk ino k d)) 0 buf w n),
          )
          refl

    IsStored-round : IsStored lo hi xs ino count offset buf w (w + n) d next_device
    IsStored-round = IsStored-one d f file k 0 w n in_file (omega arith) (omega arith)

  -- What the loop does from `w` bytes on.
  abbrev pub IsLoop : (fuel k w size : ℕ) → Machine → Type 0
  IsLoop fuel k w size d =
      (d' : Machine) × (write_loop fuel (dblk_itr ino k) buf size w d ≡ (ok tt, d'))
      × IsStored lo hi xs ino count offset buf w size d d'

  IsLoop-done :
      (d : Machine) (f : IsFreelist d lo hi xs) (file : IsFile lo hi xs d ino count)
      (fuel k w size : ℕ)
      → size ≤ w
      → IsLoop fuel k w size d
  unfolding write_loop
  IsLoop-done d f file zero k w size le =
      (d, rw (le→not_ltb w size le) refl, IsStored-none offset buf w size le f file)
  IsLoop-done d f file (suc fuel) k w size le =
      (d, rw (le→not_ltb w size le) refl, IsStored-none offset buf w size le f file)

  pub write_loop-IsStored :
      (fuel : ℕ) (d : Machine) (f : IsFreelist d lo hi xs) (file : IsFile lo hi xs d ino count)
      (k w size : ℕ)
      → size ≤ w + fuel
      → (w < size → 4096 * k ≡ offset + w)
      → offset + size ≤ 4096 * count
      → IsLoop fuel k w size d
  write_loop-IsStored zero d f file k w size fuel at end =
      IsLoop-done d f file zero k w size (omega arith)
  write_loop-IsStored (suc fuel) d f file k w size enough at end = elim (Bool-cases (ltb w size)) [
    | inr e ↦ IsLoop-done d f file (suc fuel) k w size (not_ltb→le w size e)
    | inl e ↦
        let lt = ltb→lt w size e in
        let m = n d f file k w size lt (at lt) end in
        let s = IsStored-round d f file k w size lt (at lt) end in
        let (d', run, rest) =
          write_loop-IsStored fuel (next_device d f file k w size lt (at lt) end) s.freelist s.file
            (k + 1) (w + m) size (omega arith) (λ h. omega (arith, at lt)) end in
        (
          d',
          run-round d f file k w size lt (at lt) end fuel ∙ run,
          IsStored-join (omega arith) (omega arith) s rest,
        )
  ]
