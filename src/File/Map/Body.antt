-- ===== src/File/Map/Body.antt =====
-- The writes of write_file to the blocks of a file that is long enough.
use uwufs.Base.{ℕ, ◌+◌, ◌-◌, ◌*◌, ◌/◌, ◌%◌, ◌≤◌, ◌<◌, ◌≡◌, refl, subst, List, min, arith}
use uwufs.Bytes.{Bytes, blit}
use uwufs.Machine.{Machine, Io, pure, handle, gets, ◌>>=◌, ◌>>◌}
use uwufs.Block.{load, write_blk}
use uwufs.Block.Access.{load-ok, write_blk-ok}
use uwufs.Freelist.Chain.{IsFreelist}
use uwufs.Blockmap.{dblk_itr, next, get_dblk}
use uwufs.File.Write.{write_loop}
use uwufs.File.Read.Aligned.{next-get_dblk}
use uwufs.File.Map.{IsFile}
use uwufs.File.Map.Store.{IsStored, IsStored-join}
use uwufs.File.Map.Loop.{after, IsStored-one, IsLoop, write_loop-IsStored}

-- The first of the writes goes to a block from its byte `offset % 4096` on.
module _ (lo hi : ℕ) (xs : List ℕ) (ino : Bytes) (count offset size : ℕ) (buf : Bytes)
    (most : count ≤ 134480394) (d : Machine) (f : IsFreelist d lo hi xs)
    (file : IsFile lo hi xs d ino count) (some_bytes : 0 < size)
    (end : offset + size ≤ 4096 * count) where
  abbrev j : ℕ
  j = offset / 4096

  abbrev n : ℕ
  n = min size (4096 - offset % 4096)

  in_file : j < count
  in_file = omega arith

  abbrev first_device : Machine
  first_device =
      after lo hi xs ino count offset buf most d f file j (offset % 4096) 0 n in_file (omega arith)
        (omega arith)

  first : IsStored lo hi xs ino count offset buf 0 n d first_device
  first =
      subst (λ b. IsStored lo hi xs ino count offset buf 0 b d first_device) (omega arith)
        (IsStored-one lo hi xs ino count offset buf most d f file j (offset % 4096) 0 n in_file
          (omega arith) (omega arith))

  others : IsLoop lo hi xs ino count offset buf most size (j + 1) n size first_device
  others =
      write_loop-IsStored lo hi xs ino count offset buf most size first_device first.freelist
        first.file (j + 1) n size (omega arith) (λ h. omega arith) end

  run-body :
      (then_ : Io ℕ)
      → (do
        (blk_num, itr) ← gets (next (dblk_itr ino j))
        blk ← load blk_num
        handle (write_blk (blit blk (offset % 4096) buf 0 n) blk_num) (λ _. pure tt)
        write_loop size itr buf size n
        then_)
          d
        ≡ then_ others.0
  run-body then_ =
      let (ge, top, out) = file.taken j in_file in
      rw
        (
          next-get_dblk ino j d (omega (arith, in_file)),
          load-ok (get_dblk ino j d) f.works (omega (arith, top, f.within)),
          write_blk-ok (get_dblk ino j d) f.works (omega (arith, top, f.within))
              (blit (d.block (get_dblk ino j d)) (offset % 4096) buf 0 n),
          others.1,
        )
        refl

  -- What is done after the blocks are written sees the device `d'`.
  abbrev pub RunsTo : Machine → Type 0
  RunsTo d' =
      (then_ : Io ℕ)
      → (do
        (blk_num, itr) ← gets (next (dblk_itr ino (offset / 4096)))
        blk ← load blk_num
        handle
            (write_blk (blit blk (offset % 4096) buf 0 (min size (4096 - offset % 4096))) blk_num)
            (λ _. pure tt)
        write_loop size itr buf size (min size (4096 - offset % 4096))
        then_)
          d
        ≡ then_ d'

  pub body-IsStored :
      (d' : Machine) × IsStored lo hi xs ino count offset buf 0 size d d' × RunsTo d'
  body-IsStored = (others.0, IsStored-join (omega arith) (omega arith) first others.2, run-body)
