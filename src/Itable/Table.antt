-- ===== src/Itable/Table.antt =====
-- The inode table as a map from inode numbers to inodes: read_inode looks up, write_inode updates.
use uwufs.Base.{
  ℕ, ◌+◌, ◌*◌, ◌/◌, ◌%◌, ◌≤◌, ◌<◌, ◌≡◌, ◌≢◌, refl, inl, inr, sym, ap, ◌∙◌, arith, ◌==◌, Bool-cases,
  if◌then◌else◌, ==→eq, not_==→ne,
}
use uwufs.Bytes.{Bytes}
use uwufs.Bytes.Blit.{blit-start, blit-inside, blit-outside}
use uwufs.Machine.{Machine, Res, ok, Works, put_block}
use uwufs.Block.Access.{
  load-ok, write_blk-ok, Works-put_block, size-put_block, block-put_block_self, block-put_block_ne,
}
use uwufs.Layout.{inode_at, set_inode_at}
use uwufs.Itable.{inode_blk_num, inode_num_in_blk, read_inode, write_inode}

-- The inode of a number on the device: 16 inodes to a block, from block 2 on.
abbrev pub inode_in : Machine → ℕ → Bytes
inode_in d n i = d.block (2 + n / 16) (256 * (n % 16) + i)

-- A number whose inode lies on the device.
abbrev pub IsInodeNum : Machine → ℕ → Type 0
IsInodeNum d n = 2 + n / 16 < d.size

module _ {d : Machine} (n : ℕ) (w : Works d) (h : IsInodeNum d n) where
  blk_num-eq : inode_blk_num n ≡ 2 + n / 16
  unfolding inode_blk_num
  blk_num-eq = omega (arith, w.small)

  num_in_blk-eq : inode_num_in_blk n ≡ n % 16
  unfolding inode_num_in_blk
  num_in_blk-eq = omega (arith, w.small)

  pub read_inode-ok : read_inode n d ≡ (ok (inode_at d.stack (d.block (2 + n / 16)) (n % 16)), d)
  unfolding read_inode
  read_inode-ok = rw (blk_num-eq, num_in_blk-eq, load-ok (2 + n / 16) w h)

  pub write_inode-ok :
      (ino : Bytes) (len : ℕ)
      → write_inode ino len n d
        ≡ (ok tt, put_block d (2 + n / 16) (set_inode_at (d.block (2 + n / 16)) (n % 16) ino len))
  unfolding write_inode
  write_inode-ok ino len = rw (
    blk_num-eq,
    num_in_blk-eq,
    load-ok (2 + n / 16) w h,
    write_blk-ok (2 + n / 16) w h (set_inode_at (d.block (2 + n / 16)) (n % 16) ino len),
  )

abbrev pub written : Machine → (n len : ℕ) → Bytes → Machine
written d n len ino =
    put_block d (2 + n / 16) (set_inode_at (d.block (2 + n / 16)) (n % 16) ino len)

module _ (d : Machine) (n len j i : ℕ) (ino : Bytes) where
  -- The bytes of the inode `j` where it lies in the block that is written.
  written-same_blk :
      n / 16 ≡ j / 16
      → inode_in (written d n len ino) j i
        ≡ set_inode_at (d.block (2 + n / 16)) (n % 16) ino len (256 * (j % 16) + i)
  written-same_blk e =
      ap (λ k. (written d n len ino).block (2 + k) (256 * (j % 16) + i)) (sym e)
      ∙ ap (λ (f : Bytes). f (256 * (j % 16) + i)) (block-put_block_self d (2 + n / 16) _)

  pub inode_in-same : i < len → n ≡ j → inode_in (written d n len ino) j i ≡ ino i
  inode_in-same lt e =
      written-same_blk (omega arith)
      ∙ ap (λ k. set_inode_at (d.block (2 + n / 16)) (n % 16) ino len (256 * k + i)) (omega arith)
      ∙ blit-inside (d.block (2 + n / 16)) ino (256 * (n % 16)) 0 len i lt
      ∙ ap ino (omega arith)

  inode_in-other : len ≤ 256 → i < 256 → n ≢ j → inode_in (written d n len ino) j i ≡ inode_in d j i
  inode_in-other le lt ne = elim (Bool-cases (n / 16 == j / 16)) [
    | inl same ↦
        let e : n / 16 ≡ j / 16 = ==→eq (n / 16) (j / 16) same in
        let apart : n % 16 ≢ j % 16 = omega arith in
        written-same_blk e
        ∙ blit-outside (d.block (2 + n / 16)) ino (256 * (n % 16)) 0 len (256 * (j % 16) + i)
            (omega arith)
        ∙ ap (λ k. d.block (2 + k) (256 * (j % 16) + i)) e
    | inr other ↦
        let ne' : n / 16 ≢ j / 16 = not_==→ne (n / 16) (j / 16) other in
        ap (λ (f : Bytes). f (256 * (j % 16) + i))
          (block-put_block_ne d (2 + n / 16) (2 + j / 16) _ (omega arith))
  ]

pub inode_in-write :
    (d : Machine) (n j i : ℕ) (ino : Bytes)
    → i < 256
    → inode_in (written d n 256 ino) j i ≡ (if n == j then ino i else inode_in d j i)
inode_in-write d n j i ino lt =
    ground
      (arith, inode_in-same d n 256 j i ino lt, inode_in-other d n 256 j i ino (omega arith) lt)

-- write_inode succeeds, and read_inode then returns for its inode number the bytes that were written,
-- and for any other number the bytes of that inode before the write.
pub read_inode-write_inode :
    (d : Machine) (ino : Bytes) (n j : ℕ)
    → Works d
    → IsInodeNum d n
    → IsInodeNum d j
    → ((write_inode ino 256 n d).0 ≡ ok tt)
      × ((r : Bytes) × ((read_inode j (write_inode ino 256 n d).1).0 ≡ ok r)
          × ((i : ℕ) → i < 256 → r i ≡ (if n == j then ino i else inode_in d j i)))
read_inode-write_inode d ino n j w hn hj =
    let d' = written d n 256 ino in
    rw (write_inode-ok n w hn ino 256) (
      refl,
      (
        inode_at d'.stack (d'.block (2 + j / 16)) (j % 16),
        ap (λ (p : Res Bytes × Machine). p.0)
            (read_inode-ok j (Works-put_block (2 + n / 16) _ w) (rw size-put_block hj)),
        λ i lt.
            blit-start d'.stack (d'.block (2 + j / 16)) (256 * (j % 16)) 256 i lt
            ∙ inode_in-write d n j i ino lt,
      ),
    )
