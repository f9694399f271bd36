-- ===== src/File/System/Requests.antt =====
-- write_file and truncate_file as the handlers call them: the inode is read first, and the room that
-- is left is what the superblock says.
use uwufs.Base.{
  bit_and, ℕ, ◌+◌, ◌-◌, ◌*◌, ◌/◌, ◌%◌, ◌≤◌, ◌<◌, ◌≡◌, ◌≢◌, ◌⊎◌, inl, ap, subst, ◌∙◌, List, arith,
  ltb, if◌then◌else◌,
}
use uwufs.Bytes.{Bytes}
use uwufs.Bytes.Fields.{get-cong}
use uwufs.Bytes.Blit.{blit-start}
use uwufs.Machine.{Machine, ok}
use uwufs.Layout.{file_size, inode_at, file_type, f_type_bits}
use uwufs.Layout.Super.{free_blks_left}
use uwufs.Directory.{blks_of_size}
use uwufs.Itable.{read_inode}
use uwufs.Itable.Table.{inode_in, read_inode-ok}
use uwufs.File.Read.Aligned.{file_byte}
use uwufs.File.Write.{write_file, truncate_file}
use uwufs.File.Map.Contract.{IsWritable, IsWritten}
use uwufs.File.Map.Inode.{get_dblk-same}
use uwufs.File.Map.Written.{write_file-IsWritten}
use uwufs.File.Map.Truncated.{truncate_file-IsTruncated}
use uwufs.File.System.{blks_of, IsSystem}
use uwufs.File.System.Update.{IsUpdate, IsUntouched, untouched, IsSystem-update}
use uwufs.File.System.Calls.{
  IsInode, IsInode-size, IsInode-IsSameMap, IsFile-inode, IsUpdate-truncated, IsUpdate-written,
}

-- After an operation on the file `num`: all files own their blocks, and the others are untouched.
pub record IsServed (lo hi : ℕ) (InUse : ℕ → Type 0) (num : ℕ) (d d' : Machine) : Type 0 where
  pub rest : List ℕ
  pub system : IsSystem lo hi rest InUse d'
  pub untouched : (n : ℕ) → InUse n → n ≢ num → IsUntouched d d' n

IsServed-update :
    (lo hi : ℕ) (xs : List ℕ) (InUse : ℕ → Type 0) (num : ℕ) (d d' : Machine)
    → InUse num
    → IsSystem lo hi xs InUse d
    → IsUpdate lo hi xs num d d'
    → IsServed lo hi InUse num d d'
IsServed-update lo hi xs InUse num d d' used s u = record {
  rest = u.rest;
  system = IsSystem-update lo hi xs InUse num used d d' s u;
  untouched = untouched lo hi xs InUse num used d d' s u;
}

-- The bytes of a write, in the file of the inode on the device.
pub record IsStoredAt (buf : Bytes) (size offset num : ℕ) (d d' : Machine) : Type 0 where
  pub sized : file_size (inode_in d' num) ≡ (
      if ltb (file_size (inode_in d num)) (offset + size)
      then offset + size
      else file_size (inode_in d num))
  pub stored :
      (p : ℕ) → offset ≤ p → p < offset + size → file_byte (inode_in d' num) p d' ≡ buf (p - offset)
  pub kept :
      (p : ℕ)
      → p < 4096 * blks_of d num
      → (p < offset) ⊎ (offset + size ≤ p)
      → file_byte (inode_in d' num) p d' ≡ file_byte (inode_in d num) p d
  pub gap :
      (p : ℕ)
      → 4096 * blks_of d num ≤ p
      → p < 4096 * blks_of d' num
      → (p < offset) ⊎ (offset + size ≤ p)
      → file_byte (inode_in d' num) p d' ≡ 0
  pub mode : file_type (inode_in d' num) ≡ file_type (inode_in d num)

module _ (lo hi : ℕ) (xs : List ℕ) (InUse : ℕ → Type 0) (num : ℕ) (d : Machine)
    (s : IsSystem lo hi xs InUse d) (used : InUse num) where
  abbrev pub ino : Bytes
  ino = inode_at d.stack (d.block (2 + num / 16)) (num % 16)

  pub read-ok : read_inode num d ≡ (ok ino, d)
  read-ok =
      let f = s.freelist in
      let lt = s.in_table num used in read_inode-ok num f.works (omega (arith, f.ordered, f.within))

  pub read-IsInode : IsInode (inode_in d num) ino
  read-IsInode i lt = blit-start d.stack (d.block (2 + num / 16)) (256 * (num % 16)) 256 i lt

  read-size : file_size ino ≡ file_size (inode_in d num)
  read-size = IsInode-size (inode_in d num) ino read-IsInode

  -- On a device where all files in use own their blocks, truncate_file on one of them succeeds, and
  -- all of that is so after it.
  pub truncate_file-IsServed :
      (d' : Machine) × (truncate_file num d ≡ (ok tt, d'))
      × IsServed lo hi InUse num d d'
      × (file_size (inode_in d' num) ≡ 0)
      × (file_type (inode_in d' num) ≡ file_type (inode_in d num))
  truncate_file-IsServed =
      let (d', run, t) =
        truncate_file-IsTruncated d lo hi num xs s.freelist (s.file num used) (s.fits num used)
          (s.in_table num used) in
      (
        d',
        run,
        IsServed-update lo hi xs InUse num d d' used s (IsUpdate-truncated lo hi xs num d d' t),
        t.no_size,
        ap (λ m. bit_and m f_type_bits)
            (get-cong 2 (inode_in d' num) (inode_in d num) 104
              (λ k ge lt. t.kept k (inl (omega arith, omega arith)))),
      )

  module _ (buf : Bytes) (size offset : ℕ) (some_bytes : 0 < size)
      (fits : offset + size ≤ 4096 * 134480394)
      (room : 4 * (blks_of_size (offset + size) - blks_of d num) ≤ free_blks_left (d.block 0)) where
    read-IsWritable : IsWritable lo hi xs size offset ino num d
    read-IsWritable = record {
      freelist = s.freelist;
      file = IsFile-inode (inode_in d num) ino read-IsInode (s.file num used);
      some_bytes = some_bytes;
      fits = fits;
      had_fit = rw read-size (s.fits num used);
      room = rw read-size (omega (arith, room, s.freelist.count));
      in_table = s.in_table num used;
    }

    abbrev w : IsWritten lo hi xs buf size offset ino num d
    w = write_file-IsWritten buf size offset ino num d lo hi xs read-IsWritable

    w-fits : file_size w.ino' ≤ 4096 * 134480394
    w-fits = rw (w.sized) (rw read-size (bounded (file_size (inode_in d num)) (s.fits num used)))
      where
        bounded :
            (a : ℕ)
            → a ≤ 4096 * 134480394
            → (if ltb a (offset + size) then offset + size else a) ≤ 4096 * 134480394
        bounded a h = ground (arith, fits)

    at_end : IsInode w.ino' (inode_in w.device num)
    at_end i lt = w.table i lt

    end-size : file_size (inode_in w.device num) ≡ file_size w.ino'
    end-size = IsInode-size w.ino' (inode_in w.device num) at_end

    byte-end : (p : ℕ) → file_byte (inode_in w.device num) p w.device ≡ file_byte w.ino' p w.device
    byte-end p =
        ap (λ n. w.device.block n (p % 4096))
          (get_dblk-same w.ino' (inode_in w.device num)
            (IsInode-IsSameMap w.ino' (inode_in w.device num) at_end) (p / 4096) w.device)

    -- On a device where all files in use own their blocks: for a write to one of them of some bytes,
    -- which ends within what a block map has and finds four free blocks for each block that the file
    -- is to grow by, read_inode returns the inode, write_file with it succeeds and returns the number
    -- of bytes, and the file on the device then has the bytes from the offset on, keeps all others of
    -- the blocks that it had, has zeroes for the rest of its new ones, the larger of its size and the
    -- end of the write as its size, and the type that it had. All files in use own their
    -- blocks after it, and the others have the inodes, the sizes and the bytes that they had.
    pub write_file-IsServed :
        (d' : Machine) × (read_inode num d ≡ (ok ino, d))
        × (write_file buf size offset ino num d ≡ (ok size, d'))
        × IsServed lo hi InUse num d d'
        × IsStoredAt buf size offset num d d'
    write_file-IsServed = (
      w.device,
      read-ok,
      w.run,
      IsServed-update lo hi xs InUse num d w.device used s
          (IsUpdate-written lo hi xs buf size offset ino num d w read-IsInode w-fits),
      record {
        sized =
            end-size
            ∙ w.sized
            ∙ ap (λ n. if ltb n (offset + size) then offset + size else n) read-size;
        stored = λ p ge lt. byte-end p ∙ w.stored p ge lt;
        kept = λ p lt out.
            byte-end p
            ∙ w.kept p (rw read-size lt) out
            ∙ ap (λ n. d.block n (p % 4096))
                (get_dblk-same (inode_in d num) ino
                  (IsInode-IsSameMap (inode_in d num) ino read-IsInode) (p / 4096) d);
        gap = λ p ge lt out.
            byte-end p
            ∙ w.gap p (rw read-size ge) (subst (λ n. p < 4096 * blks_of_size n) end-size lt) out;
        mode =
            ap (λ m. bit_and m f_type_bits)
              (get-cong 2 (inode_in w.device num) (inode_in d num) 104
                λ k ge lt. w.table k (omega arith) ∙ w.mode k ge lt ∙ read-IsInode k (omega arith));
      },
    )
