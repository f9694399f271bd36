-- ===== src/Syscalls/Files/Existing.antt =====
-- __create_regular_file of a path that exists.
use uwufs.Base.{ℕ, ◌<◌, ◌≡◌, refl, List, arith, lt→not_leb}
use uwufs.Bytes.{Bytes}
use uwufs.Machine.{Machine, ok, unix_time}
use uwufs.Block.Access.{load-ok}
use uwufs.Itable.{read_inode, write_inode}
use uwufs.Layout.{set_file_atime}
use uwufs.Layout.Super.{free_blks_left}
use uwufs.Paths.{split_path_parent_child}
use uwufs.Syscalls.Attributes.Changes.{IsFound, written}
use uwufs.Syscalls.Files.{create_regular_file, on_existing}

module _ (fuel : ℕ) (path parent child : List ℕ) (num mode : ℕ) (old : Bytes) (d : Machine)
    (f : IsFound fuel path num old d) (room : 5 < free_blks_left (d.block 0))
    (split : split_path_parent_child path ≡ ok (parent, child)) where
  abbrev garbage : Bytes
  garbage = set_file_atime d.stack (unix_time d)

  create-run : create_regular_file fuel path mode d ≡ (ok tt, (write_inode garbage 256 num d).1)
  unfolding create_regular_file on_existing
  create-run =
      rw
        (
          load-ok 0 f.works (omega (arith, f.on_device)),
          lt→not_leb (free_blks_left (d.block 0)) 5 room,
          split,
          f.resolves,
          (written fuel path num old d f garbage).0,
        )
        refl

  -- Where the path leads to a file, more than 5 blocks are free and the name is not too long, the
  -- function succeeds, and the inode of the file is then the content of the stack with the time as its
  -- access time, whatever the inode was.
  pub create_regular_file-overwrites :
      ((create_regular_file fuel path mode d).0 ≡ ok tt)
      × (r : Bytes) × ((read_inode num (create_regular_file fuel path mode d).1).0 ≡ ok r)
      × ((i : ℕ) → i < 256 → r i ≡ set_file_atime d.stack (unix_time d) i)
  create_regular_file-overwrites =
      let (done, (r, back, bytes)) = written fuel path num old d f garbage in
      rw create-run (refl, r, back, bytes)
