-- ===== src/Syscalls/Files/Stored.antt =====
-- uwufs_write and uwufs_read of one path.
use uwufs.Base.{ℕ, suc, ◌*◌, ◌<◌, ◌≡◌, none, refl, ◌∙◌, List, eq→==}
use uwufs.Bytes.{Bytes}
use uwufs.Machine.{Machine, ok}
use uwufs.Layout.{file_type}
use uwufs.Itable.Table.{inode_in}
use uwufs.File.Write.{write_file}
use uwufs.Links.{namei_or_enoent}
use uwufs.Paths.{segments}
use uwufs.Paths.Leads.{Leads, namei-Leads, same_type}
use uwufs.File.System.{IsSystem}
use uwufs.File.System.Requests.{IsServed, ino, read-ok}
use uwufs.Syscalls.Files.{uwufs_read, uwufs_write}

-- What is so after uwufs_write of bytes to the start of a block of a path that leads to `n`: uwufs_read
-- of the path returns them, no path leads elsewhere than before, and no other file has changed.
pub record IsReadBack (lo hi : ℕ) (InUse : ℕ → Type 0) (n fuel : ℕ) (path : List ℕ)
    (buf other : Bytes) (size base : ℕ) (d d' : Machine) : Type 0 where
  pub got : Bytes
  pub read : uwufs_read fuel path other size (4096 * base) d' ≡ (ok (size, got), d')
  pub same : (p : ℕ) → p < size → got p ≡ buf p
  pub paths : (m : ℕ) (ss : List (List ℕ)) → Leads InUse d m 2 ss → Leads InUse d' m 2 ss
  pub served : IsServed lo hi InUse n d d'

module _ (lo hi : ℕ) (InUse : ℕ → Type 0) (n : ℕ) (used : InUse n) (root : InUse 2) (fuel : ℕ)
    (path : List ℕ) where
  module _ (xs : List ℕ) (d : Machine) (s : IsSystem lo hi xs InUse d)
      (l : Leads InUse d n 2 (segments path)) where
    pub namei_or_enoent-Leads : namei_or_enoent (suc fuel) path none d ≡ (ok n, d)
    unfolding namei_or_enoent
    namei_or_enoent-Leads = rw (namei-Leads lo hi xs InUse d s fuel n path root used l) refl

    -- The handlers reach read_file and write_file.
    module _ (regular : file_type (inode_in d n) ≡ 4096) where
      pub regular-read : file_type (ino lo hi xs InUse n d s used) ≡ 4096
      regular-read = same_type lo hi xs InUse d s n used ∙ regular

      pub write-run :
          (buf : Bytes) (size offset : ℕ) (d' : Machine)
          → write_file buf size offset (ino lo hi xs InUse n d s used) n d ≡ (ok size, d')
          → uwufs_write (suc fuel) path buf size offset d ≡ (ok size, d')
      unfolding uwufs_write
      write-run buf size offset d' run =
          rw
            (
              namei_or_enoent-Leads,
              read-ok lo hi xs InUse n d s used,
              eq→== _ 4096 regular-read,
              run,
            )
            refl
