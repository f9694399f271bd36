-- ===== src/File/System/Reads.antt =====
-- read_file on a device where all files own their blocks.
use uwufs.Base.{ℕ, ◌+◌, ◌*◌, ◌/◌, ◌%◌, ◌≤◌, ◌<◌, ◌≡◌, ap, ◌∙◌, List, arith}
use uwufs.Bytes.{Bytes}
use uwufs.Machine.{Machine, ok}
use uwufs.Layout.{file_size}
use uwufs.Itable.Table.{inode_in}
use uwufs.File.Read.{read_file}
use uwufs.File.Read.Aligned.{file_byte, read_file-IsCopied}
use uwufs.File.Map.Mapped.{IsFile-IsMapped}
use uwufs.File.Map.Inode.{get_dblk-same, IsFile-same}
use uwufs.File.System.{IsSystem}
use uwufs.File.System.Calls.{IsInode-IsSameMap}
use uwufs.File.System.Requests.{ino, read-IsInode}

-- Bytes of a file in use, from the start of a block on, are read with the inode that read_inode returns.
pub read_file-bytes :
    (lo hi : ℕ) (xs : List ℕ) (InUse : ℕ → Type 0) (num : ℕ) (d : Machine)
    (s : IsSystem lo hi xs InUse d) (used : InUse num) (other : Bytes) (size base : ℕ)
    → 4096 * base + size ≤ file_size (inode_in d num)
    → (got : Bytes) × (read_file other size (4096 * base) (ino lo hi xs InUse num d s used) d
        ≡ (ok (size, got), d))
      × ((p : ℕ) → p < size → got p ≡ file_byte (inode_in d num) (4096 * base + p) d)
read_file-bytes lo hi xs InUse num d s used other size base long =
    let read = ino lo hi xs InUse num d s used in
    let same = IsInode-IsSameMap (inode_in d num) read (read-IsInode lo hi xs InUse num d s used) in
    let file = IsFile-same (inode_in d num) read same (s.file num used) in
    let fits = s.fits num used in
    let (got, run, copied) = read_file-IsCopied other size base read d (
      IsFile-IsMapped base size s.freelist file (omega (arith, fits))
        (omega (arith, long, fits))) in
    (
      got,
      run,
      λ p lt.
          copied.copied p (omega arith) lt
          ∙ ap (λ n. d.block n ((4096 * base + p) % 4096))
              (get_dblk-same (inode_in d num) read same ((4096 * base + p) / 4096) d),
    )
