-- ===== src/File/System/History.antt =====
-- Any sequence of writes to files and truncations of files on one device.
use uwufs.Base.{
  ℕ, ◌+◌, ◌-◌, ◌*◌, ◌≤◌, ◌<◌, ◌≡◌, refl, sym, ap, subst, ◌∙◌, false, List, [], ◌∷◌, has, arith,
}
use uwufs.Bytes.{Bytes}
use uwufs.Machine.{Machine, Res, ok, fail, crash}
use uwufs.Layout.Super.{free_blks_left}
use uwufs.Directory.{blks_of_size}
use uwufs.Itable.{read_inode}
use uwufs.File.Write.{write_file, truncate_file}
use uwufs.File.System.{blks_of, IsSystem}
use uwufs.File.System.Update.{IsUntouched}
use uwufs.File.System.Requests.{IsServed, read-ok, truncate_file-IsServed, write_file-IsServed}

-- A file in use is truncated, or written to: with the inode that read_inode returns, and where the
-- superblock counts enough free blocks for the blocks that the file is to grow by.
pub data Step (InUse : ℕ → Type 0) : ℕ → Machine → Machine → Type 0 where
  write :
      (num : ℕ) (buf : Bytes) (size offset : ℕ) (inode : Bytes) (d : Machine)
      → InUse num
      → 0 < size
      → offset + size ≤ 4096 * 134480394
      → 4 * (blks_of_size (offset + size) - blks_of d num) ≤ free_blks_left (d.block 0)
      → (read_inode num d).0 ≡ ok inode
      → Step InUse num d (write_file buf size offset inode num d).1
  truncate : (num : ℕ) (d : Machine) → InUse num → Step InUse num d (truncate_file num d).1

-- Steps on the files with the inode numbers of a list, the last one first.
pub data Reach (InUse : ℕ → Type 0) (s : Machine) : List ℕ → Machine → Type 0 where
  here : Reach InUse s [] s
  next :
      {nums : List ℕ} {num : ℕ} {t u : Machine}
      → Reach InUse s nums t
      → Step InUse num t u
      → Reach InUse s (num ∷ nums) u

Step-IsServed :
    (lo hi : ℕ) (xs : List ℕ) (InUse : ℕ → Type 0) {num : ℕ} {d d' : Machine}
    → IsSystem lo hi xs InUse d
    → Step InUse num d d'
    → IsServed lo hi InUse num d d'
Step-IsServed lo hi xs InUse s (write num buf size offset inode d used some_bytes fits room read) =
    let (d', _, run, served, _) =
      write_file-IsServed lo hi xs InUse num d s used buf size offset some_bytes fits room in
    subst (IsServed lo hi InUse num d)
      (sym (
        ap (λ i. (write_file buf size offset i num d).1)
          (returned (
            sym read ∙ ap (λ (p : Res Bytes × Machine). p.0) (read-ok lo hi xs InUse num d s used)))
        ∙ ap (λ (p : Res ℕ × Machine). p.1) run))
      served
  where
    value : Res Bytes → Bytes
    value (ok i) = i
    value (fail _) = inode
    value crash = inode

    returned : {i : Bytes} → ok inode ≡ ok i → inode ≡ i
    returned e = ap value e
Step-IsServed lo hi xs InUse s (truncate num d used) =
    let (d', run, served, _, _) = truncate_file-IsServed lo hi xs InUse num d s used in
    subst (IsServed lo hi InUse num d) (sym (ap (λ (p : Res Unit × Machine). p.1) run)) served

pub IsUntouched-refl : (d : Machine) (n : ℕ) → IsUntouched d d n
IsUntouched-refl d n = record {
  size = refl;
  inode = λ i lt. refl;
  content = λ j lt. refl;
  bytes = λ p lt. refl;
}

pub IsUntouched-trans :
    {s t u : Machine} {n : ℕ} → IsUntouched s t n → IsUntouched t u n → IsUntouched s u n
IsUntouched-trans a b = record {
  size = b.size ∙ a.size;
  inode = λ i lt. b.inode i lt ∙ a.inode i lt;
  content = λ j lt. b.content j (rw (a.size) lt) ∙ a.content j lt;
  bytes = λ p lt. b.bytes p (rw (a.size) lt) ∙ a.bytes p lt;
}

-- On a device where all files in use own their blocks, whatever is written to these files and
-- whichever of them are truncated, as long as each write is of some bytes, ends within what a block
-- map has and finds four free blocks for each block that its file is to grow by: on the device at the
-- end all files in use own their blocks, no block is part of two of them or of one and the free list,
-- and every file that is not among those written or truncated has the inode, the size
-- and the bytes it had.
pub Reach-IsSystem :
    (lo hi : ℕ) (xs : List ℕ) (InUse : ℕ → Type 0) (s : Machine) (nums : List ℕ) (d : Machine)
    → IsSystem lo hi xs InUse s
    → Reach InUse s nums d
    → (rest : List ℕ) × IsSystem lo hi rest InUse d
      × ((n : ℕ) → InUse n → has n nums ≡ false → IsUntouched s d n)
Reach-IsSystem lo hi xs InUse s _ _ start here = (xs, start, λ n used out. IsUntouched-refl s n)
Reach-IsSystem lo hi xs InUse s _ _ start (next {nums} {num} {t} r step) =
    let (rest, system, same) = Reach-IsSystem lo hi xs InUse s nums t start r in
    let served = Step-IsServed lo hi rest InUse system step in
    (
      served.rest,
      served.system,
      λ n used out.
          IsUntouched-trans (same n used (ground arith))
            (served.untouched n used (λ e. ground arith)),
    )
