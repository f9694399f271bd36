-- ===== src/Paths/Leads.antt =====
-- Paths on a device where all files own their blocks: where a path leads follows from what is in the
-- directories.
use uwufs.Base.{
  ℕ, suc, ◌<◌, ◌≡◌, ◌≢◌, none, refl, sym, ap, ◌∙◌, List, [], ◌∷◌, length, arith, bit_and,
}
use mathlib.Core.List.{append-nil}
use uwufs.Bytes.{Bytes}
use uwufs.Bytes.Fields.{get-cong}
use uwufs.Machine.{Machine, ok}
use uwufs.Layout.{file_size, file_type, f_type_bits}
use uwufs.Blockmap.{get_dblk}
use uwufs.Directory.{blks_of_size}
use uwufs.Directory.Lookup.{next_inode_in_path}
use uwufs.Directory.Contents.{find_in, find_in-cong, next_inode_in_path-find_in}
use uwufs.Itable.Table.{inode_in}
use uwufs.File.Map.Inode.{get_dblk-same}
use uwufs.File.System.{blks_of, IsSystem}
use uwufs.File.System.Update.{IsUntouched}
use uwufs.File.System.Calls.{IsInode-size, IsInode-IsSameMap}
use uwufs.File.System.Requests.{ino, read-ok, read-IsInode}
use uwufs.Paths.{segments}
use uwufs.Paths.Namei.{walk, namei}
use uwufs.Paths.Resolve.{Walks, here, step, walk-Walks}

-- The blocks of the file of an inode, in order.
abbrev pub content : Machine → ℕ → ℕ → Bytes
content d n j = d.block (get_dblk (inode_in d n) j d)

-- The segments lead from the inode `num` to the inode `n`: each but the last inode is a directory in
-- use, in which the first entry with the segment as its name has the next one.
pub data Leads (InUse : ℕ → Type 0) (d : Machine) (n : ℕ) : ℕ → List (List ℕ) → Type 0 where
  there : Leads InUse d n n []
  through :
      {num m : ℕ} {s : List ℕ} {ss : List (List ℕ)}
      → InUse num
      → file_type (inode_in d num) ≡ 8192
      → length s < 248
      → find_in (blks_of d num) 0 (content d num) s ≡ ok m
      → m ≢ 0
      → InUse m
      → Leads InUse d n m ss
      → Leads InUse d n num (s ∷ ss)

pub type-same :
    (ino ino' : Bytes) → ((i : ℕ) → i < 256 → ino' i ≡ ino i) → file_type ino' ≡ file_type ino
type-same ino ino' same =
    ap (λ m. bit_and m f_type_bits) (get-cong 2 ino' ino 104 (λ k ge lt. same k (omega arith)))

-- A change that leaves all directories untouched changes no path.
pub Leads-untouched :
    (InUse : ℕ → Type 0) (d d' : Machine) {n num : ℕ} {ss : List (List ℕ)}
    → ((m : ℕ) → InUse m → file_type (inode_in d m) ≡ 8192 → IsUntouched d d' m)
    → Leads InUse d n num ss
    → Leads InUse d' n num ss
Leads-untouched InUse d d' same there = there
Leads-untouched InUse d d' same (through {num} {m} {s} used dir short found ne used_m l) =
    let t = same num used dir in
    through used (type-same (inode_in d num) (inode_in d' num) t.inode ∙ dir) short
      (ap (λ size. find_in (blks_of_size size) 0 (content d' num) s) t.size
        ∙ find_in-cong (blks_of d num) 0 (content d' num) (content d num) s
            (λ j _ lt. t.content j (omega arith))
        ∙ found)
      ne used_m (Leads-untouched InUse d d' same l)

module _ (lo hi : ℕ) (xs : List ℕ) (InUse : ℕ → Type 0) (d : Machine)
    (s : IsSystem lo hi xs InUse d) where
  abbrev read_of : (num : ℕ) → InUse num → Bytes
  read_of num used = ino lo hi xs InUse num d s used

  module _ (num : ℕ) (used : InUse num) where
    abbrev inode : Bytes
    inode = ino lo hi xs InUse num d s used

    same_size : file_size inode ≡ file_size (inode_in d num)
    same_size = IsInode-size (inode_in d num) inode (read-IsInode lo hi xs InUse num d s used)

    pub same_blk : (j : ℕ) → get_dblk inode j d ≡ get_dblk (inode_in d num) j d
    same_blk j =
        get_dblk-same (inode_in d num) inode
          (IsInode-IsSameMap (inode_in d num) inode (read-IsInode lo hi xs InUse num d s used)) j d

    pub same_type : file_type inode ≡ file_type (inode_in d num)
    same_type = type-same (inode_in d num) inode (read-IsInode lo hi xs InUse num d s used)

    -- The look-up in a directory by the inode that was read.
    lookup :
        (name : List ℕ)
        → next_inode_in_path name inode d ≡ (find_in (blks_of d num) 0 (content d num) name, d)
    lookup name =
        next_inode_in_path-find_in inode d s.freelist.works name (rw same_size (s.fits num used))
          (λ j lt.
            let few : j < blks_of d num = rw same_size at lt in
            let (ge, top, _) = (s.file num used).taken j few in
            let most = s.fits num used in
            rw (same_blk j) (
              omega arith,
              omega (arith, ge, s.freelist.behind_super),
              omega (arith, top, s.freelist.within),
            ))
        ∙ ap (λ size. (find_in (blks_of_size size) 0 (λ j. d.block (get_dblk inode j d)) name, d))
            same_size
        ∙ ap (λ r. (r, d))
            (find_in-cong (blks_of d num) 0 (λ j. d.block (get_dblk inode j d)) (content d num) name
              (λ j _ _. ap d.block (same_blk j)))

  Walks-Leads :
      {n num : ℕ} {ss : List (List ℕ)} (used : InUse num) (used_n : InUse n)
      → Leads InUse d n num ss
      → Walks d n (read_of n used_n) num (read_of num used) ss
  Walks-Leads used used_n there = here
  Walks-Leads {n} {num} used used_n (through {m} {s = name} _ dir short found ne used_m l) =
      step (same_type num used ∙ dir) short (lookup num used name ∙ ap (λ r. (r, d)) found) ne
        (read-ok lo hi xs InUse m d s used_m) (Walks-Leads used_m used_n l)

  -- On a device where all files in use own their blocks, where the root directory and the inode `n` are
  -- in use and the segments of the path lead from the one to the other, namei returns `n` and changes
  -- nothing.
  pub namei-Leads :
      (fuel n : ℕ) (path : List ℕ)
      → InUse 2
      → InUse n
      → Leads InUse d n 2 (segments path)
      → namei (suc fuel) path none d ≡ (ok n, d)
  unfolding namei
  namei-Leads fuel n path root used l = rw (read-ok lo hi xs InUse 2 d s root) (
      ap (λ ss. walk (λ link. namei fuel link none) ss 2 (read_of 2 root) d)
        (sym (append-nil (segments path)))
      ∙ walk-Walks (λ link. namei fuel link none) [] (Walks-Leads root used l)
      ∙ (unfold walk in refl))
