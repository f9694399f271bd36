-- ===== src/Directory/Contents.antt =====
-- What next_inode_in_path finds, as a function of the blocks of a directory.
use uwufs.Base.{
  ℕ, zero, suc, ◌+◌, ◌*◌, ◌≤◌, ◌<◌, ◌≡◌, ◌≢◌, Option, none, some, List, refl, ap₂, arith, ne→not_==,
}
use uwufs.Bytes.{Bytes}
use uwufs.Machine.{Machine, Works, Res, ok, fail, enoent, Io}
use uwufs.Block.Access.{load-ok}
use uwufs.Blockmap.{dblk_itr, get_dblk}
use uwufs.Layout.{file_size}
use uwufs.Directory.{blks_of_size, to_int}
use uwufs.Directory.Lookup.{search_entries, found_or, search_blks, next_inode_in_path}
use uwufs.File.Read.Aligned.{next-get_dblk}

ok_or : Option ℕ → Res ℕ → Res ℕ
ok_or (some num) rest = ok num
ok_or none rest = rest

-- The inode number of the first entry with the name in the `left` blocks from the block `i` on.
unfoldable pub find_in : (left i : ℕ) → (content : ℕ → Bytes) → (name : List ℕ) → Res ℕ
unfolding ok_or
find_in zero i content name = fail enoent
find_in (suc left) i content name =
    ok_or (search_entries 16 0 (content i) name) (find_in left (i + 1) content name)

pub find_in-cong :
    (left i : ℕ) (f g : ℕ → Bytes) (name : List ℕ)
    → ((j : ℕ) → i ≤ j → j < i + left → f j ≡ g j)
    → find_in left i f name ≡ find_in left i g name
unfolding find_in
find_in-cong zero i f g name same = refl
find_in-cong (suc left) i f g name same =
    ap₂ (λ b rest. ok_or (search_entries 16 0 b name) rest) (same i (omega arith) (omega arith))
      (find_in-cong left (i + 1) f g name (λ j ge lt. same j (omega arith) (omega arith)))

-- What an optional number and the action after it return, where the action only reads.
found_or-ok_or :
    (o : Option ℕ) (m : Io ℕ) (rest : Res ℕ) (d : Machine)
    → m d ≡ (rest, d)
    → found_or o m d ≡ (ok_or o rest, d)
unfolding found_or ok_or
found_or-ok_or (some num) m rest d e = refl
found_or-ok_or none m rest d e = e

module _ (ino : Bytes) (d : Machine) (w : Works d) (name : List ℕ) where
  abbrev Readable : ℕ → Type 0
  Readable j = (j < 134480394) × (get_dblk ino j d ≢ 0) × (get_dblk ino j d < d.size)

  search_blks-find_in :
      (left i : ℕ)
      → ((j : ℕ) → i ≤ j → j < i + left → Readable j)
      → search_blks left (dblk_itr ino i) name d
        ≡ (find_in left i (λ j. d.block (get_dblk ino j d)) name, d)
  unfolding search_blks find_in
  search_blks-find_in zero i h = refl
  search_blks-find_in (suc left) i h =
      let (indexed, used, inside) = h i (omega arith) (omega arith) in
      rw
        (
          next-get_dblk ino i d indexed,
          ne→not_== (get_dblk ino i d) 0 used,
          load-ok (get_dblk ino i d) w inside,
        )
        (found_or-ok_or (search_entries 16 0 (d.block (get_dblk ino i d)) name)
          (search_blks left (dblk_itr ino (i + 1)) name)
          (find_in left (i + 1) (λ j. d.block (get_dblk ino j d)) name) d
          (search_blks-find_in left (i + 1) (λ j ge lt. h j (omega arith) (omega arith))))

  pub next_inode_in_path-find_in :
      file_size ino ≤ 4096 * 134480394
      → ((j : ℕ) → j < blks_of_size (file_size ino) → Readable j)
      → next_inode_in_path name ino d
        ≡ (find_in (blks_of_size (file_size ino)) 0 (λ j. d.block (get_dblk ino j d)) name, d)
  unfolding next_inode_in_path
  next_inode_in_path-find_in fits h =
      rw (small (file_size ino) fits)
        (search_blks-find_in (blks_of_size (file_size ino)) 0 (λ j _ lt. h j (omega arith)))
    where
      small : (s : ℕ) → s ≤ 4096 * 134480394 → to_int (blks_of_size s) ≡ blks_of_size s
      small s h = ground arith
