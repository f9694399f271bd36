-- ===== src/Directory/Lookup.antt =====
-- next_inode_in_path of src/uwufs/low_level_operations.c: the search of a directory for a name.
use uwufs.Base.{
  ℕ, zero, suc, ◌+◌, Bool, ◌&&◌, Option, none, some, List, ltb, ◌==◌, if◌then◌else◌, length,
}
use uwufs.Bytes.{Bytes}
use uwufs.Machine.{enoent, eio, Io, pure, raise, gets, ◌>>=◌}
use uwufs.Block.{load}
use uwufs.Blockmap.{DataBlockIterator, dblk_itr, next}
use uwufs.Layout.{file_entries_per_blk, file_size, entry_inode_num}
use uwufs.Directory.{same_text, entry_name, blks_of_size, to_int}

-- Whether the entry is in use and has the name, which may not be empty.
abbrev pub matches : Bytes → (file_name : List ℕ) → ℕ → Bool
matches blk name j =
    ltb 0 (entry_inode_num blk j) && ltb 0 (length name) && same_text (entry_name blk j) name

-- The `for` over the entries of a block, with `left` to go.
unfoldable pub search_entries : (left j : ℕ) → Bytes → List ℕ → Option ℕ
search_entries zero j blk name = none
search_entries (suc left) j blk name =
    let rest = search_entries left (j + 1) blk name in
    if matches blk name j then some (entry_inode_num blk j) else rest

-- Return the inode number that was found in the block, or go on.
unfoldable pub found_or : Option ℕ → Io ℕ → Io ℕ
found_or (some num) rest = pure num
found_or none rest = rest

-- The `for` over the data blocks, with `left` to go.
unfoldable pub search_blks : (left : ℕ) → DataBlockIterator → List ℕ → Io ℕ
unfolding search_entries found_or
search_blks zero itr name = raise enoent
search_blks (suc left) itr name = do
  (blk_num, itr') ← gets (next itr)
  let rest = search_blks left itr' name
  if blk_num == 0
      then raise eio
      else (do blk ← load blk_num; found_or (search_entries file_entries_per_blk 0 blk name) rest)

unfoldable pub next_inode_in_path : (file_name : List ℕ) → (cur_inode : Bytes) → Io ℕ
unfolding search_blks
next_inode_in_path name inode =
    search_blks (to_int (blks_of_size (file_size inode))) (dblk_itr inode 0) name
