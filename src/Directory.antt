-- ===== src/Directory.antt =====
-- Directories of src/uwufs/file_operations.c and low_level_operations.c: the entries of a data block,
-- and the directory as a file of such blocks.
pub mod Text
pub mod Entries
pub mod Find
pub mod Lookup
pub mod Contents
pub mod Add
pub mod Remove
use uwufs.Base.{
  ℕ, zero, suc, ◌+◌, ◌-◌, ◌*◌, ◌/◌, ◌%◌, ◌^◌, ◌≡◌, Bool, true, false, ◌&&◌, Option, none, some,
  List, [], ◌∷◌, ltb, leb, ◌==◌, if◌then◌else◌, length,
}
use uwufs.Bytes.{Bytes, zeros, get, put, poke, blit}
use uwufs.Machine.{
  Machine, Res, ok, fail, crash, enospc, eio, enoent, Io, pure, raise, lift, handle, gets,
  unix_time, ◌>>=◌, ◌>>◌,
}
use uwufs.Block.{load, write_blk}
use uwufs.Freelist.{malloc_blk, free_blk}
use uwufs.Itable.{read_inode, write_inode}
use uwufs.Blockmap.{DataBlockIterator, dblk_itr, next, get_dblk, append_dblk}
use uwufs.Layout.{
  block_size, file_entries_per_blk, file_name_size, direct_blocks, direct_blk, set_direct_blk,
  file_size, set_file_size, file_links_count, set_file_links_count, set_file_atime, set_file_mtime,
  set_file_ctime, entry_inode_num, set_entry_inode_num,
}

-- The text of a buffer: the characters before the first NUL, or all of them if there is none.
unfoldable pub c_str : (size : ℕ) → Bytes → (from : ℕ) → List ℕ
c_str zero b i = []
c_str (suc n) b i =
    let rest = c_str n b (i + 1) in if b i % 256 == 0 then [] else (b i % 256) ∷ rest

-- A text in a buffer, with its NUL; behind it is what the buffer held.
unfoldable pub c_bytes : Bytes → List ℕ → Bytes
unfolding poke
c_bytes buf [] = poke buf 0 0
c_bytes buf (c ∷ cs) =
    let rest = c_bytes (λ i. buf (i + 1)) cs in λ i. if i == 0 then c else rest (i - 1)

-- strcmp(a, b) == 0
unfoldable pub same_text : List ℕ → List ℕ → Bool
same_text [] [] = true
same_text (a ∷ xs) (b ∷ ys) = (a == b) && same_text xs ys
same_text _ _ = false

-- The name of an entry.
abbrev pub entry_name : Bytes → ℕ → List ℕ
entry_name blk i = c_str file_name_size blk (256 * i)

-- How many data blocks hold a file of this size: (size + UWUFS_BLOCK_SIZE - 1) / UWUFS_BLOCK_SIZE
abbrev pub blks_of_size : ℕ → ℕ
blks_of_size size = (size + block_size - 1) % 2 ^ 64 / block_size

-- The value of an int, where a negative one counts as 0: it only bounds loops.
abbrev pub to_int : ℕ → ℕ
to_int n = let low = n % 2 ^ 32 in if ltb low (2 ^ 31) then low else 0

-- The `for` of put_directory_file_entry, with `left` entries to go.
free_entry_from : (left i : ℕ) → Bytes → Option ℕ
free_entry_from zero i blk = none
free_entry_from (suc left) i blk =
    let rest = free_entry_from left (i + 1) blk in
    if entry_inode_num blk i == 0 then some i else rest

-- The entry with its inode number, its name, and a NUL as last character of the name.
fill_entry : Bytes → ℕ → Bytes → ℕ → Bytes
unfolding poke
fill_entry blk i name num =
    poke (blit (set_entry_inode_num blk i num) (256 * i) name 0 file_name_size)
      (256 * i + (file_name_size - 1)) 0

put_in : Option ℕ → Bytes → Bytes → ℕ → Res Bytes
unfolding fill_entry
put_in (some i) blk name num = ok (fill_entry blk i name num)
put_in none blk name num = fail enospc

unfoldable pub put_directory_file_entry : (dir_blk name : Bytes) → (file_inode_num : ℕ) → Res Bytes
unfolding free_entry_from put_in
put_directory_file_entry dir_blk name num =
    put_in (free_entry_from file_entries_per_blk 0 dir_blk) dir_blk name num

-- How many entries are in use, of the `left` ones from `i` on.
unfoldable pub count_entries : (left i : ℕ) → Bytes → ℕ
count_entries zero i blk = 0
count_entries (suc left) i blk =
    let rest = count_entries left (i + 1) blk in
    if entry_inode_num blk i == 0 then rest else rest + 1

-- is_directory_empty: an error of the read is returned as a `bool`, so it counts as true.
abbrev empty_of : Res Bytes → Bool
empty_of (ok blk) = leb (count_entries file_entries_per_blk 0 blk) 2
empty_of _ = true

unfoldable pub is_directory_empty : Bytes → Machine → Bool
unfolding count_entries
is_directory_empty dir_inode d = empty_of (load (direct_blk dir_inode 0) d).0

-- count_directory_file_entries: the ten direct blocks, with `left` to go.
count_in_blks : (left i : ℕ) → Bytes → (num_entries : ℕ) → Io ℕ
count_in_blks zero i dir_inode num = pure num
count_in_blks (suc left) i dir_inode num =
    let rest = count_in_blks left (i + 1) dir_inode in
    if direct_blk dir_inode i == 0 then rest num else do
      blk ← load (direct_blk dir_inode i)
      rest (num + count_entries file_entries_per_blk 0 blk)

unfoldable pub count_directory_file_entries : Bytes → Io ℕ
unfolding count_in_blks count_entries
count_directory_file_entries dir_inode = count_in_blks direct_blocks 0 dir_inode 0
