-- ===== src/Directory/Remove.antt =====
-- __remove_entry_from_dir_data_blk of src/uwufs/file_operations.c.
pub mod Moves
use uwufs.Base.{ℕ, zero, suc, ◌+◌, ◌*◌, ◌&&◌, Option, none, some, List, ◌==◌, if◌then◌else◌}
use uwufs.Bytes.{Bytes, zeros, blit}
use uwufs.Machine.{Res, ok, fail, enoent}
use uwufs.Layout.{file_entries_per_blk, entry_inode_num}
use uwufs.Directory.{same_text, entry_name}

-- The `for` over the entries, with `left` to go: the entry with the name and the inode number.
unfoldable pub entry_from : (left i : ℕ) → Bytes → List ℕ → ℕ → Option ℕ
entry_from zero i blk name num = none
entry_from (suc left) i blk name num =
    let rest = entry_from left (i + 1) blk name num in
    if (entry_inode_num blk i == num) && same_text (entry_name blk i) name then some i else rest

-- memcpy and memset of a whole entry
abbrev pub copy_entry : Bytes → ℕ → Bytes → ℕ → Bytes
copy_entry dst i src j = blit dst (256 * i) src (256 * j) 256

abbrev pub clear_file_entry : Bytes → ℕ → Bytes
clear_file_entry blk i = blit blk (256 * i) zeros 0 256

-- The last entry of the directory moves to the place that gets free. `last_blk` is the last data
-- block, or `none` where that is the block itself.
move_last : Option ℕ → Bytes → Option Bytes → ℕ → Res (Bytes × Option Bytes)
move_last none blk last last_index = fail enoent
move_last (some i) blk none last_index =
    if i == last_index
    then ok (clear_file_entry blk i, none)
    else ok (clear_file_entry (copy_entry blk i blk last_index) last_index, none)
move_last (some i) blk (some last_blk) last_index =
    ok (copy_entry blk i last_blk last_index, some (clear_file_entry last_blk last_index))

-- The two blocks after the removal. The C function returns `last_index`, which its caller knows.
unfoldable pub remove_entry_from_dir_data_blk :
    (dir_data_blk : Bytes) (last_dir_data_blk : Option Bytes) (last_file_entry_index : ℕ)
    → (name : List ℕ) (file_inode_num : ℕ) → Res (Bytes × Option Bytes)
unfolding entry_from move_last
remove_entry_from_dir_data_blk blk last last_index name num =
    move_last (entry_from file_entries_per_blk 0 blk name num) blk last last_index
