-- ===== src/Examples/Names.antt =====
-- The theorems on directories and paths at a device with the file `/a`.
use uwufs.Base.{ℕ, ◌≡◌, refl, some, List, [], ◌∷◌, ◌++◌, arith, ◌==◌, if◌then◌else◌}
use uwufs.Bytes.{Bytes, zeros, get, put, poke, blit}
use uwufs.Machine.{Machine, ok, fail, enoent}
use uwufs.Block.{load, read_blk}
use uwufs.Itable.{read_inode}
use uwufs.Layout.{file_type, set_file_mode, set_file_size, set_direct_blk, set_inode_at, inode_at}
use uwufs.Blockmap.{next}
use uwufs.Directory.{c_str, c_bytes, same_text, put_directory_file_entry}
use uwufs.Directory.Entries.{IsPut, put_directory_file_entry-IsPut}
use uwufs.Directory.Lookup.{search_entries, next_inode_in_path}
use uwufs.Directory.Find.{search_entries-put_directory_file_entry}
use uwufs.Paths.{slash, split_path_parent_child, segments}
use uwufs.Paths.Split.{IsSplit, split_path_parent_child-IsSplit, segments-split_path_parent_child}
use uwufs.Paths.Namei.{namei}
use uwufs.Paths.Resolve.{Walks, here, step, namei-Walks, namei-enoent, namei_below_file}
use uwufs.Examples.{disk}

-- "/a", "/b" and "/a/b"
abbrev pub name_a : List ℕ
name_a = b'a' ∷ []

abbrev name_b : List ℕ
name_b = b'b' ∷ []

abbrev pub path_a : List ℕ
path_a = slash ∷ name_a

abbrev path_b : List ℕ
path_b = slash ∷ name_b

abbrev path_ab : List ℕ
path_ab = path_a ++ path_b

-- A data block with the entry `a` for the inode 3.
abbrev dir_blk : Bytes
dir_blk = put 8 (blit zeros 0 (c_bytes zeros name_a) 0 248) 248 3

abbrev root : Bytes
root = set_direct_blk (set_file_size (set_file_mode zeros 8192) 4096) 0 10

abbrev file : Bytes
file = set_file_mode zeros 4096

abbrev pub tree : Machine
tree = record disk {
  block = λ k.
      if k == 2
      then set_inode_at (set_inode_at zeros 2 root 256) 3 file 256
      else if k == 10
      then dir_blk
      else zeros;
}

-- The inode of the file as read_inode returns it.
abbrev pub file_read : Bytes
file_read = inode_at zeros (tree.block 2) 3

root-finds : next_inode_in_path name_a root tree ≡ (ok 3, tree)
unfolding next_inode_in_path next load read_blk get put poke blit c_str c_bytes same_text
root-finds = refl

root-misses : next_inode_in_path name_b root tree ≡ (fail enoent, tree)
unfolding next_inode_in_path next load read_blk get put poke blit c_str c_bytes same_text
root-misses = refl

file-read : read_inode 3 tree ≡ (ok file_read, tree)
unfolding read_inode load read_blk
file-read = refl

root-dir : file_type root ≡ 8192
unfolding get put poke
root-dir = refl

walk_to_a : Walks tree 3 file_read 2 root (name_a ∷ [])
walk_to_a = step root-dir (omega arith) root-finds (omega arith) file-read here

split_path_parent_child-IsSplit_example : IsSplit path_ab (split_path_parent_child path_ab)
split_path_parent_child-IsSplit_example = split_path_parent_child-IsSplit path_ab

segments-split_path_parent_child_example : segments path_ab ≡ segments path_a ++ name_b ∷ []
segments-split_path_parent_child_example =
    segments-split_path_parent_child path_ab path_a b'b' [] (unfold split_path_parent_child in refl)

namei-Walks_example : namei 1 path_a (some root) tree ≡ (ok 3, tree)
namei-Walks_example = namei-Walks tree root file_read 0 3 path_a (unfold segments in walk_to_a)

namei-enoent_example : namei 1 path_b (some root) tree ≡ (fail enoent, tree)
namei-enoent_example =
    namei-enoent tree root root 0 2 path_b name_b [] [] (unfold segments in refl) here
      (unfold get put poke in refl) (omega arith) root-misses

namei_below_file_example : namei 1 path_ab (some root) tree ≡ (ok 3, tree)
namei_below_file_example =
    namei_below_file tree root file_read 0 3 path_ab name_b (name_a ∷ []) (unfold segments in refl)
      walk_to_a (unfold get put poke blit in refl) (omega arith)

put_directory_file_entry-IsPut_example :
    IsPut dir_blk
      (c_bytes zeros name_b)
      5
      (put_directory_file_entry dir_blk (c_bytes zeros name_b) 5)
put_directory_file_entry-IsPut_example =
    put_directory_file_entry-IsPut dir_blk (c_bytes zeros name_b) 5 (omega arith)

-- The block with `a` and `b`.
abbrev two_files : Bytes
two_files = poke (blit (put 8 dir_blk 504 5) 256 (c_bytes zeros name_b) 0 248) 503 0

search_entries-put_directory_file_entry_example : search_entries 16 0 two_files name_b ≡ some 5
search_entries-put_directory_file_entry_example =
    search_entries-put_directory_file_entry dir_blk two_files zeros 5 name_b (omega arith)
      (omega arith) (omega arith) (omega arith) (omega arith)
      (unfold search_entries get put poke blit c_str c_bytes same_text in refl)
      (unfold put_directory_file_entry get put poke blit c_bytes in refl)
