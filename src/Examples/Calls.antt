-- ===== src/Examples/Calls.antt =====
-- The theorems on the operations of libfuse at a device with the file `/a`.
use uwufs.Base.{ℕ, ◌<◌, ◌≡◌, ◌⊎◌, ◌≤◌, refl, arith, ◌==◌, if◌then◌else◌, []}
use uwufs.Bytes.{Bytes, get, put, poke, blit}
use uwufs.Machine.{Machine, ok}
use uwufs.Block.{load, read_blk}
use uwufs.Itable.{read_inode}
use uwufs.Layout.{file_uid, file_gid, file_atime, file_mtime, set_file_atime}
use uwufs.Blockmap.{next}
use uwufs.Directory.{c_str, c_bytes, same_text}
use uwufs.Directory.Lookup.{next_inode_in_path}
use uwufs.Paths.{segments, split_path_parent_child}
use uwufs.Paths.Namei.{namei}
use uwufs.Syscalls.Attributes.{Timespec, uwufs_chown, uwufs_utimens}
use uwufs.Syscalls.Attributes.Changes.{IsFound, uwufs_chown_lem, uwufs_utimens_lem}
use uwufs.Syscalls.Files.{create_regular_file}
use uwufs.Syscalls.Files.Existing.{create_regular_file-overwrites}
use uwufs.Examples.{super}
use uwufs.Examples.Names.{tree, path_a, name_a, file_read}

-- The device with 20 free blocks.
abbrev mounted : Machine
mounted = record tree { block = λ k. if k == 0 then super 6 20 else tree.block k }

a-IsFound : IsFound 1 path_a 3 file_read mounted
a-IsFound = record {
  works = record { small = omega arith; reads = λ _. refl; writes = λ _. refl };
  on_device = omega arith;
  resolves =
      unfold namei segments read_inode next_inode_in_path next load read_blk get put poke blit c_str
        c_bytes same_text in
      refl;
  reads = unfold read_inode load read_blk in refl;
}

uwufs_chown_lem_example :
    ((uwufs_chown 1 path_a 7 8 mounted).0 ≡ ok tt)
    × (r : Bytes) × ((read_inode 3 (uwufs_chown 1 path_a 7 8 mounted).1).0 ≡ ok r)
    × (file_uid r ≡ 7)
    × (file_gid r ≡ 8)
    × ((i : ℕ) → i < 256 → (i < 116) ⊎ (124 ≤ i) → r i ≡ file_read i)
uwufs_chown_lem_example =
    uwufs_chown_lem 1 path_a 3 file_read mounted a-IsFound 7 8 (omega arith) (omega arith)

abbrev at_second : ℕ → Timespec
at_second s = record { tv_sec = s; tv_nsec = 0 }

uwufs_utimens_lem_example :
    ((uwufs_utimens 1 path_a (at_second 5) (at_second 6) mounted).0 ≡ ok tt)
    × (r : Bytes) × ((read_inode 3 (uwufs_utimens 1 path_a (at_second 5) (at_second 6) mounted).1).0
        ≡ ok r)
    × (file_atime r ≡ 6)
    × (file_mtime r ≡ file_mtime file_read)
uwufs_utimens_lem_example =
    uwufs_utimens_lem 1 path_a 3 file_read mounted a-IsFound (at_second 5) (at_second 6)
      (omega arith) (omega arith) (omega arith)

create_regular_file-overwrites_example :
    ((create_regular_file 1 path_a 420 mounted).0 ≡ ok tt)
    × (r : Bytes) × ((read_inode 3 (create_regular_file 1 path_a 420 mounted).1).0 ≡ ok r)
    × ((i : ℕ) → i < 256 → r i ≡ set_file_atime mounted.stack 1000 i)
create_regular_file-overwrites_example =
    create_regular_file-overwrites 1 path_a [] name_a 3 420 file_read mounted a-IsFound
      (unfold get put poke in omega arith) (unfold split_path_parent_child in refl)
