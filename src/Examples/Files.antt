-- ===== src/Examples/Files.antt =====
-- The theorems on the blocks of files at small devices.
use uwufs.Base.{
  ℕ, zero, suc, ◌≢◌, ◌+◌, ◌*◌, ◌<◌, ◌≤◌, ◌≡◌, refl, true, false, none, [], ◌∷◌, ◌==◌, arith,
  if◌then◌else◌,
}
use uwufs.Bytes.{Bytes, zeros, get, put, poke, blit}
use uwufs.Machine.{Machine, ok}
use uwufs.Layout.{set_direct_blk, set_single_indirect_blks}
use uwufs.Freelist.Chain.{IsFreelist}
use uwufs.Blockmap.{append_dblk, get_dblk, next}
use uwufs.Blockmap.Silent.{append_dblk-silent}
use uwufs.Blockmap.Remove.{remove_dblk}
use uwufs.Blockmap.Remove.Single.{IsRemoved, remove_dblk_lem}
use uwufs.Blockmap.Remove.Undo.{remove_dblk-append_dblk}
use uwufs.Block.Returns.{Returns}
use uwufs.File.Read.{read_file}
use uwufs.File.Write.{write_file, truncate_file}
use uwufs.File.Read.Bounds.{IsWithin, read_file-IsWithin}
use uwufs.File.Returns.{write_file-Returns, truncate_file-Returns}
use uwufs.File.Read.Aligned.{IsMapped, IsCopied, read_file-IsCopied}
use uwufs.Directory.{c_bytes}
use uwufs.Directory.Remove.{remove_entry_from_dir_data_blk}
use uwufs.Directory.Remove.Moves.{IsMoved, remove_entry_from_dir_data_blk-IsMoved}
use uwufs.Examples.{disk, disk-IsFreelist}

-- An inode with the single indirect block 30.
abbrev grown_inode : Bytes
grown_inode = set_single_indirect_blks zeros 30

remove_dblk_lem_example : IsRemoved disk 6 64 grown_inode 12 (6 ∷ 7 ∷ 8 ∷ [])
remove_dblk_lem_example =
    remove_dblk_lem disk 6 64 grown_inode 12 (6 ∷ 7 ∷ 8 ∷ []) disk-IsFreelist
      (λ _. unfold get put poke in (omega arith, omega arith, refl)) (omega arith)

remove_dblk-append_dblk_example :
    let d' = (append_dblk grown_inode 12 40 disk).1 in
    (ino' : Bytes) × ((append_dblk grown_inode 12 40 disk).0 ≡ ok (40, ino'))
    × (ino'' : Bytes) × ((remove_dblk ino' 12 d').0 ≡ ok (40, ino''))
    × ((j : ℕ) → j < 12 → get_dblk ino'' j (remove_dblk ino' 12 d').1 ≡ get_dblk grown_inode j disk)
    × IsFreelist (remove_dblk ino' 12 d').1 6 64 (6 ∷ 7 ∷ 8 ∷ [])
remove_dblk-append_dblk_example =
    remove_dblk-append_dblk disk 6 64 6 7 grown_inode 12 40 (8 ∷ []) disk-IsFreelist
      (λ _. unfold get put poke in (omega arith, omega arith, refl)) (omega arith) (omega arith)

-- A device that refuses to read the block 30.
abbrev torn_disk : Machine
torn_disk = record disk { readable = λ k. if k == 30 then false else true }

append_dblk-silent_example :
    (12 < 134480394
      → (ino' : Bytes) × ((append_dblk grown_inode 12 40 torn_disk).0 ≡ ok (40, ino')))
    × (134480394 ≤ 12 → append_dblk grown_inode 12 40 torn_disk ≡ (ok (0, grown_inode), torn_disk))
append_dblk-silent_example = append_dblk-silent grown_inode 12 40 torn_disk

-- A file in the blocks 40 and 41, and a device where these hold bytes.
abbrev file_of_two : Bytes
file_of_two = set_direct_blk (set_direct_blk zeros 0 40) 1 41

abbrev full : Machine
full = record disk { block = λ k i. k + i }

one_of_two : (P : ℕ → Type 0) → P 0 → P 1 → (k : ℕ) → 4096 * k < 5000 → P k
one_of_two P a b zero h = a
one_of_two P a b (suc zero) h = b
one_of_two P a b (suc (suc k)) h = absurd (omega arith)

full-IsMapped : IsMapped file_of_two 0 5000 full
full-IsMapped = record {
  works = record { small = omega arith; reads = λ _. refl; writes = λ _. refl };
  indexed = λ k h. omega arith;
  used =
      one_of_two (λ k. get_dblk file_of_two (0 + k) full ≢ 0)
        (unfold get_dblk next get put poke in omega arith)
        (unfold get_dblk next get put poke in omega arith);
  inside =
      one_of_two (λ k. get_dblk file_of_two (0 + k) full < 64)
        (unfold get_dblk next get put poke in omega arith)
        (unfold get_dblk next get put poke in omega arith);
}

read_file-IsCopied_example :
    (buf' : Bytes) × (read_file zeros 5000 0 file_of_two full ≡ (ok (5000, buf'), full))
    × IsCopied file_of_two 0 0 5000 full zeros buf'
read_file-IsCopied_example = read_file-IsCopied zeros 5000 0 file_of_two full full-IsMapped

-- A directory with the entry `a` for the inode 3 at the place 1, and nothing behind it.
abbrev listing : Bytes
listing = put 8 (blit zeros 256 (c_bytes zeros (b'a' ∷ [])) 0 248) 504 3

remove_entry_from_dir_data_blk-IsMoved_example :
    IsMoved listing none 1
      (b'a' ∷ [])
      3
      (remove_entry_from_dir_data_blk listing none 1 (b'a' ∷ []) 3)
remove_entry_from_dir_data_blk-IsMoved_example =
    remove_entry_from_dir_data_blk-IsMoved listing none 1 (b'a' ∷ []) 3

read_file-IsWithin_example :
    IsWithin 5000 100 full zeros (read_file zeros 5000 100 file_of_two full).0
    × ((read_file zeros 5000 100 file_of_two full).1 ≡ full)
read_file-IsWithin_example = read_file-IsWithin zeros 5000 100 file_of_two full

write_file-Returns_example : Returns (write_file zeros 5000 100 file_of_two 3)
write_file-Returns_example = write_file-Returns zeros 5000 100 file_of_two 3

truncate_file-Returns_example : Returns (truncate_file 3)
truncate_file-Returns_example = truncate_file-Returns 3
