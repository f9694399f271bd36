-- ===== src/Examples/Requests.antt =====
-- The theorems on reads, writes and truncations, on the device with two files.
use uwufs.Base.{
  ℕ, ◌+◌, ◌-◌, ◌*◌, ◌%◌, ◌≤◌, ◌≡◌, inl, inr, refl, ap, false, List, [], ◌∷◌, has, arith,
}
use uwufs.Bytes.{Bytes, zeros, get, put, poke, blit}
use uwufs.Machine.{Machine, Res, ok, put_block}
use uwufs.Layout.{file_type}
use uwufs.Layout.Super.{free_blks_left}
use uwufs.Directory.{blks_of_size}
use uwufs.Itable.{read_inode}
use uwufs.Itable.Table.{inode_in}
use uwufs.Blockmap.{blk_no_at, get_dblk}
use uwufs.File.Write.{write_file, truncate_file}
use uwufs.File.System.{blks_of, IsSystem}
use uwufs.File.System.Update.{IsUntouched}
use uwufs.File.System.Requests.{IsServed, IsStoredAt, ino, read-ok, write_file-IsServed}
use uwufs.File.System.History.{write, truncate, Reach, here, next, Reach-IsSystem}
use uwufs.Directory.{c_str, same_text}
use uwufs.Directory.Lookup.{search_entries}
use uwufs.Directory.Contents.{find_in}
use uwufs.Paths.{segments}
use uwufs.Paths.Leads.{Leads, there, through}
use uwufs.Syscalls.Files.{uwufs_write, uwufs_open, uwufs_read}
use uwufs.Syscalls.Files.History.{
  Call, Session, read, open_it, opened, called, IsSound, Session-IsSound,
}
use uwufs.Examples.Trees.{five}
use uwufs.Examples.Shared.{shared, InUse, shared-IsFreelist, size-short, shared-IsSystem}

abbrev text : Bytes
text = λ i. i % 251

-- 300 bytes that begin at the end of the first block of the second file and need a second one.
grows : 4 * (blks_of_size (4000 + 300) - blks_of shared 6) ≤ free_blks_left (shared.block 0)
grows = rw size-short (omega (arith, shared-IsFreelist.count))

grows_whole :
    4 * (blks_of_size (4096 * 0 + 5000) - blks_of shared 6) ≤ free_blks_left (shared.block 0)
grows_whole = rw size-short (omega (arith, shared-IsFreelist.count))

abbrev small_inode : Bytes
small_inode = ino 6 64 five InUse 6 shared shared-IsSystem (inr (inr refl))

write_file-IsServed_example :
    (d' : Machine) × (read_inode 6 shared ≡ (ok small_inode, shared))
    × (write_file text 300 4000 small_inode 6 shared ≡ (ok 300, d'))
    × IsServed 6 64 InUse 6 shared d'
    × IsStoredAt text 300 4000 6 shared d'
write_file-IsServed_example =
    write_file-IsServed 6 64 five InUse 6 shared shared-IsSystem (inr (inr refl)) text 300 4000
      (omega arith) (omega arith) grows

abbrev final : Machine
final = (truncate_file 6 (write_file text 300 4000 small_inode 6 shared).1).1

-- The second file is written to and truncated.
final-Reach : Reach InUse shared (6 ∷ 6 ∷ []) final
final-Reach =
    next
      (next here (
        write 6 text 300 4000 small_inode shared (inr (inr refl)) (omega arith) (omega arith) grows
          (ap (λ (p : Res Bytes × Machine). p.0)
            (read-ok 6 64 five InUse 6 shared shared-IsSystem (inr (inr refl))))))
      (truncate 6 (write_file text 300 4000 small_inode 6 shared).1 (inr (inr refl)))

Reach-IsSystem_example :
    (rest : List ℕ) × IsSystem 6 64 rest InUse final
    × ((n : ℕ) → InUse n → has n (6 ∷ 6 ∷ []) ≡ false → IsUntouched shared final n)
Reach-IsSystem_example =
    Reach-IsSystem 6 64 five InUse shared (6 ∷ 6 ∷ []) final shared-IsSystem final-Reach

abbrev path : List ℕ
path = b'/' ∷ b'a' ∷ []

path-Leads : Leads InUse shared 6 2 (segments path)
unfolding get put poke blit put_block get_dblk blk_no_at find_in search_entries c_str same_text
    segments
path-Leads = through (inl refl) refl (omega arith) refl (omega arith) (inr (inr refl)) there

regular-short : file_type (inode_in shared 6) ≡ 4096
unfolding get put poke blit put_block
regular-short = refl

-- The path is written to, opened with O_TRUNC, and read.
abbrev written : Machine
written = (uwufs_write 1 path text 5000 0 shared).1

abbrev emptied : Machine
emptied = (uwufs_open 1 path 512 written).1

abbrev at_end : Machine
at_end = (uwufs_read 1 path zeros 100 7 emptied).1

three_calls : Session InUse shared (6 ∷ 6 ∷ 6 ∷ []) at_end
three_calls =
    called
      (called
        (called opened (
          Call.write 6 0 path text 5000 0 shared (inr (inr refl)) path-Leads regular-short
            (omega arith) (omega arith) grows_whole))
        (open_it 6 0 path 512 written (inr (inr refl)) path-Leads regular-short))
      (read 6 0 path zeros 100 7 emptied (inr (inr refl)) path-Leads regular-short)

Session-IsSound_example : IsSound 6 64 InUse shared (6 ∷ 6 ∷ 6 ∷ []) at_end
Session-IsSound_example =
    Session-IsSound 6 64 five InUse shared (6 ∷ 6 ∷ 6 ∷ []) at_end shared-IsSystem (inl refl)
      three_calls
