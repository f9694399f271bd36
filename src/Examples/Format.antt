-- ===== src/Examples/Format.antt =====
-- The theorems on mkfs at a small device.
use uwufs.Base.{ℕ, ◌≡◌, ◌≤◌, ◌<◌, ◌⊎◌, arith}
use uwufs.Machine.{Machine, ok, crash, ◌>>=◌}
use uwufs.Freelist.Chain.{IsFreelist}
use uwufs.Mkfs.{init_freelist, init_superblock, init_uwufs}
use uwufs.Mkfs.Formatted.{IsEmptySystem, init_uwufs-IsEmptySystem}
use uwufs.Mkfs.Freelist.{blks_from, IsLaidOut, init_freelist-Outcome}
use uwufs.Mkfs.Super.{init_superblock-IsFreelist}
use uwufs.Examples.{disk, disk-Works}

abbrev few : ℕ
few = 7

init_freelist-Outcome_example :
    (((few ≡ 1) ⊎ (10 ≤ few))
      × ((d' : Machine) × (init_freelist 64 57 few disk ≡ (ok 57, d')) × IsLaidOut disk 57 few d'))
    ⊎ ((2 ≤ few) × (few < 10) × (init_freelist 64 57 few disk ≡ (crash, disk)))
init_freelist-Outcome_example =
    init_freelist-Outcome disk 64 57 few disk-Works (omega arith) (omega arith) (omega arith)

init_superblock-IsFreelist_example :
    (d' : Machine) × ((init_freelist 64 6 58 >>= init_superblock 64 2 4 6 58) disk ≡ (ok tt, d'))
    × IsFreelist d' 6 64 (blks_from 58 6)
init_superblock-IsFreelist_example =
    init_superblock-IsFreelist disk 64 2 4 6 58 disk-Works (omega arith) (omega arith) (omega arith)
      (omega arith)

init_uwufs-IsEmptySystem_example :
    (d' : Machine) × (init_uwufs 64 1 8 disk ≡ (ok tt, d')) × IsEmptySystem 8 54 d'
init_uwufs-IsEmptySystem_example =
    init_uwufs-IsEmptySystem disk 8 54 disk-Works (omega arith) (omega arith) (omega arith)
