-- ===== src/Examples/History.antt =====
-- A client of the allocator at the small device: it allocates twice and frees the first block.
use mathlib.Core.List.{Perm, Nodup}
use mathlib.Core.List.Perm
use uwufs.Base.{ℕ, List, [], ◌∷◌, ◌++◌, ◌≡◌}
use uwufs.Machine.{Machine, ok}
use uwufs.Freelist.{malloc_blk, free_blk}
use uwufs.Freelist.Chain.{IsFreelist}
use uwufs.Freelist.Stack.{malloc_blk_lem}
use uwufs.Freelist.History.{State, allocate, release, Reach, here, next, Reach-free_or_held}
use uwufs.Examples.{disk, disk-IsFreelist}

abbrev once : Machine
once = (malloc_blk disk).1

abbrev twice : Machine
twice = (malloc_blk once).1

abbrev final : State
final = record { device = (free_blk 6 twice).1; held = 7 ∷ [] }

first : (malloc_blk disk).0 ≡ ok 6
first = (malloc_blk_lem disk 6 64 6 7 (8 ∷ []) disk-IsFreelist).0

second : (malloc_blk once).0 ≡ ok 7
second =
    (malloc_blk_lem once 6 64 7 8 [] (malloc_blk_lem disk 6 64 6 7 (8 ∷ []) disk-IsFreelist).1).0

final-Reach : Reach (record { device = disk; held = [] }) final
final-Reach =
    next (next (next here (allocate disk [] 6 first)) (allocate once (6 ∷ []) 7 second))
      (release twice (7 ∷ 6 ∷ []) (7 ∷ []) 6 (Perm.swap 6 7 []))

Reach-free_or_held_example :
    (free : List ℕ) × IsFreelist final.device 6 64 free
    × Perm (free ++ final.held) (6 ∷ 7 ∷ 8 ∷ [])
    × Nodup (free ++ final.held)
Reach-free_or_held_example =
    Reach-free_or_held disk 6 64 (6 ∷ 7 ∷ 8 ∷ []) final disk-IsFreelist final-Reach
