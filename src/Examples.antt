-- ===== src/Examples.antt =====
-- The theorems at a small device: 64 blocks, four of them for inodes, with the blocks 6, 7 and 8 free.
pub mod Names
pub mod Format
pub mod Files
pub mod Calls
pub mod History
pub mod Trees
pub mod Shrunk
pub mod Shared
pub mod Requests
pub mod Mailbox
use uwufs.Base.{
  ltb, none, ℕ, ◌*◌, ◌<◌, ◌≡◌, ◌≢◌, refl, true, false, Option, some, [], ◌∷◌, has, arith, ◌==◌,
  if◌then◌else◌,
}
use uwufs.Bytes.{Bytes, zeros, get, put, poke}
use uwufs.Machine.{Machine, ok, fail, enospc, eperm, Works}
use uwufs.Layout.{set_next_free_blk, set_file_mode}
use uwufs.Layout.Super.{
  set_ilist_start, set_ilist_total_size, set_freelist_start, set_freelist_total_size,
  set_freelist_head, set_free_blks_left, ilist_total_size,
}
use uwufs.Block.{load, read_blk, write_blk}
use uwufs.Freelist.{malloc_blk, free_blk}
use uwufs.Freelist.Chain.{IsFreelist}
use uwufs.Freelist.Stack.{malloc_blk_lem, malloc_blk-enospc, free_blk_lem, malloc_blk-free_blk}
use uwufs.Freelist.Failure.{malloc_blk-fail}
use uwufs.Itable.{read_inode, write_inode, find_free_inode}
use uwufs.Itable.Table.{inode_in, read_inode-write_inode}
use uwufs.Itable.Search.{IsFirst, is_free_inode, found, find_free_inode_lem}

-- A superblock with this head of the free list and this counter.
abbrev pub super : (head left : ℕ) → Bytes
super head left =
    set_ilist_start
      (set_ilist_total_size
        (set_freelist_start
          (set_freelist_total_size (set_freelist_head (set_free_blks_left zeros left) head) 58) 6)
        4)
      2

abbrev pub disk_with : Bytes → Machine
disk_with sb = record {
  size = 64;
  block = λ k.
      if k == 0
      then sb
      else if k == 6
      then set_next_free_blk zeros 7
      else if k == 7
      then set_next_free_blk zeros 8
      else zeros;
  readable = λ _. true;
  writable = λ _. true;
  stack = zeros;
  beyond = λ distance _. if ltb distance 8192 then some zeros else none;
  clock = some 1000;
  uid = 0;
  gid = 0;
}

abbrev pub disk : Machine
disk = disk_with (super 6 2)

pub disk-Works : Works disk
disk-Works = record { small = omega arith; reads = λ _. refl; writes = λ _. refl }

pub disk-IsFreelist : IsFreelist disk 6 64 (6 ∷ 7 ∷ 8 ∷ [])
unfolding get put poke
disk-IsFreelist = record {
  region = record {
    works = disk-Works;
    behind_super = omega arith;
    ordered = omega arith;
    within = omega arith;
    start = refl;
    extent = refl;
  };
  chain = (
    refl,
    omega arith,
    omega arith,
    refl,
    (refl, omega arith, omega arith, refl, (refl, omega arith, omega arith, refl, refl)),
  );
  count = refl;
}

malloc_blk_lem_example :
    ((malloc_blk disk).0 ≡ ok 6)
    × IsFreelist (malloc_blk disk).1 6 64 (7 ∷ 8 ∷ [])
    × (has 6 (7 ∷ 8 ∷ []) ≡ false)
    × ((k : ℕ) → k ≢ 0 → (malloc_blk disk).1.block k ≡ disk.block k)
malloc_blk_lem_example = malloc_blk_lem disk 6 64 6 7 (8 ∷ []) disk-IsFreelist

-- Only the buffer block is left.
abbrev full_disk : Machine
full_disk = disk_with (super 8 0)

full_disk-IsFreelist : IsFreelist full_disk 6 64 (8 ∷ [])
unfolding get put poke
full_disk-IsFreelist = record {
  region = record {
    works = record { small = omega arith; reads = λ _. refl; writes = λ _. refl };
    behind_super = omega arith;
    ordered = omega arith;
    within = omega arith;
    start = refl;
    extent = refl;
  };
  chain = (refl, omega arith, omega arith, refl, refl);
  count = refl;
}

malloc_blk-enospc_example : malloc_blk full_disk ≡ (fail enospc, full_disk)
malloc_blk-enospc_example = malloc_blk-enospc full_disk 6 64 8 full_disk-IsFreelist

free_blk_lem_example :
    ((free_blk 20 disk).0 ≡ ok tt)
    × IsFreelist (free_blk 20 disk).1 6 64 (20 ∷ 6 ∷ 7 ∷ 8 ∷ [])
    × ((k : ℕ) → k ≢ 0 → k ≢ 20 → (free_blk 20 disk).1.block k ≡ disk.block k)
free_blk_lem_example =
    free_blk_lem disk 6 64 20 (6 ∷ 7 ∷ 8 ∷ []) disk-IsFreelist (omega arith) (omega arith) refl

malloc_blk-free_blk_example :
    ((malloc_blk (free_blk 20 disk).1).0 ≡ ok 20)
    × IsFreelist (malloc_blk (free_blk 20 disk).1).1 6 64 (6 ∷ 7 ∷ 8 ∷ [])
malloc_blk-free_blk_example =
    malloc_blk-free_blk disk 6 64 20 6 (7 ∷ 8 ∷ []) disk-IsFreelist (omega arith) (omega arith) refl

-- A device that refuses to write its superblock.
abbrev stuck_disk : Machine
stuck_disk = record disk { writable = λ k. if k == 0 then false else true }

stuck_disk-fails : (malloc_blk stuck_disk).0 ≡ fail eperm
unfolding malloc_blk load read_blk write_blk get put poke
stuck_disk-fails = refl

malloc_blk-fail_example : (malloc_blk stuck_disk).1 ≡ stuck_disk
malloc_blk-fail_example = malloc_blk-fail stuck_disk eperm stuck_disk-fails

abbrev file_inode : Bytes
file_inode = set_file_mode zeros 4096

read_inode-write_inode_example :
    ((write_inode file_inode 256 3 disk).0 ≡ ok tt)
    × ((r : Bytes) × ((read_inode 5 (write_inode file_inode 256 3 disk).1).0 ≡ ok r)
        × ((i : ℕ) → i < 256 → r i ≡ (if 3 == 5 then file_inode i else inode_in disk 5 i)))
read_inode-write_inode_example =
    read_inode-write_inode disk file_inode 3 5 disk-Works (omega arith) (omega arith)

find_free_inode_lem_example :
    (r : Option ℕ) × (find_free_inode disk ≡ (found r, disk))
    × IsFirst (is_free_inode disk) 0 (ilist_total_size (disk.block 0) * 16) r
find_free_inode_lem_example =
    find_free_inode_lem disk disk-Works (unfold get put poke in refl)
      (unfold get put poke in omega arith)
