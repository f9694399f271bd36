-- ===== src/File/Returns.antt =====
-- write_file and truncate_file return on any device: their loops end within the fuel.
use uwufs.Base.{ℕ, zero, suc, ◌+◌, ◌-◌, ◌%◌, min, ◌≤◌, ◌<◌, arith, ltb→lt, ◌==◌, if◌then◌else◌}
use uwufs.Bytes.{Bytes}
use uwufs.Machine.{pure, gets, ◌>>◌}
use uwufs.Block.Returns.{
  Returns, returning, handle-Returns, pure-Returns, if-Returns, bind-Returns, gets-Returns,
}
use uwufs.Freelist.Returns.{
  malloc_blk-Returns, free_blk-Returns, read_inode-Returns, write_inode-Returns,
}
use uwufs.Freelist.{free_blk}
use uwufs.Blockmap.{DataBlockIterator, get_dblk}
use uwufs.Blockmap.Returns.{append_dblk-Returns}
use uwufs.Blockmap.Remove.Returns.{remove_dblks-Returns}
use uwufs.File.Write.{append_blks, write_loop, write_file, free_blks, truncate_file}

append_blks-Returns : (left i : ℕ) (ino : Bytes) → Returns (append_blks left i ino)
unfolding append_blks
append_blks-Returns zero i ino = pure-Returns ino
append_blks-Returns (suc left) i ino =
    search (returning, malloc_blk-Returns, append_dblk-Returns, append_blks-Returns left) depth 12

write_loop-Returns :
    (fuel : ℕ) (itr : DataBlockIterator) (buf : Bytes) (size written : ℕ)
    → size ≤ written + fuel
    → Returns (write_loop fuel itr buf size written)
unfolding write_loop
write_loop-Returns zero itr buf size written h =
    if-Returns _ _ _ (λ e. absurd (omega (arith, ltb→lt written size e))) λ _. pure-Returns tt
write_loop-Returns (suc fuel) itr buf size written h =
    if-Returns _ _ _
      (λ e.
        let lt : written < size = ltb→lt written size e in
        let rest : (itr' : DataBlockIterator)
            → Returns (write_loop fuel itr' buf size (written + min (size - written) 4096)) =
          λ itr'. write_loop-Returns fuel itr' buf size _ (omega arith) in
        search (returning, rest) depth 12)
      λ _. pure-Returns tt

-- write_file returns, whatever the device, the inode and the arguments are.
pub write_file-Returns :
    (buf : Bytes) (size offset : ℕ) (ino : Bytes) (num : ℕ)
    → Returns (write_file buf size offset ino num)
unfolding write_file
write_file-Returns buf size offset ino num =
    let loop : (itr : DataBlockIterator)
        → Returns (write_loop size itr buf size (min size (4096 - offset % 4096))) =
      λ itr. write_loop-Returns size itr buf size _ (omega arith) in
    search (returning, handle-Returns, append_blks-Returns, write_inode-Returns, loop) depth 20 fits
      4000

free_blks-Returns : (index : ℕ) (ino : Bytes) → Returns (free_blks index ino)
unfolding free_blks
free_blks-Returns zero ino = pure-Returns tt
free_blks-Returns (suc index) ino =
    bind-Returns (gets (get_dblk ino index))
      (λ n. if n == 0 then pure tt else free_blk n >> free_blks index ino) (gets-Returns _)
      λ n.
        if-Returns _ _ _ (λ _. pure-Returns tt)
          λ _.
            bind-Returns (free_blk n) (λ _. free_blks index ino) (free_blk-Returns n)
              λ _. free_blks-Returns index ino

-- truncate_file returns on any device.
pub truncate_file-Returns : (num : ℕ) → Returns (truncate_file num)
unfolding truncate_file
truncate_file-Returns num =
    search
      (returning, read_inode-Returns, free_blks-Returns, remove_dblks-Returns, write_inode-Returns)
      depth 14
