-- ===== src/File/Read.antt =====
-- read_file of src/uwufs/file_operations.c.
pub mod Aligned
pub mod Bounds
use uwufs.Base.{ℕ, zero, suc, ◌+◌, ◌-◌, ◌*◌, ◌/◌, ◌%◌, min, ◌&&◌, ltb, ◌==◌, if◌then◌else◌}
use uwufs.Bytes.{Bytes, blit}
use uwufs.Machine.{Io, pure, stop, gets, read_beyond, ◌>>=◌}
use uwufs.Block.{load}
use uwufs.Blockmap.{DataBlockIterator, dblk_itr, next}
use uwufs.Layout.{block_size}

-- What one round copies: the buffer and the bytes read so far after it. The first copy of an
-- unaligned read starts `offset_bytes` whole blocks behind the start of the local block, as the C
-- expression `&data_blk + offset_bytes` does: that memory is not the block's, and the access may end
-- the process.
unfoldable pub copy_round :
    (size offset_bytes : ℕ) (data_blk buf : Bytes) (cur_bytes_read : ℕ) → Io (Bytes × ℕ)
copy_round size off blk buf cur =
    let remaining = size - cur in
    let first = min remaining (block_size - off) in
    if ltb 0 off && (cur == 0)
    then (do
      behind ← read_beyond (off * block_size) first
      pure (blit buf 0 behind 0 first, cur + first))
    else if ltb block_size remaining
    then pure (blit buf cur blk 0 block_size, cur + block_size)
    else pure (blit buf cur blk 0 remaining, cur + remaining)

-- The `while`. Every round reads at least one byte, so `size` rounds are enough.
unfoldable pub read_loop :
    (fuel size offset_bytes : ℕ) → DataBlockIterator → Bytes → (cur_bytes_read : ℕ) → Io (ℕ × Bytes)
unfolding copy_round
read_loop zero size off itr buf cur = if ltb cur size then stop else pure (cur, buf)
read_loop (suc fuel) size off itr buf cur =
    if ltb cur size
    then (do
      (blk_num, itr') ← gets (next itr)
      if blk_num == 0 then pure (cur, buf) else (do
        blk ← load blk_num
        (buf', cur') ← copy_round size off blk buf cur
        read_loop fuel size off itr' buf' cur'))
    else pure (cur, buf)

-- Returns the number of bytes read, and the buffer.
unfoldable pub read_file : (buf : Bytes) (size offset : ℕ) (inode : Bytes) → Io (ℕ × Bytes)
unfolding read_loop
read_file buf size offset inode =
    read_loop size size (offset % block_size) (dblk_itr inode (offset / block_size)) buf 0
