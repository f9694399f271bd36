-- ===== src/Block.antt =====
-- read_blk and write_blk of src/uwufs/low_level_operations.c. The device is a block device of Linux:
-- lseek refuses an offset behind its end, a read at its end returns 0 bytes, a write there fails, and
-- any other transfer of a whole block moves all of it or fails with the status -1.
pub mod Access
pub mod Failure
pub mod Returns
use uwufs.Base.{ℕ, ◌*◌, ◌/◌, ◌%◌, ◌^◌, ◌||◌, Option, none, some, ltb, leb, ◌==◌, if◌then◌else◌}
use uwufs.Bytes.{Bytes}
use uwufs.Machine.{Machine, ok, fail, eperm, Io, put_block}

-- lseek(fd, blk_num * UWUFS_BLOCK_SIZE, SEEK_SET): the block at which the file offset then stands.
-- The product is one of uint64_t, and read as a signed number.
unfoldable pub seek : ℕ → Machine → Option ℕ
seek blk_num d =
    let offset = blk_num * 4096 % 2 ^ 64 in
    if leb (2 ^ 63) offset || ltb (d.size * 4096) offset then none else some (offset / 4096)

-- The buffer as it was comes first; the result is the buffer after the read.
read_at : Option ℕ → Bytes → Io Bytes
read_at none buf d = (fail eperm, d)
read_at (some k) buf d =
    if k == d.size
    then (ok buf, d)
    else if d.readable k
    then (ok (d.block k), d)
    else (fail eperm, d)

unfoldable pub read_blk : Bytes → ℕ → Io Bytes
unfolding read_at seek
read_blk buf blk_num d = read_at (seek blk_num d) buf d

write_at : Option ℕ → Bytes → Io (Unit {0})
write_at none buf d = (fail eperm, d)
write_at (some k) buf d =
    if k == d.size
    then (fail eperm, d)
    else if d.writable k
    then (ok tt, put_block d k buf)
    else (fail eperm, d)

unfoldable pub write_blk : Bytes → ℕ → Io (Unit {0})
unfolding write_at seek
write_blk buf blk_num d = write_at (seek blk_num d) buf d

-- A local struct that is read from a block: before the read its memory is whatever the stack holds.
unfoldable pub load : ℕ → Io Bytes
load blk_num d = read_blk d.stack blk_num d

-- The struct after a read whose status is ignored.
unfoldable pub peek : ℕ → Machine → Bytes
peek blk_num d = elim (load blk_num d).0 [ ok b ↦ b | _ ↦ d.stack ]
