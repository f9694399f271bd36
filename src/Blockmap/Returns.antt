-- ===== src/Blockmap/Returns.antt =====
-- append_dblk and remove_dblks return on any device: three levels are enough.
use uwufs.Base.{ℕ, zero, suc, ◌≢◌, refl}
use uwufs.Bytes.{Bytes}
use uwufs.Machine.{Res, ok, fail, crash}
use uwufs.Block.Returns.{Returns, returning, handle-Returns, ok-Returns}
use uwufs.Freelist.Returns.{malloc_blk-Returns}
use uwufs.Blockmap.{or_zero, status_or_zero, indirect_blk_for, recursive_append_dblk, append_dblk}

status_or_zero-Returns : (r : Res ℕ) → r ≢ crash → Returns (status_or_zero r)
unfolding status_or_zero
status_or_zero-Returns (ok a) h = record { returns = λ d. ok-Returns }
status_or_zero-Returns (fail e) h = record { returns = λ d. ok-Returns }
status_or_zero-Returns crash h = absurd (h refl)

indirect_blk_for-Returns : (cur_no index : ℕ) → Returns (indirect_blk_for cur_no index)
unfolding indirect_blk_for
indirect_blk_for-Returns cur_no index = search (returning, malloc_blk-Returns) depth 12

pub recursive_append_dblk-Returns :
    (level cur_no index block_no : ℕ) → Returns (recursive_append_dblk level cur_no index block_no)
unfolding recursive_append_dblk or_zero
recursive_append_dblk-Returns zero cur_no index block_no =
    search (returning, handle-Returns, status_or_zero-Returns, indirect_blk_for-Returns) depth 12
recursive_append_dblk-Returns (suc level) cur_no index block_no =
    search
      (
        returning,
        handle-Returns,
        status_or_zero-Returns,
        indirect_blk_for-Returns,
        recursive_append_dblk-Returns level,
      )
      depth 12

pub append_dblk-Returns : (ino : Bytes) (index n : ℕ) → Returns (append_dblk ino index n)
unfolding append_dblk
append_dblk-Returns ino index n = search (returning, recursive_append_dblk-Returns) depth 14
