-- ===== src/Freelist/Relist.antt =====
-- The fields of a superblock after malloc_blk or free_blk.
use uwufs.Base.{ℕ, ◌+◌, ◌≤◌, ◌<◌, ◌^◌, ◌≡◌, ◌∙◌, arith}
use uwufs.Bytes.{Bytes, get}
use uwufs.Layout.Super.{freelist_head, free_blks_left, set_freelist_head}
use uwufs.Layout.Laws.{word-put_self, word-put_ne}
use uwufs.Freelist.{relisted}

module _ (sb : Bytes) (head left : ℕ) where
  pub head-relisted : head < 2 ^ 64 → freelist_head (relisted sb head left) ≡ head
  head-relisted h =
      word-put_ne (set_freelist_head sb head) 40 56 left (omega arith) ∙ word-put_self sb 40 head h

  pub left-relisted : left < 2 ^ 64 → free_blks_left (relisted sb head left) ≡ left
  left-relisted h = word-put_self (set_freelist_head sb head) 56 left h

  pub field-relisted : (i : ℕ) → i + 8 ≤ 40 → get 8 (relisted sb head left) i ≡ get 8 sb i
  field-relisted i h =
      word-put_ne (set_freelist_head sb head) i 56 left (omega arith)
      ∙ word-put_ne sb i 40 head (omega arith)
