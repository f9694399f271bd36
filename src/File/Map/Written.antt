-- ===== src/File/Map/Written.antt =====
-- write_file as an update of the contents of a file.
use uwufs.Base.{
  has, false, true, ◌≢◌, Bool, ne→not_==, ℕ, ◌+◌, ◌-◌, ◌*◌, ◌/◌, ◌%◌, ◌^◌, ◌≤◌, ◌<◌, ◌≡◌, ◌⊎◌, inl,
  inr, refl, sym, ap, subst, ◌∙◌, List, length, arith, ltb, ltb→lt, not_ltb→le, Bool-cases,
  if◌then◌else◌,
}
use uwufs.Bytes.{Bytes}
use uwufs.Bytes.Fields.{put-outside}
use uwufs.Machine.{Machine, put_block, Res, ok, fail, crash}
use uwufs.Layout.{file_size, set_file_size, set_inode_at}
use uwufs.Layout.Laws.{word-put_self}
use uwufs.Directory.{blks_of_size}
use uwufs.Itable.Table.{inode_in, write_inode-ok, inode_in-same, inode_in-write}
use uwufs.Freelist.Chain.{IsFreelist}
use uwufs.File.Write.{append_blks, write_file, stamped, stored_time}
use uwufs.File.Read.Aligned.{file_byte}
use uwufs.File.Map.{IsFile, IsFileBlk}
use uwufs.File.Map.Contract.{IsWritable, IsWritten}
use uwufs.File.Map.Keep.{IsFileBlk-IsTaken}
use uwufs.Block.Access.{block-put_block_ne}
use uwufs.File.Map.Append.{IsLonger, append_blks-IsLonger}
use uwufs.File.Map.Store.{IsStored}
use uwufs.File.Map.Body.{RunsTo, body-IsStored}
use uwufs.File.Map.Table.{
  IsFreelist-tabled, IsFile-tabled, IsFileBlk-tabled, Chain-before, file_byte-tabled,
}
use uwufs.File.Map.Inode.{
  IsSameMap, get_dblk-same, IsFile-same, IsFileBlk-same, stamped-IsSameMap, file_size-stamped,
  set_file_size-IsSameMap,
}

module _ (buf : Bytes) (size offset : ℕ) (ino : Bytes) (num : ℕ) (d : Machine) (lo hi : ℕ)
    (xs : List ℕ) (f : IsFreelist d lo hi xs)
    (file : IsFile lo hi xs d ino (blks_of_size (file_size ino))) (some_bytes : 0 < size)
    (fits : offset + size ≤ 4096 * 134480394) (had_fit : file_size ino ≤ 4096 * 134480394)
    (room : 4 * (blks_of_size (offset + size) - blks_of_size (file_size ino)) + 1 ≤ length xs)
    (in_table : 2 + num / 16 < lo) where
  abbrev cur : ℕ
  cur = file_size ino

  abbrev had : ℕ
  had = blks_of_size cur

  abbrev new : ℕ
  new = (offset + size) % 2 ^ 64

  abbrev left : ℕ
  left = blks_of_size new - had

  new-eq : new ≡ offset + size
  new-eq = omega arith

  most : had + left ≤ 134480394
  most = omega (arith, new-eq)

  longer : IsLonger lo hi xs d ino had left
  longer = append_blks-IsLonger left d lo hi ino had xs f file (rw new-eq room) most

  enough : offset + size ≤ 4096 * (had + left)
  enough = omega (arith, new-eq)

  abbrev RunsHere : Machine → Type 0
  RunsHere =
      RunsTo lo hi longer.rest longer.ino' (had + left) offset size buf most longer.device
        longer.freelist longer.file some_bytes enough

  body :
      (d' : Machine) × IsStored lo hi longer.rest longer.ino'
        (had + left)
        offset
        buf
        0
        size
        longer.device
        d'
      × RunsHere d'
  body =
      body-IsStored lo hi longer.rest longer.ino' (had + left) offset size buf most longer.device
        longer.freelist longer.file some_bytes enough

  abbrev sized_ino : Bytes
  sized_ino = if ltb cur new then set_file_size longer.ino' new else longer.ino'

  abbrev final : Bytes
  final = stamped sized_ino (stored_time body.0)

  abbrev stored :
      IsStored lo hi longer.rest longer.ino' (had + left) offset buf 0 size longer.device body.0
  stored = body.1

  stored-IsFreelist : IsFreelist body.0 lo hi longer.rest
  stored-IsFreelist = stored.freelist

  final-IsSameMap : IsSameMap longer.ino' final
  final-IsSameMap k lt = elim (Bool-cases (ltb cur new)) [
    | inl e ↦ rw e (stamped-IsSameMap _ _ k lt ∙ set_file_size-IsSameMap longer.ino' new k lt)
    | inr e ↦ rw e (stamped-IsSameMap _ _ k lt)
  ]

  mode : (i : ℕ) → 104 ≤ i → i < 106 → final i ≡ ino i
  mode i ge lt =
      put-outside 8 _ 140 _ i (inl (omega arith))
      ∙ put-outside 8 _ 132 _ i (inl (omega arith))
      ∙ put-outside 8 sized_ino 124 _ i (inl (omega arith))
      ∙ elim (Bool-cases (ltb cur new)) [
        | inl e ↦
            rw e (put-outside 8 longer.ino' 106 new i (inl (omega arith)) ∙ longer.attributes i ge)
        | inr e ↦ rw e (longer.attributes i ge)
      ]

  inode_blk : Bytes
  inode_blk = set_inode_at (body.0.block (2 + num / 16)) (num % 16) final 256

  abbrev end : Machine
  end = put_block body.0 (2 + num / 16) inode_blk

  run : write_file buf size offset ino num d ≡ (ok size, end)
  unfolding write_file inode_blk
  run = rw (longer.run) (
      body.2 _
      ∙ rw
          (write_inode-ok num stored-IsFreelist.works
            (omega (arith, stored-IsFreelist.ordered, stored-IsFreelist.within)) final 256)
          refl)

  -- A file that does not grow keeps its inode.
  ino-kept : left ≡ 0 → longer.ino' ≡ ino
  unfolding append_blks
  ino-kept e = ap returned (sym longer.run ∙ ap (λ n. append_blks n had ino d) e)
    where
      returned : Res Bytes × Machine → Bytes
      returned (ok i, _) = i
      returned (fail _, _) = ino
      returned (crash, _) = ino

  sized_new : file_size final ≡ (if ltb cur new then new else cur)
  sized_new = file_size-stamped sized_ino _ ∙ elim (Bool-cases (ltb cur new)) [
    | inl e ↦ rw e (word-put_self longer.ino' 106 new (omega arith))
    | inr e ↦ rw e (ap (λ i. file_size i) (ino-kept (omega (arith, not_ltb→le cur new e))))
  ]

  sized : file_size final ≡ (if ltb cur (offset + size) then offset + size else cur)
  sized = subst (λ n. file_size final ≡ (if ltb cur n then n else cur)) new-eq sized_new

  count-eq : had + left ≡ blks_of_size (file_size final)
  count-eq = rw sized (elim (Bool-cases (ltb cur (offset + size))) [
    | inl e ↦ rw e (omega (arith, new-eq, ltb→lt cur (offset + size) e))
    | inr e ↦ rw e (omega (arith, new-eq, not_ltb→le cur (offset + size) e))
  ])

  -- The bytes of the file at the end are those after the writes to its blocks.
  file_byte-end :
      (p : ℕ) → p < 4096 * (had + left) → file_byte final p end ≡ file_byte longer.ino' p body.0
  file_byte-end p lt =
      ap (λ n. end.block n (p % 4096))
        (get_dblk-same longer.ino' final final-IsSameMap (p / 4096) end)
      ∙ file_byte-tabled lo hi longer.rest body.0 longer.ino' (had + left) (2 + num / 16) inode_blk
          stored-IsFreelist stored.file most (omega arith) in_table p lt

  kept :
      (p : ℕ)
      → p < 4096 * had
      → (p < offset) ⊎ (offset + size ≤ p)
      → file_byte final p end ≡ file_byte ino p d
  kept p lt out =
      file_byte-end p (omega arith)
      ∙ stored.kept p (omega arith) (ground arith)
      ∙ ap (λ n. longer.device.block n (p % 4096)) (longer.old (p / 4096) (omega arith))
      ∙ ap (λ (b : Bytes). b (p % 4096)) (longer.content (p / 4096) (omega arith))

  gap :
      (p : ℕ)
      → 4096 * had ≤ p
      → p < 4096 * (had + left)
      → (p < offset) ⊎ (offset + size ≤ p)
      → file_byte final p end ≡ 0
  gap p ge lt out =
      file_byte-end p lt
      ∙ stored.kept p lt (ground arith)
      ∙ ap (λ (b : Bytes). b (p % 4096)) (longer.zeroed (p / 4096) (omega arith) (omega arith))

  own :
      (k : ℕ)
      → IsFileBlk end final (blks_of_size (file_size final)) k
      → IsFileBlk d ino had k ⊎ (has k xs ≡ true)
  own k b = longer.own k (
      stored.same_blks k (
        IsFileBlk-tabled lo hi longer.rest body.0 longer.ino' (had + left) (2 + num / 16) inode_blk
          stored-IsFreelist stored.file most (omega arith) in_table k
          (IsFileBlk-same longer.ino' final final-IsSameMap end (had + left) k
            (subst (λ n. IsFileBlk end final n k) (sym count-eq) b))))

  -- Blocks before the writes to the inode table.
  block-body :
      (k : ℕ) → k ≢ 0 → has k xs ≡ false → ¬ IsFileBlk d ino had k → (body.0).block k ≡ d.block k
  block-body k pos out not_own =
      stored.frame k
        (λ b. elim (longer.own k b) [ inl old ↦ not_own old | inr free ↦ absurd (ground arith) ])
      ∙ longer.frame k pos out not_own

  others : (n i : ℕ) → n ≢ num → 2 + n / 16 < lo → i < 256 → inode_in end n i ≡ inode_in d n i
  unfolding inode_blk
  others n i ne lt small =
      inode_in-write body.0 num n i final small
      ∙ ap (λ (c : Bool). if c then final i else inode_in body.0 n i)
          (ne→not_== num n (λ e. ne (sym e)))
      ∙ ap (λ (b : Bytes). b (256 * (n % 16) + i))
          (block-body (2 + n / 16) (omega arith)
            (Chain-before d.block lo hi (2 + n / 16) xs _ f.chain lt)
            (λ b. absurd (omega (arith, lt, (IsFileBlk-IsTaken file (2 + n / 16) b).0))))

  is_written : IsWritten lo hi xs buf size offset ino num d
  unfolding inode_blk
  is_written = record {
    ino' = final;
    device = end;
    rest = longer.rest;
    run = run;
    freelist =
        IsFreelist-tabled lo hi longer.rest body.0 longer.ino' (had + left) (2 + num / 16) inode_blk
          stored-IsFreelist stored.file most (omega arith) in_table;
    sized = sized;
    file = subst (IsFile lo hi longer.rest end final) count-eq (
        IsFile-same longer.ino' final final-IsSameMap (
          IsFile-tabled lo hi longer.rest body.0 longer.ino' (had + left) (2 + num / 16) inode_blk
            stored-IsFreelist stored.file most (omega arith) in_table));
    table = λ i lt. inode_in-same body.0 num 256 num i final lt refl;
    stored = λ p ge lt.
        file_byte-end p (omega (arith, enough))
        ∙ stored.stored p (omega (arith, enough)) (omega arith) lt;
    kept = kept;
    gap = λ p ge lt. gap p ge (rw count-eq lt);
    own = own;
    fewer = longer.fewer;
    frame = λ k ge out not_own.
        block-put_block_ne body.0 (2 + num / 16) k _ (omega arith)
        ∙ block-body k (omega (arith, f.behind_super)) out not_own;
    mode = mode;
    others = others;
  }

-- On a device that works, where all blocks of a file are its own and its inode is in the inode table,
-- and where four free blocks are there for each block that the file is to grow by and one more:
-- write_file of some bytes, which neither before nor after reaches behind the last block that a block
-- map has, succeeds and returns their number. The file then has them from the offset on, keeps all
-- others of the blocks that it had, and has zeroes for the rest of its new blocks; its size is the end
-- of what was written if that is larger than the size it had; the inode of the number is the new one;
-- all its blocks are its own and none is on the free list; its mode is the one it had. The new ones were on it; no other block of
-- the data region that the file did not have is written, and no other inode.
pub write_file-IsWritten :
    (buf : Bytes) (size offset : ℕ) (ino : Bytes) (num : ℕ) (d : Machine) (lo hi : ℕ) (xs : List ℕ)
    → IsWritable lo hi xs size offset ino num d
    → IsWritten lo hi xs buf size offset ino num d
write_file-IsWritten buf size offset ino num d lo hi xs can =
    is_written buf size offset ino num d lo hi xs can.freelist can.file can.some_bytes can.fits
      can.had_fit can.room can.in_table
