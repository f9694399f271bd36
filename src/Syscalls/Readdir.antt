-- ===== src/Syscalls/Readdir.antt =====
-- uwufs_readdir and uwufs_link.
use uwufs.Base.{
  ℕ, zero, suc, ◌+◌, Bool, true, false, none, List, [], ◌∷◌, ◌++◌, ◌==◌, if◌then◌else◌,
}
use uwufs.Bytes.{Bytes}
use uwufs.Machine.{fail, enoent, eio, enotdir, Io, pure, raise, lift, handle, gets, ◌>>=◌, ◌>>◌}
use uwufs.Block.{load}
use uwufs.Itable.{read_inode}
use uwufs.Blockmap.{DataBlockIterator, dblk_itr, next}
use uwufs.Layout.{file_entries_per_blk, f_type_directory, file_type, file_size, entry_inode_num}
use uwufs.Directory.{entry_name, blks_of_size, to_int}
use uwufs.Links.{namei_or_enoent, or_fail, link_file}

unfoldable pub uwufs_link : (fuel : ℕ) → (old_path new_path : List ℕ) → Io (Unit {0})
uwufs_link fuel old_path new_path = link_file fuel old_path new_path false 1

-- libfuse's filler is a parameter: whether it reports a full buffer once it was given these names. The
-- names that it was given so far come along with whether the buffer is full.
module _ (is_full : List (List ℕ) → Bool) where
  -- __uwufs_helper_readdir_blk, with `left` entries to go.
  fill_from : (left i : ℕ) → Bytes → (given : List (List ℕ)) → Bool × List (List ℕ)
  fill_from zero i blk given = (false, given)
  fill_from (suc left) i blk given =
      let given' = given ++ (entry_name blk i ∷ []) in
      let skip = fill_from left (i + 1) blk given in
      let onward = fill_from left (i + 1) blk given' in
      if entry_inode_num blk i == 0 then skip else if is_full given' then (true, given') else onward

  -- The `for` over the data blocks, with `left` to go. The names that the filler was given.
  list_blks : (left : ℕ) → DataBlockIterator → (given : List (List ℕ)) → Io (List (List ℕ))
  unfolding fill_from
  list_blks zero itr given = pure given
  list_blks (suc left) itr given = do
    (blk_num, itr') ← gets (next itr)
    if blk_num == 0 then raise eio else pure tt
    blk ← handle (load blk_num) (λ r. lift (or_fail r (fail eio)))
    let (full, given') = fill_from file_entries_per_blk 0 blk given
    if full then pure given' else list_blks left itr' given'

  unfoldable pub uwufs_readdir : (fuel : ℕ) → List ℕ → Io (List (List ℕ))
  unfolding list_blks
  uwufs_readdir fuel path = do
    inode_num ← namei_or_enoent fuel path none
    inode ← handle (read_inode inode_num) (λ r. lift (or_fail r (fail enoent)))
    if file_type inode == f_type_directory then pure tt else raise enotdir
    list_blks (to_int (blks_of_size (file_size inode))) (dblk_itr inode 0) []
