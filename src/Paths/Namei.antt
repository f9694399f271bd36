-- ===== src/Paths/Namei.antt =====
-- namei of src/uwufs/low_level_operations.c. The arrays into which it copies the path and the text of a
-- symbolic link have no place for the NUL: the write of it behind the first, and the read behind the
-- second, are taken to do no harm.
use uwufs.Base.{ℕ, zero, suc, Option, none, some, List, [], ◌∷◌, ltb, ◌==◌, if◌then◌else◌, length}
use uwufs.Bytes.{Bytes, get}
use uwufs.Machine.{enoent, enametoolong, Io, pure, raise, stop, gets, ◌>>=◌}
use uwufs.Block.{peek}
use uwufs.Itable.{read_inode}
use uwufs.Layout.{
  block_size, file_name_size, root_dir_inode, f_type_regular, f_type_directory, file_type,
  direct_blk,
}
use uwufs.Directory.{c_str}
use uwufs.Directory.Lookup.{next_inode_in_path}
use uwufs.Paths.{segments}

-- The inode that a segment leads to, from a directory or, by `follow`, through a symbolic link.
unfoldable pub step_into : (follow : List ℕ → Io ℕ) → (segment : List ℕ) → Bytes → Io ℕ
step_into follow segment inode =
    if file_type inode == f_type_directory then next_inode_in_path segment inode else do
      symlink_path ← gets (λ d. c_str block_size (peek (direct_blk inode 0) d) 0)
      follow symlink_path

-- What happens once the segment led to the inode `num`. The status is 0 also for the number 0, and
-- then the caller's variable keeps what it held.
unfoldable pub continue_at : (ℕ → Bytes → Io ℕ) → ℕ → Io ℕ
continue_at rest num =
    if num == 0 then gets (λ d. get 8 d.stack 0) else (do inode ← read_inode num; rest num inode)

-- At a regular file: one segment behind it is ignored, more are an error.
unfoldable pub at_file : ℕ → (behind : List (List ℕ)) → Io ℕ
at_file num [] = pure num
at_file num (_ ∷ _) = raise enoent

-- The `while` over the segments.
unfoldable pub walk :
    (follow : List ℕ → Io ℕ) → (segments : List (List ℕ)) → (num : ℕ) → Bytes → Io ℕ
unfolding step_into continue_at at_file
walk follow [] num inode = pure num
walk follow (segment ∷ rest) num inode =
    let onward = walk follow rest in
    if ltb (length segment) file_name_size
    then (if file_type inode == f_type_regular
        then at_file num rest
        else (do num' ← step_into follow segment inode; continue_at onward num'))
    else raise enametoolong

-- The fuel counts the nested calls for symbolic links; the C function has no bound but its stack.
-- The optional inode is the root directory's.
unfoldable pub namei : (fuel : ℕ) → (path : List ℕ) → Option Bytes → Io ℕ
unfolding walk
namei zero path root = stop
namei (suc fuel) path (some root) =
    walk (λ link. namei fuel link (some root)) (segments path) root_dir_inode root
namei (suc fuel) path none = do
  root ← read_inode root_dir_inode
  walk (λ link. namei fuel link none) (segments path) root_dir_inode root
