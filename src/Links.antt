-- ===== src/Links.antt =====
-- link_file and unlink_file of src/uwufs/file_operations.c. A change of the link count is a number of
-- 16 bits, so a change of -1 is 65535.
pub mod Unlink
use uwufs.Base.{
  ℕ, ◌+◌, Bool, true, false, not, ◌&&◌, Option, none, some, List, ltb, leb, ◌==◌, if◌then◌else◌,
  bit_and,
}
use uwufs.Bytes.{Bytes}
use uwufs.Machine.{
  Machine, Res, ok, fail, crash, enospc, enoent, eexist, eisdir, Io, pure, raise, stop, lift,
  handle, gets, ◌>>=◌, ◌>>◌,
}
use uwufs.Block.{load}
use uwufs.Itable.{read_inode, write_inode}
use uwufs.Layout.{inode_size, file_type, f_type_directory, file_links_count, set_file_links_count}
use uwufs.Layout.Super.{free_blks_left}
use uwufs.Directory.{c_bytes}
use uwufs.Directory.Add.{add_directory_file_entry}
use uwufs.Paths.{split_path_parent_child}
use uwufs.Paths.Namei.{namei}

-- file_mode & F_TYPE_BITS & F_TYPE_DIRECTORY
abbrev pub has_dir_bit : Bytes → Bool
has_dir_bit inode = not (bit_and (file_type inode) f_type_directory == 0)

-- `status < 0` replaced by another error.
abbrev pub or_fail : {A : Type 0} → Res A → Res A → Res A
or_fail (ok a) e = ok a
or_fail (fail x) e = e
or_fail crash e = crash

-- namei where any failure counts as ENOENT.
unfoldable pub namei_or_enoent : (fuel : ℕ) → List ℕ → Option Bytes → Io ℕ
namei_or_enoent fuel path root = handle (namei fuel path root) λ r. lift (or_fail r (fail enoent))

-- What the look-up of the new path says: the path must not exist.
only_absent : Res ℕ → Io (Unit {0}) → Io (Unit {0})
only_absent (ok _) make = raise eexist
only_absent (fail enoent) make = make
only_absent (fail e) make = raise e
only_absent crash make = stop

-- The entry in the parent directory, and the count of the old inode.
make_link :
    (fuel : ℕ) (parent_path child : List ℕ) (old_inode : Bytes) (old_inode_num : ℕ)
    → (force_dir_link : Bool) (nlinks_change : ℕ) → Io (Unit {0})
make_link fuel parent child old_inode old_num force change = do
  parent_num ← namei_or_enoent fuel parent none
  buf ← gets (λ d. d.stack)
  add_directory_file_entry parent_num (c_bytes buf child) old_num
      (if has_dir_bit old_inode then change else 0)
  let counted = set_file_links_count old_inode (file_links_count old_inode + change)
  write_inode (if force then old_inode else counted) inode_size old_num

unfoldable pub link_file :
    (fuel : ℕ) (old_path new_path : List ℕ) (force_dir_link : Bool) (nlinks_change : ℕ)
    → Io (Unit {0})
unfolding only_absent make_link
link_file fuel old_path new_path force change = do
  super ← load 0
  if leb (free_blks_left super) 5 then raise enospc else pure tt
  old_num ← namei fuel old_path none
  old_inode ← read_inode old_num
  if not force && has_dir_bit old_inode then raise eisdir else pure tt
  (parent, child) ← lift (split_path_parent_child new_path)
  handle (namei fuel new_path none)
      λ r. only_absent r (make_link fuel parent child old_inode old_num force change)
