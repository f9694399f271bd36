-- ===== src/Paths.antt =====
-- Paths: split_path_parent_child of src/uwufs/file_operations.c, and namei of low_level_operations.c
-- with the strtok_r that it uses. A path is the list of its characters.
pub mod Split
pub mod Namei
pub mod Resolve
pub mod Leads
use uwufs.Base.{
  ℕ, zero, suc, Bool, true, false, Option, none, some, List, [], ◌∷◌, ltb, ◌==◌, if◌then◌else◌,
  length,
}
use uwufs.Machine.{Res, ok, fail, enoent, enametoolong}
use uwufs.Layout.{file_name_size}

abbrev pub slash : ℕ
slash = b'/'

-- strrchr(path, '/'): what stands before and behind the last slash.
unfoldable pub split_last : List ℕ → Option (List ℕ × List ℕ)
split_last [] = none
split_last (c ∷ cs) = elim (split_last cs) [
  | some (parent, child) ↦ some (c ∷ parent, child)
  | none ↦ if c == slash then some ([], cs) else none
]

abbrev fitting : Option (List ℕ × List ℕ) → Res (List ℕ × List ℕ)
fitting none = fail enoent
fitting (some (parent, child)) =
    if ltb (length child) file_name_size then ok (parent, child) else fail enametoolong

-- The parent path and the name of the child.
unfoldable pub split_path_parent_child : List ℕ → Res (List ℕ × List ℕ)
unfolding split_last
split_path_parent_child path = fitting (split_last path)

-- The characters up to the next slash.
unfoldable pub token : List ℕ → List ℕ
token [] = []
token (c ∷ cs) = let rest = token cs in if c == slash then [] else c ∷ rest

-- The tokens that strtok_r returns one after the other: where a token may start, `at_start`, slashes
-- are skipped.
unfoldable pub segments_from : (at_start : Bool) → List ℕ → List (List ℕ)
unfolding token
segments_from at_start [] = []
segments_from at_start (c ∷ cs) =
    let behind_slash = segments_from true cs in
    let within = segments_from false cs in
    if c == slash then behind_slash else if at_start then token (c ∷ cs) ∷ within else within

unfoldable pub segments : List ℕ → List (List ℕ)
unfolding segments_from
segments = segments_from true
