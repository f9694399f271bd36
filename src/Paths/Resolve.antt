-- ===== src/Paths/Resolve.antt =====
-- namei against a walk through directories.
use uwufs.Base.{
  ℕ, suc, ◌<◌, ◌≡◌, ◌≢◌, refl, sym, ap, ◌∙◌, arith, some, List, [], ◌∷◌, ◌++◌, length, lt→ltb,
  eq→==, ne→not_==,
}
use mathlib.Core.List.{append-nil}
use uwufs.Bytes.{Bytes}
use uwufs.Machine.{Machine, ok, fail, enoent, Io}
use uwufs.Itable.{read_inode}
use uwufs.Layout.{file_type, root_dir_inode}
use uwufs.Directory.Lookup.{next_inode_in_path}
use uwufs.Paths.{segments}
use uwufs.Paths.Namei.{walk, namei}

-- Each segment, of fewer than 248 characters, is found in the directory before it. The walk begins at the inode with the number
-- `num` and the content `ino`, and ends at `n` and `final`.
pub data Walks (d : Machine) (n : ℕ) (final : Bytes) : ℕ → Bytes → List (List ℕ) → Type 0 where
  here : Walks d n final n final []
  step :
      {num m : ℕ} {ino next : Bytes} {s : List ℕ} {ss : List (List ℕ)}
      → file_type ino ≡ 8192
      → length s < 248
      → next_inode_in_path s ino d ≡ (ok m, d)
      → m ≢ 0
      → read_inode m d ≡ (ok next, d)
      → Walks d n final m next ss
      → Walks d n final num ino (s ∷ ss)

module _ {d : Machine} (follow : List ℕ → Io ℕ) where
  walk-step :
      (num m : ℕ) (ino next : Bytes) (s : List ℕ) (rest : List (List ℕ))
      → file_type ino ≡ 8192
      → length s < 248
      → next_inode_in_path s ino d ≡ (ok m, d)
      → m ≢ 0
      → read_inode m d ≡ (ok next, d)
      → walk follow (s ∷ rest) num ino d ≡ walk follow rest m next d
  unfolding walk
  walk-step num m ino next s rest dir short found ne read = rw (
    lt→ltb (length s) 248 short,
    ne→not_== (file_type ino) 4096 (omega arith),
    eq→== (file_type ino) 8192 dir,
    found,
    ne→not_== m 0 ne,
    read,
  )

  pub walk-Walks :
      {n : ℕ} {final : Bytes} {num : ℕ} {ino : Bytes} {ss : List (List ℕ)} (rest : List (List ℕ))
      → Walks d n final num ino ss
      → walk follow (ss ++ rest) num ino d ≡ walk follow rest n final d
  walk-Walks rest here = refl
  walk-Walks rest (step {num} {m} {ino} {next} {s} {ss} dir short found ne read w) =
      walk-step num m ino next s (ss ++ rest) dir short found ne read ∙ walk-Walks rest w

abbrev linked : ℕ → Bytes → List ℕ → Io ℕ
linked fuel root = λ link. namei fuel link (some root)

namei-walk :
    (d : Machine) (fuel : ℕ) (path : List ℕ) (root : Bytes)
    → namei (suc fuel) path (some root) d
      ≡ walk (linked fuel root) (segments path) root_dir_inode root d
unfolding namei
namei-walk d fuel path root = refl

-- Where every segment of the path, none of 248 characters or more, is found in the directory before it,
-- beginning at the inode of the root directory that namei is given, namei returns the inode number at
-- the end of the walk and changes nothing.
pub namei-Walks :
    (d : Machine) (root final : Bytes) (fuel n : ℕ) (path : List ℕ)
    → Walks d n final root_dir_inode root (segments path)
    → namei (suc fuel) path (some root) d ≡ (ok n, d)
namei-Walks d root final fuel n path w =
    namei-walk d fuel path root
    ∙ ap (λ ss. walk (linked fuel root) ss root_dir_inode root d) (sym (append-nil (segments path)))
    ∙ walk-Walks (linked fuel root) [] w
    ∙ (unfold walk in refl)

-- Where namei is given the inode of the root directory, the walk from it along the first segments ends
-- in a directory, and that does not have the next segment, of fewer than 248 characters: namei fails
-- with ENOENT, whatever follows, and changes nothing.
pub namei-enoent :
    (d : Machine) (root final : Bytes) (fuel n : ℕ) (path s : List ℕ) (ss rest : List (List ℕ))
    → segments path ≡ ss ++ s ∷ rest
    → Walks d n final root_dir_inode root ss
    → file_type final ≡ 8192
    → length s < 248
    → next_inode_in_path s final d ≡ (fail enoent, d)
    → namei (suc fuel) path (some root) d ≡ (fail enoent, d)
namei-enoent d root final fuel n path s ss rest e w dir short missing =
    namei-walk d fuel path root
    ∙ ap (λ all. walk (linked fuel root) all root_dir_inode root d) e
    ∙ walk-Walks (linked fuel root) (s ∷ rest) w
    ∙ (unfold walk in
        rw (
          lt→ltb (length s) 248 short,
          ne→not_== (file_type final) 4096 (omega arith),
          eq→== (file_type final) 8192 dir,
          missing,
        ))

-- Where namei is given the inode of the root directory, the walk from it along all segments but the last
-- ends at a regular file, and the last has fewer than 248 characters: namei ignores that segment,
-- returns the file and changes nothing.
pub namei_below_file :
    (d : Machine) (root final : Bytes) (fuel n : ℕ) (path s : List ℕ) (ss : List (List ℕ))
    → segments path ≡ ss ++ s ∷ []
    → Walks d n final root_dir_inode root ss
    → file_type final ≡ 4096
    → length s < 248
    → namei (suc fuel) path (some root) d ≡ (ok n, d)
namei_below_file d root final fuel n path s ss e w file short =
    namei-walk d fuel path root
    ∙ ap (λ all. walk (linked fuel root) all root_dir_inode root d) e
    ∙ walk-Walks (linked fuel root) (s ∷ []) w
    ∙ (unfold walk in rw (lt→ltb (length s) 248 short, eq→== (file_type final) 4096 file))
