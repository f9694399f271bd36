-- ===== src/Syscalls/Files/History.antt =====
-- Any sequence of uwufs_read, uwufs_write and uwufs_open on one device.
use uwufs.Base.{
  ℕ, suc, ◌+◌, ◌-◌, ◌*◌, ◌≤◌, ◌<◌, ◌≡◌, ◌≢◌, ◌⊎◌, inl, inr, refl, sym, ap, subst, ◌∙◌, false, List,
  [], ◌∷◌, has, arith, bit_and, Bool-cases, ◌==◌, eq→==, ==→eq, not_==→ne,
}
use uwufs.Bytes.{Bytes}
use uwufs.Machine.{Machine}
use uwufs.Layout.{file_type}
use uwufs.Layout.Super.{free_blks_left}
use uwufs.Directory.{blks_of_size}
use uwufs.Itable.Table.{inode_in}
use uwufs.Paths.{segments}
use uwufs.Paths.Leads.{Leads, Leads-untouched, type-same}
use uwufs.File.Read.Bounds.{read_file-IsWithin}
use uwufs.File.System.{blks_of, IsSystem}
use uwufs.File.System.Update.{IsUntouched}
use uwufs.File.System.History.{IsUntouched-refl, IsUntouched-trans}
use uwufs.File.System.Requests.{IsServed, ino, read-ok, write_file-IsServed, truncate_file-IsServed}
use uwufs.Syscalls.Files.{uwufs_open, uwufs_read, uwufs_write}
use uwufs.Syscalls.Files.Stored.{namei_or_enoent-Leads, regular-read, write-run}

-- A call of a handler with a path that led to the regular file `n` at the start.
pub data Call (InUse : ℕ → Type 0) (start : Machine) : ℕ → Machine → Machine → Type 0 where
  read :
      (n fuel : ℕ) (path : List ℕ) (buf : Bytes) (size offset : ℕ) (d : Machine)
      → InUse n
      → Leads InUse start n 2 (segments path)
      → file_type (inode_in start n) ≡ 4096
      → Call InUse start n d (uwufs_read (suc fuel) path buf size offset d).1
  write :
      (n fuel : ℕ) (path : List ℕ) (buf : Bytes) (size offset : ℕ) (d : Machine)
      → InUse n
      → Leads InUse start n 2 (segments path)
      → file_type (inode_in start n) ≡ 4096
      → 0 < size
      → offset + size ≤ 4096 * 134480394
      → 4 * (blks_of_size (offset + size) - blks_of d n) ≤ free_blks_left (d.block 0)
      → Call InUse start n d (uwufs_write (suc fuel) path buf size offset d).1
  open_it :
      (n fuel : ℕ) (path : List ℕ) (flags : ℕ) (d : Machine)
      → InUse n
      → Leads InUse start n 2 (segments path)
      → file_type (inode_in start n) ≡ 4096
      → Call InUse start n d (uwufs_open (suc fuel) path flags d).1

-- Calls on the files with the inode numbers of a list, the last one first.
pub data Session (InUse : ℕ → Type 0) (start : Machine) : List ℕ → Machine → Type 0 where
  opened : Session InUse start [] start
  called :
      {nums : List ℕ} {n : ℕ} {t u : Machine}
      → Session InUse start nums t
      → Call InUse start n t u
      → Session InUse start (n ∷ nums) u

-- The device after some calls.
pub record IsSound (lo hi : ℕ) (InUse : ℕ → Type 0) (start : Machine) (nums : List ℕ) (d : Machine)
    : Type 0 where
  pub rest : List ℕ
  pub system : IsSystem lo hi rest InUse d
  pub types : (n : ℕ) → InUse n → file_type (inode_in d n) ≡ file_type (inode_in start n)
  pub paths : (n : ℕ) (ss : List (List ℕ)) → Leads InUse start n 2 ss → Leads InUse d n 2 ss
  pub untouched : (n : ℕ) → InUse n → has n nums ≡ false → IsUntouched start d n

-- What one call leaves.
record IsAnswered (lo hi : ℕ) (InUse : ℕ → Type 0) (n : ℕ) (d d' : Machine) : Type 0 where
  pub served : IsServed lo hi InUse n d d'
  pub type_kept : file_type (inode_in d' n) ≡ file_type (inode_in d n)

module _ (lo hi : ℕ) (InUse : ℕ → Type 0) (start : Machine) (root : InUse 2) where
  this-or-other : (n m : ℕ) → (n ≡ m) ⊎ (m ≢ n)
  this-or-other n m = elim (Bool-cases (n == m)) [
    | inl e ↦ inl (==→eq n m e)
    | inr e ↦ inr (λ h. not_==→ne n m e (sym h))
  ]

  module _ (n : ℕ) (used : InUse n) (regular : file_type (inode_in start n) ≡ 4096) (nums : List ℕ)
      (d : Machine) (s : IsSound lo hi InUse start nums d) where
    regular-now : file_type (inode_in d n) ≡ 4096
    regular-now = s.types n used ∙ regular

    IsAnswered-same : IsAnswered lo hi InUse n d d
    IsAnswered-same = record {
      served = record {
        rest = s.rest;
        system = s.system;
        untouched = λ m _ _. IsUntouched-refl d m;
      };
      type_kept = refl;
    }

    -- No directory is the file of the call.
    IsSound-next :
        (d' : Machine) → IsAnswered lo hi InUse n d d' → IsSound lo hi InUse start (n ∷ nums) d'
    IsSound-next d' a = record {
      rest = a.served.rest;
      system = a.served.system;
      types = λ m used_m. elim (this-or-other n m) [
        | inl e ↦
            subst (λ k. file_type (inode_in d' k) ≡ file_type (inode_in start k)) e
              (a.type_kept ∙ s.types n used)
        | inr ne ↦
            type-same (inode_in d m) (inode_in d' m) (a.served.untouched m used_m ne).inode
            ∙ s.types m used_m
      ];
      paths = λ m ss l.
          Leads-untouched InUse d d'
            (λ k used_k dir.
              a.served.untouched k used_k (λ e.
                absurd (omega (arith, dir, regular-now, ap (λ j. file_type (inode_in d j)) e))))
            (s.paths m ss l);
      untouched = λ m used_m out.
          IsUntouched-trans (s.untouched m used_m (ground arith))
            (a.served.untouched m used_m (λ e. ground arith));
    }

    module _ (fuel : ℕ) (path : List ℕ) (l : Leads InUse start n 2 (segments path)) where
      abbrev now : Leads InUse d n 2 (segments path)
      now = s.paths n (segments path) l

      open-IsAnswered :
          (flags : ℕ) → IsAnswered lo hi InUse n d (uwufs_open (suc fuel) path flags d).1
      unfolding uwufs_open
      open-IsAnswered flags =
          let (d', run, served, _, same) =
            truncate_file-IsServed lo hi s.rest InUse n d s.system used in
          rw (namei_or_enoent-Leads lo hi InUse n used root fuel path s.rest d s.system now)
            (elim (Bool-cases (bit_and flags 512 == 0)) [
              | inl e ↦ rw e IsAnswered-same
              | inr e ↦ rw (e, run) (record { served = served; type_kept = same })
            ])

      read-IsAnswered :
          (buf : Bytes) (size offset : ℕ)
          → IsAnswered lo hi InUse n d (uwufs_read (suc fuel) path buf size offset d).1
      unfolding uwufs_read
      read-IsAnswered buf size offset =
          let inode = ino lo hi s.rest InUse n d s.system used in
          rw
            (
              namei_or_enoent-Leads lo hi InUse n used root fuel path s.rest d s.system now,
              read-ok lo hi s.rest InUse n d s.system used,
              eq→== _ 4096 (
                  regular-read lo hi InUse n used root fuel path s.rest d s.system now regular-now),
            )
            (subst (IsAnswered lo hi InUse n d) (sym (read_file-IsWithin buf size offset inode d).1)
              IsAnswered-same)

      write-IsAnswered :
          (buf : Bytes) (size offset : ℕ)
          → 0 < size
          → offset + size ≤ 4096 * 134480394
          → 4 * (blks_of_size (offset + size) - blks_of d n) ≤ free_blks_left (d.block 0)
          → IsAnswered lo hi InUse n d (uwufs_write (suc fuel) path buf size offset d).1
      write-IsAnswered buf size offset some_bytes fits room =
          let (d', _, run, served, stored) =
            write_file-IsServed lo hi s.rest InUse n d s.system used buf size offset some_bytes fits
              room in
          rw
            (write-run lo hi InUse n used root fuel path s.rest d s.system now regular-now buf size
              offset d' run)
            (record { served = served; type_kept = stored.mode })

  Call-IsSound :
      (n : ℕ) (nums : List ℕ) {d d' : Machine}
      → IsSound lo hi InUse start nums d
      → Call InUse start n d d'
      → IsSound lo hi InUse start (n ∷ nums) d'
  Call-IsSound _ nums s (read n fuel path buf size offset d used l regular) =
      IsSound-next n used regular nums d s _
        (read-IsAnswered n used regular nums d s fuel path l buf size offset)
  Call-IsSound _ nums s (write n fuel path buf size offset d used l regular some_bytes fits room) =
      IsSound-next n used regular nums d s _
        (write-IsAnswered n used regular nums d s fuel path l buf size offset some_bytes fits room)
  Call-IsSound _ nums s (open_it n fuel path flags d used l regular) =
      IsSound-next n used regular nums d s _
        (open-IsAnswered n used regular nums d s fuel path l flags)

-- From a device where all files in use own their blocks, the root directory among them, whatever
-- uwufs_read, uwufs_write and uwufs_open are called with, O_TRUNC included, as long as each path led to
-- a regular file in use at the start and each write is of some bytes, ends within what a block map has
-- and finds four free blocks for each block that its file is to grow by: at the end all files in use
-- own their blocks, all have the types that they had, every path leads to where it led, and the
-- files of which none of the paths was have the inodes, the sizes and the bytes that they had.
pub Session-IsSound :
    (lo hi : ℕ) (xs : List ℕ) (InUse : ℕ → Type 0) (start : Machine) (nums : List ℕ) (d : Machine)
    → IsSystem lo hi xs InUse start
    → InUse 2
    → Session InUse start nums d
    → IsSound lo hi InUse start nums d
Session-IsSound lo hi xs InUse start _ _ s root opened = record {
  rest = xs;
  system = s;
  types = λ n used. refl;
  paths = λ n ss l. l;
  untouched = λ n used out. IsUntouched-refl start n;
}
Session-IsSound lo hi xs InUse start _ _ s root (called {nums} {n} {t} before call) =
    Call-IsSound lo hi InUse start root n nums
      (Session-IsSound lo hi xs InUse start nums t s root before) call
