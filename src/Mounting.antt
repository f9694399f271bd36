-- ===== src/Mounting.antt =====
-- main of src/uwufs/mount_uwufs.c on Linux. What the system calls return is given: whether there is
-- something at a path and whether that is a directory, whether a path can be opened, and whether ioctl
-- tells the size of the device. fuse_main is a parameter too, with the arguments that it is given.
use uwufs.Base.{ℕ, Bool, true, Option, some, List, ◌∷◌, if◌then◌else◌}

module _ (stat_dir : List ℕ → Option Bool) (opened : List ℕ → Bool) (has_size : Bool)
    (fuse_main : List (List ℕ) → ℕ) where
  -- argv[1] = argv[0]; fuse_main(argc - 1, &argv[1], ...)
  mount : (program : List ℕ) → List (List ℕ) → ℕ
  mount program rest = fuse_main (program ∷ rest)

  serve : (program device : List ℕ) → List (List ℕ) → ℕ
  unfolding mount
  serve program device rest =
      if opened device then (if has_size then mount program rest else 1) else 1

  -- A mount point must be a directory.
  check_mountpoint : Option Bool → (status : ℕ) → ℕ
  check_mountpoint (some true) status = status
  check_mountpoint _ status = 1

  -- The exit status.
  unfoldable pub main : (argv : List (List ℕ)) → ℕ
  unfolding serve check_mountpoint
  main (program ∷ device ∷ mountpoint ∷ flags) =
      check_mountpoint (stat_dir mountpoint) (serve program device (mountpoint ∷ flags))
  main _ = 1
