-- ===== src/Syscalls/Attributes/Changes.antt =====
-- What uwufs_chown and uwufs_utimens change.
use uwufs.Base.{
  ℕ, ◌^◌, ◌≤◌, ◌<◌, ◌≡◌, ◌≢◌, ◌⊎◌, inl, inr, refl, ◌∙◌, none, List, arith, ◌==◌, Bool-cases, eq→==,
  ne→not_==,
}
use uwufs.Bytes.{Bytes}
use uwufs.Bytes.Fields.{get-cong, get-put_ne, get-put_self, put-outside}
use uwufs.Machine.{Machine, ok, Works, unix_time}
use uwufs.Itable.{read_inode, write_inode}
use uwufs.Itable.Table.{IsInodeNum, read_inode-write_inode}
use uwufs.Layout.{file_uid, set_file_uid, file_gid, set_file_gid, file_atime, file_mtime}
use uwufs.Links.{namei_or_enoent}
use uwufs.Paths.Namei.{namei}
use uwufs.Syscalls.Attributes.{
  Timespec, utime_now, utime_omit, set_time, uwufs_chown, uwufs_utimens,
}

-- The path leads to the inode `old` with the number `num`.
pub record IsFound (fuel : ℕ) (path : List ℕ) (num : ℕ) (old : Bytes) (d : Machine) : Type 0 where
  pub works : Works d
  pub on_device : IsInodeNum d num
  pub resolves : namei fuel path none d ≡ (ok num, d)
  pub reads : read_inode num d ≡ (ok old, d)

module _ (fuel : ℕ) (path : List ℕ) (num : ℕ) (old : Bytes) (d : Machine)
    (f : IsFound fuel path num old d) where
  -- After a write of the inode `new` it is read back.
  pub written :
      (new : Bytes)
      → ((write_inode new 256 num d).0 ≡ ok tt)
        × ((r : Bytes) × ((read_inode num (write_inode new 256 num d).1).0 ≡ ok r)
            × ((i : ℕ) → i < 256 → r i ≡ new i))
  written new =
      let (done, (r, back, bytes)) =
        read_inode-write_inode d new num num f.works f.on_device f.on_device in
      (done, (r, back, λ i h. bytes i h ∙ rw (eq→== num num refl) refl))

  chown-run :
      (uid gid : ℕ)
      → uwufs_chown fuel path uid gid d
        ≡ write_inode (set_file_gid (set_file_uid old uid) gid) 256 num d
  unfolding uwufs_chown namei_or_enoent
  chown-run uid gid =
      rw (f.resolves, f.reads, (written (set_file_gid (set_file_uid old uid) gid)).0) refl

  utimens-run :
      (tv0 tv1 : Timespec)
      → uwufs_utimens fuel path tv0 tv1 d
        ≡ write_inode (set_time (set_time old tv0 (unix_time d)) tv1 (unix_time d)) 256 num d
  unfolding uwufs_utimens
  utimens-run tv0 tv1 = rw (f.resolves, f.reads) refl

  -- uwufs_chown of a path that leads to an inode succeeds: the inode that is then read has the ids
  -- that were given, and all other bytes are what they were.
  pub uwufs_chown_lem :
      (uid gid : ℕ)
      → uid < 2 ^ 32
      → gid < 2 ^ 32
      → ((uwufs_chown fuel path uid gid d).0 ≡ ok tt)
        × (r : Bytes) × ((read_inode num (uwufs_chown fuel path uid gid d).1).0 ≡ ok r)
        × (file_uid r ≡ uid)
        × (file_gid r ≡ gid)
        × ((i : ℕ) → i < 256 → (i < 116) ⊎ (124 ≤ i) → r i ≡ old i)
  uwufs_chown_lem uid gid hu hg =
      let new = set_file_gid (set_file_uid old uid) gid in
      let (done, (r, back, bytes)) = written new in
      rw (chown-run uid gid) (
        done,
        r,
        back,
        get-cong 4 r new 116 (λ i _ lt. bytes i (omega arith))
            ∙ get-put_ne 4 4 (set_file_uid old uid) 116 120 gid (inl (omega arith))
            ∙ get-put_self 4 old 116 uid (omega arith),
        get-cong 4 r new 120 (λ i _ lt. bytes i (omega arith))
            ∙ get-put_self 4 (set_file_uid old uid) 120 gid (omega arith),
        λ i lt out.
            bytes i lt
            ∙ put-outside 4 (set_file_uid old uid) 120 gid i (ground arith)
            ∙ put-outside 4 old 116 uid i (ground arith),
      )

  mtime-set_time :
      (b : Bytes) (tv : Timespec) (now : ℕ) → file_mtime (set_time b tv now) ≡ file_mtime b
  mtime-set_time b tv now = elim (Bool-cases (tv.tv_nsec == utime_now)) [
    | inl e ↦ rw e (get-put_ne 8 8 b 132 124 now (inr (omega arith)))
    | inr e ↦ elim (Bool-cases (tv.tv_nsec == utime_omit)) [
      | inl o ↦ rw (e, o) refl
      | inr o ↦ rw (e, o) (get-put_ne 8 8 b 132 124 tv.tv_sec (inr (omega arith)))
    ]
  ]

  -- uwufs_utimens of a path that leads to an inode, with a modification time, succeeds: the inode
  -- that is then read has that as its access time, whatever access time was given, and the
  -- modification time that it had before.
  pub uwufs_utimens_lem :
      (tv0 tv1 : Timespec)
      → tv1.tv_nsec ≢ utime_now
      → tv1.tv_nsec ≢ utime_omit
      → tv1.tv_sec < 2 ^ 64
      → ((uwufs_utimens fuel path tv0 tv1 d).0 ≡ ok tt)
        × (r : Bytes) × ((read_inode num (uwufs_utimens fuel path tv0 tv1 d).1).0 ≡ ok r)
        × (file_atime r ≡ tv1.tv_sec)
        × (file_mtime r ≡ file_mtime old)
  uwufs_utimens_lem tv0 tv1 given given' small =
      let now = unix_time d in
      let first = set_time old tv0 now in
      let new = set_time first tv1 now in
      let (done, (r, back, bytes)) = written new in
      rw (utimens-run tv0 tv1) (
        done,
        r,
        back,
        get-cong 8 r new 124 (λ i _ lt. bytes i (omega arith))
            ∙ rw (ne→not_== tv1.tv_nsec utime_now given, ne→not_== tv1.tv_nsec utime_omit given')
                (get-put_self 8 first 124 tv1.tv_sec (omega arith)),
        get-cong 8 r new 132 (λ i _ lt. bytes i (omega arith))
            ∙ mtime-set_time first tv1 now
            ∙ mtime-set_time old tv0 now,
      )
