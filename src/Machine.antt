-- ===== src/Machine.antt =====
-- What the program runs on: the block device behind its file descriptor, memory that a function
-- finds on its stack before it writes there, the clock and the caller's ids. The C functions that
-- return a status are actions on it: `fail e` is the status -e, `ok a` is a status of 0 or more with
-- the output variables `a`, `crash` is the end of the process (exit, a failed assert, a division by
-- zero, a stack overflow). What was written before a failure stays written.
use uwufs.Base.{ℕ, ◌≤◌, ◌^◌, ◌≡◌, Bool, true, Option, ◌==◌, if◌then◌else◌}
use uwufs.Bytes.{Bytes}

-- errno.h, with the names in lower case. A status of -1 is -EPERM. A status of -n that is none of
-- these is `other n`.
pub data Errno : Type 0 where
  eperm enoent eio eexist enotdir eisdir einval enospc enametoolong enosys enotempty edquot : Errno
  other : ℕ → Errno

pub data Res (A : Type 0) : Type 0 where
  ok : A → Res A
  fail : Errno → Res A
  crash : Res A

pub record Machine : Type 0 where
  -- the device: its size in blocks, their content, and which of them can be read and written
  pub size : ℕ
  pub block : ℕ → Bytes
  pub readable : ℕ → Bool
  pub writable : ℕ → Bool
  -- uninitialised local memory; all such variables share it
  pub stack : Bytes
  -- so many bytes at a distance behind the start of a local block, or `none` if the process is ended for the access
  pub beyond : (distance count : ℕ) → Option Bytes
  -- time(NULL), where `none` is the error -1
  pub clock : Option ℕ
  -- fuse_get_context()
  pub uid : ℕ
  pub gid : ℕ

abbrev pub Io : Type 0 → Type 0
Io A = Machine → Res A × Machine

abbrev pub continue : {A B : Type 0} → Res A → (A → Io B) → Io B
continue (ok a) f d = f a d
continue (fail e) f d = (fail e, d)
continue crash f d = (crash, d)

-- Call, return the status if it is negative (RETURN_IF_ERROR), and go on.
infixl 5 ◌>>=◌ ◌>>◌
abbrev pub ◌>>=◌ : {A B : Type 0} → Io A → (A → Io B) → Io B
◌>>=◌ m f d = continue (m d).0 f (m d).1

abbrev pub ◌>>◌ : {B : Type 0} → Io (Unit {0}) → Io B → Io B
m >> k = m >>= λ _. k

abbrev pub pure : {A : Type 0} → A → Io A
pure a d = (ok a, d)

abbrev pub raise : {A : Type 0} → Errno → Io A
raise e d = (fail e, d)

abbrev pub stop : {A : Type 0} → Io A
stop d = (crash, d)

abbrev pub lift : {A : Type 0} → Res A → Io A
lift r d = (r, d)

-- Call, and go on with the status, whatever it is.
abbrev pub handle : {A B : Type 0} → Io A → (Res A → Io B) → Io B
handle m f d = f (m d).0 (m d).1

-- Memory behind a local block.
abbrev pub accessed : Option Bytes → Io Bytes
accessed (Option.some b) d = (ok b, d)
accessed Option.none d = (crash, d)

abbrev pub read_beyond : (distance count : ℕ) → Io Bytes
read_beyond distance count d = accessed (d.beyond distance count) d

-- A part of the machine.
abbrev pub gets : {A : Type 0} → (Machine → A) → Io A
gets f d = (ok (f d), d)

-- unix_time, with 0 in place of an error
abbrev pub unix_time : Machine → ℕ
unix_time d = elim d.clock [ Option.none ↦ 0 | Option.some t ↦ t ]

-- The device with another content of one block.
abbrev pub update : (ℕ → Bytes) → ℕ → Bytes → ℕ → Bytes
update f n b k = if n == k then b else f k

unfoldable pub put_block : Machine → ℕ → Bytes → Machine
put_block d n b = record d { block = update d.block n b }

-- A device on which every block can be read and written, small enough for its byte offsets to be
-- offsets of the kernel, which are signed numbers of 64 bits.
pub record Works (d : Machine) : Type 0 where
  pub small : d.size ≤ 2 ^ 50
  pub reads : (k : ℕ) → d.readable k ≡ true
  pub writes : (k : ℕ) → d.writable k ≡ true
