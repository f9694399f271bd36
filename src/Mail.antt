-- ===== src/Mail.antt =====
-- src/phase1/spam-mail.c: a file system in memory that mails what is written to its files. A C string
-- is the list of its characters. The characters of the first file and the address of the mail are what
-- main reads and prints, and memory does not run out.
pub mod Search
pub mod Session
use uwufs.Base.{
  ℕ, zero, suc, ◌+◌, ◌-◌, ◌%◌, ◌/◌, ◌^◌, Bool, true, false, Option, none, some, List, [], ◌∷◌, ◌++◌,
  ltb, leb, ◌==◌, if◌then◌else◌, length, take, drop,
}
use uwufs.Machine.{Res, ok, fail, crash, enoent, enospc}
use uwufs.Directory.{same_text, to_int}
use uwufs.Syscalls.Attributes.{Stat}

abbrev pub max_files : ℕ
max_files = 10

-- What an element of file_contents points to: a text, which free may be called on if strdup made it.
pub record Contents : Type 0 where
  pub text : List ℕ
  pub allocated : Bool

pub record FakeFilesystem : Type 0 where
  pub file_names : ℕ → List ℕ
  pub file_contents : ℕ → Contents
  pub no_files : ℕ

abbrev pub update {ℓ} : {A : Type ℓ} → (ℕ → A) → ℕ → A → ℕ → A
update f i a = λ j. if i == j then a else f j

-- The `for` of search_file, with `left` files to go.
unfoldable pub search_from : (left i : ℕ) → List ℕ → FakeFilesystem → Option ℕ
search_from zero i path fs = none
search_from (suc left) i path fs =
    let rest = search_from left (i + 1) path fs in
    if same_text path (fs.file_names i) then some i else rest

unfoldable pub search_file : List ℕ → FakeFilesystem → Option ℕ
unfolding search_from
search_file path fs = search_from fs.no_files 0 path fs

abbrev root_path : List ℕ
root_path = b'/' ∷ []

-- The attributes that a file has, with the ids of the process and the time.
abbrev file_stat : (uid gid now : ℕ) → Contents → Stat
file_stat uid gid now contents = record {
  st_mode = 33188;
  st_ino = 0;
  st_size = length contents.text;
  st_blksize = 0;
  st_blocks = (length contents.text + 4095) / 4096;
  st_nlink = 1;
  st_uid = uid;
  st_gid = gid;
  st_ctime = now;
  st_mtime = now;
  st_atime = now;
}

abbrev dir_stat : Stat
dir_stat = record {
  st_mode = 16877;
  st_ino = 0;
  st_size = 0;
  st_blksize = 0;
  st_blocks = 0;
  st_nlink = 2;
  st_uid = 0;
  st_gid = 0;
  st_ctime = 0;
  st_mtime = 0;
  st_atime = 0;
}

unfoldable pub spam_mail_getattr : (uid gid now : ℕ) → List ℕ → FakeFilesystem → Res Stat
spam_mail_getattr uid gid now path fs =
    if same_text path root_path then ok dir_stat else elim (search_file path fs) [
      | some i ↦ ok (file_stat uid gid now (fs.file_contents i))
      | none ↦ fail enoent
    ]

-- The text behind the first character.
abbrev behind : List ℕ → List ℕ
behind [] = []
behind (c ∷ cs) = cs

names_from : (left i : ℕ) → FakeFilesystem → List (List ℕ)
names_from zero i fs = []
names_from (suc left) i fs = behind (fs.file_names i) ∷ names_from left (i + 1) fs

-- The names that the filler is given.
unfoldable pub spam_mail_readdir : List ℕ → FakeFilesystem → Res (List (List ℕ))
unfolding names_from
spam_mail_readdir path fs =
    if same_text path root_path
    then ok ((b'.' ∷ []) ∷ (b'.' ∷ b'.' ∷ []) ∷ names_from fs.no_files 0 fs)
    else fail enoent

unfoldable pub spam_mail_create : List ℕ → FakeFilesystem → Res (Unit {0}) × FakeFilesystem
spam_mail_create path fs = if leb max_files fs.no_files then (fail enospc, fs) else (
  ok tt,
  record {
    file_names = update fs.file_names fs.no_files path;
    file_contents = update fs.file_contents fs.no_files (record { text = []; allocated = true });
    no_files = fs.no_files + 1;
  },
)

unfoldable pub spam_mail_open : List ℕ → FakeFilesystem → Res (Unit {0})
spam_mail_open path fs = elim (search_file path fs) [ none ↦ fail enoent | some i ↦ ok tt ]

-- The length is an int, and one that is negative is less than any offset.
-- The bytes that memcpy puts into the buffer; their number is the value that is returned. Where the sum
-- of a huge size wraps around, memcpy reads memory far behind the text.
abbrev pub part_of : List ℕ → (size offset : ℕ) → Res (List ℕ)
part_of text size offset =
    let len = to_int (length text) in
    if ltb offset len
    then (if ltb len ((offset + size) % 2 ^ 64)
        then ok (take (len - offset) (drop offset text))
        else if leb (offset + size) len
        then ok (take size (drop offset text))
        else crash)
    else ok []

abbrev pub read_from : (size offset : ℕ) → FakeFilesystem → (file_id : Option ℕ) → Res (List ℕ)
read_from size offset fs none = fail enoent
read_from size offset fs (some i) = part_of (fs.file_contents i).text size offset

unfoldable pub spam_mail_read : List ℕ → (size offset : ℕ) → FakeFilesystem → Res (List ℕ)
spam_mail_read path size offset fs = read_from size offset fs (search_file path fs)

-- The command for system: echo "BUF" | mail -s "PATH" EMAIL, cut off at 9999 characters.
abbrev pub mail_command : (text path email : List ℕ) → List ℕ
mail_command text path email = take 9999 (
    (b'e' ∷ b'c' ∷ b'h' ∷ b'o' ∷ b' ' ∷ 34 ∷ [])
    ++ text
    ++ (34 ∷ b' ' ∷ b'|' ∷ b' ' ∷ b'm' ∷ b'a' ∷ b'i' ∷ b'l' ∷ b' ' ∷ b'-' ∷ b's' ∷ b' ' ∷ 34 ∷ [])
    ++ behind path
    ++ (34 ∷ b' ' ∷ [])
    ++ email)

-- Puts the C string at `buf` in the place of the contents. free of memory that no allocation returned
-- ends the process. The size that is returned is the one asked for, and the command is for system.
abbrev pub write_to :
    (email path text : List ℕ)
    → (size : ℕ) → FakeFilesystem
    → (file_id : Option ℕ) → Res (ℕ × List ℕ) × FakeFilesystem
write_to email path text size fs none = (fail enoent, fs)
write_to email path text size fs (some i) =
    if (fs.file_contents i).allocated
    then (
      ok (size, mail_command text path email),
      record fs {
        file_contents = update fs.file_contents i (record { text = text; allocated = true });
      },
    )
    else (crash, fs)

unfoldable pub spam_mail_write :
    (email path text : List ℕ) → (size : ℕ) → FakeFilesystem → Res (ℕ × List ℕ) × FakeFilesystem
spam_mail_write email path text size fs = write_to email path text size fs (search_file path fs)

abbrev pub readme_path : List ℕ
readme_path = b'/' ∷ b'R' ∷ b'E' ∷ b'A' ∷ b'D' ∷ b'M' ∷ b'E' ∷ b'.' ∷ b't' ∷ b'x' ∷ b't' ∷ []

-- What main puts in before it starts libfuse: one file, whose contents are a local array.
abbrev pub mounted : (message : List ℕ) → FakeFilesystem
mounted message = record {
  file_names = λ i. if i == 0 then readme_path else [];
  file_contents = λ i.
      if i == 0
      then record { text = message; allocated = false }
      else record { text = []; allocated = false };
  no_files = 1;
}

-- How main ends: with an exit status before libfuse is started, or with a file system that it serves.
pub data Started : Type 0 where
  quits : (status : ℕ) → Started
  serves : (email : Option (List ℕ)) → FakeFilesystem → Started

-- The file system is served at a mount point that is a directory.
start_at : (message : Option (List ℕ) → List ℕ) → Option (List ℕ) → Option Bool → Started
start_at message email (some true) = serves email (mounted (message email))
start_at message email _ = quits 1

-- main up to the start of libfuse. Given are the first line of ./email.txt, if there is the file and if
-- it has a line, the mount point that libfuse finds in the arguments, if it can read them and if there
-- is one, what stat says of it, and the text that main prints about the address.
unfoldable pub main :
    (message : Option (List ℕ) → List ℕ)
    → (email_file : Option (Option (List ℕ))) → (mountpoint : Option (Option (List ℕ)))
    → (stat_dir : List ℕ → Option Bool) → Started
unfolding start_at
main message (some email) (some (some path)) stat_dir = start_at message email (stat_dir path)
main message _ _ stat_dir = quits 1
