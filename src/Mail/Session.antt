-- ===== src/Mail/Session.antt =====
-- Requests to the mail file system, one after the other.
use uwufs.Base.{
  ℕ, ◌+◌, ◌^◌, ◌≤◌, ◌<◌, ◌≡◌, ◌≢◌, ◌⊎◌, inl, inr, refl, sym, ap, ◌∙◌, true, false, none, some, List,
  length, arith, Bool-cases, Option-cases, ◌==◌, ==→eq, ltb, ltb→lt, not_ltb→le, le→leb, lt→not_leb,
  ne→not_==, not_==→ne,
}
use uwufs.Machine.{ok, fail, crash, enoent}
use uwufs.Mail.{
  FakeFilesystem, search_file, spam_mail_create, spam_mail_read, spam_mail_write, write_to,
  mail_command, readme_path, mounted, update,
}
use uwufs.Mail.Search.{search_from-some, search_from-none}

-- The first file is the one that main put in, whose contents no allocation returned; those of all
-- others strdup did; no two files have the same name, and there are at most ten.
pub record IsSound (fs : FakeFilesystem) : Type 0 where
  pub some_files : 0 < fs.no_files
  pub few : fs.no_files ≤ 10
  pub readme : fs.file_names 0 ≡ readme_path
  pub local : (fs.file_contents 0).allocated ≡ false
  pub heap : (i : ℕ) → 0 < i → i < fs.no_files → (fs.file_contents i).allocated ≡ true
  pub distinct :
      (i j : ℕ) → i < fs.no_files → j < fs.no_files → fs.file_names i ≡ fs.file_names j → i ≡ j

-- The kernel asks to create a file only where there is none, and asks for more only while the process
-- lives.
pub data Step : FakeFilesystem → FakeFilesystem → Type 0 where
  create :
      (path : List ℕ) (fs : FakeFilesystem)
      → search_file path fs ≡ none
      → Step fs (spam_mail_create path fs).1
  write :
      (email path text : List ℕ) (size : ℕ) (fs : FakeFilesystem) {sent : ℕ × List ℕ}
      → (spam_mail_write email path text size fs).0 ≡ ok sent
      → Step fs (spam_mail_write email path text size fs).1

pub data Reach (s : FakeFilesystem) : FakeFilesystem → Type 0 where
  here : Reach s s
  next : {t u : FakeFilesystem} → Reach s t → Step t u → Reach s u

mounted-IsSound : (message : List ℕ) → IsSound (mounted message)
mounted-IsSound message = record {
  some_files = omega arith;
  few = omega arith;
  readme = refl;
  local = refl;
  heap = λ i ge lt. absurd (omega arith);
  distinct = λ i j lt lt' e. omega arith;
}

module _ (path : List ℕ) (fs : FakeFilesystem) (s : IsSound fs) where
  -- The names stay different if the new one is not there.
  distinct_after :
      ((j : ℕ) → 0 ≤ j → j < 0 + fs.no_files → fs.file_names j ≢ path)
      → (i j : ℕ) → i < fs.no_files + 1
      → j < fs.no_files + 1
      → update fs.file_names fs.no_files path i ≡ update fs.file_names fs.no_files path j
      → i ≡ j
  distinct_after new i j lt lt' e = elim (Bool-cases (fs.no_files == i)) [
    | inl a ↦ elim (Bool-cases (fs.no_files == j)) [
      | inl b ↦ sym (==→eq fs.no_files i a) ∙ ==→eq fs.no_files j b
      | inr b ↦
          absurd
            (new j (omega arith) (omega (arith, not_==→ne fs.no_files j b)) (sym (rw (a, b) at e)))
    ]
    | inr a ↦ elim (Bool-cases (fs.no_files == j)) [
      | inl b ↦
          absurd (new i (omega arith) (omega (arith, not_==→ne fs.no_files i a)) (rw (a, b) at e))
      | inr b ↦
          s.distinct i j (omega (arith, not_==→ne fs.no_files i a))
            (omega (arith, not_==→ne fs.no_files j b)) (rw (a, b) at e)
    ]
  ]

  create-IsSound : search_file path fs ≡ none → IsSound (spam_mail_create path fs).1
  unfolding spam_mail_create search_file
  create-IsSound absent = elim (Bool-cases (ltb fs.no_files 10)) [
    | inr e ↦ rw (le→leb 10 fs.no_files (not_ltb→le fs.no_files 10 e)) s
    | inl e ↦
        let room = ltb→lt fs.no_files 10 e in
        let new = search_from-none fs.no_files 0 path fs absent in
        rw (lt→not_leb 10 fs.no_files room) (record {
          some_files = omega arith;
          few = omega arith;
          readme = rw (ne→not_== fs.no_files 0 (omega (arith, s.some_files))) s.readme;
          local = rw (ne→not_== fs.no_files 0 (omega (arith, s.some_files))) s.local;
          heap = λ i ge lt. ground (arith, s.heap i ge);
          distinct = λ i j lt lt' e. distinct_after new i j lt lt' e;
        })
  ]

  module _ (i : ℕ) (found : search_file path fs ≡ some i) where
    named : (i < fs.no_files) × (fs.file_names i ≡ path)
    unfolding search_file
    named = let (lt, name) = search_from-some fs.no_files 0 i path fs found in (omega arith, name)

    -- The first file is the only one that cannot be written.
    write-local :
        (email text : List ℕ) (size : ℕ)
        → i ≡ 0
        → spam_mail_write email path text size fs ≡ (crash, fs)
    unfolding spam_mail_write
    write-local email text size e =
        ap (write_to email path text size fs) found ∙ rw (e, s.local) refl

    written : List ℕ → FakeFilesystem
    written text = record fs {
      file_contents = update fs.file_contents i (record { text = text; allocated = true });
    }

    write-heap :
        (email text : List ℕ) (size : ℕ)
        → 0 < i
        → spam_mail_write email path text size fs
          ≡ (ok (size, mail_command text path email), written text)
    unfolding spam_mail_write written
    write-heap email text size pos =
        ap (write_to email path text size fs) found ∙ rw (s.heap i pos named.0) refl

    written-IsSound : (text : List ℕ) → 0 < i → IsSound (written text)
    unfolding written
    written-IsSound text pos = record {
      some_files = s.some_files;
      few = s.few;
      readme = s.readme;
      local = rw (ne→not_== i 0 (omega arith)) s.local;
      heap = λ j ge lt. ground (arith, s.heap j ge lt);
      distinct = s.distinct;
    }

write-none :
    (email path text : List ℕ) (size : ℕ) (fs : FakeFilesystem)
    → search_file path fs ≡ none
    → spam_mail_write email path text size fs ≡ (fail enoent, fs)
unfolding spam_mail_write
write-none email path text size fs e = ap (write_to email path text size fs) e

Step-IsSound : {s t : FakeFilesystem} → Step s t → IsSound s → IsSound t
Step-IsSound (create path fs absent) h = create-IsSound path fs h absent
Step-IsSound (write email path text size fs done) h = elim (Option-cases (search_file path fs)) [
  | inl e ↦ rw (write-none email path text size fs e) h
  | inr (i, e) ↦ elim (Bool-cases (0 == i)) [
    | inl z ↦ rw (write-local path fs h i e email text size (sym (==→eq 0 i z))) h
    | inr z ↦
        let pos : 0 < i = omega (arith, not_==→ne 0 i z) in
        rw (write-heap path fs h i e email text size pos) (written-IsSound path fs h i e text pos)
  ]
]

-- However often the kernel then asks to create a file that is not there, or to write one, after main has
-- put in the first file: there are between one and ten files, no two have the same name, the first is
-- /README.txt with contents that no allocation returned, and those of all others can be freed.
pub Reach-IsSound :
    (message : List ℕ) {fs : FakeFilesystem} → Reach (mounted message) fs → IsSound fs
Reach-IsSound message here = mounted-IsSound message
Reach-IsSound message (next r step) = Step-IsSound step (Reach-IsSound message r)

-- What a write does: it fails where there is no such file; at /README.txt it ends the process; at any
-- other file it succeeds, the text is then read back if it is not too long, and no other file reads
-- differently.
abbrev pub Outcome : (email path text : List ℕ) (size : ℕ) → FakeFilesystem → Type 0
Outcome email path text size fs =
    let r = spam_mail_write email path text size fs in
    ((search_file path fs ≡ none) × (r ≡ (fail enoent, fs)))
    ⊎ (((path ≡ readme_path) × (r ≡ (crash, fs)))
        ⊎ ((r.0 ≡ ok (size, mail_command text path email))
            × ((n : ℕ)
                → length text < 2 ^ 31
                → length text ≤ n
                → n < 2 ^ 64
                → spam_mail_read path n 0 r.1 ≡ ok text)
            × ((q : List ℕ)
                → q ≢ path
                → (n offset : ℕ) → spam_mail_read q n offset r.1 ≡ spam_mail_read q n offset fs)))
