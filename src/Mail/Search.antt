-- ===== src/Mail/Search.antt =====
-- search_file, and a read of all of a file.
use uwufs.Base.{
  ℕ, zero, suc, ◌+◌, ◌-◌, ◌%◌, ◌^◌, ◌≤◌, ◌<◌, ◌≡◌, ◌≢◌, inl, inr, refl, sym, ap, true, false, none,
  some, List, [], ◌∷◌, length, take, arith, Bool-cases, ◌==◌, ==→eq, ltb, lt→ltb, not_ltb→le,
  le→leb,
}
use uwufs.Machine.{ok}
use uwufs.Directory.{same_text}
use uwufs.Directory.Text.{same_text_self, same_text-eq}
use uwufs.Mail.{FakeFilesystem, Contents, search_from, part_of}

-- What search_file finds.
pub search_from-some :
    (left i j : ℕ) (path : List ℕ) (fs : FakeFilesystem)
    → search_from left i path fs ≡ some j
    → (j < i + left) × (fs.file_names j ≡ path)
unfolding search_from
search_from-some zero i j path fs h = absurd (ground arith)
search_from-some (suc left) i j path fs h = elim (Bool-cases (same_text path (fs.file_names i))) [
  | inl e ↦
      let here : i ≡ j = ground arith in
      (omega arith, sym (same_text-eq path (fs.file_names j) (rw here at e)))
  | inr e ↦
      let (lt, name) = search_from-some left (i + 1) j path fs (rw e at h) in (omega arith, name)
]

pub search_from-none :
    (left i : ℕ) (path : List ℕ) (fs : FakeFilesystem)
    → search_from left i path fs ≡ none
    → (j : ℕ) → i ≤ j
    → j < i + left
    → fs.file_names j ≢ path
unfolding search_from
search_from-none zero i path fs h j ge lt = absurd (omega arith)
search_from-none (suc left) i path fs h j ge lt =
    elim (Bool-cases (same_text path (fs.file_names i))) [
      | inl e ↦ absurd (ground arith)
      | inr e ↦ elim (Bool-cases (i == j)) [
        | inl here ↦ λ name.
            let self : same_text path path ≡ true = same_text_self path in
            let at_j : same_text path (fs.file_names j) ≡ false = rw (==→eq i j here) at e in
            ground (arith, self, rw name at at_j)
        | inr later ↦
            search_from-none left (i + 1) path fs (rw e at h) j (ground arith) (omega arith)
      ]
    ]

-- No file name changes, so the search finds what it did.
pub search_from-contents :
    (left i : ℕ) (path : List ℕ) (fs : FakeFilesystem) (c : ℕ → Contents)
    → search_from left i path (record fs { file_contents = c }) ≡ search_from left i path fs
unfolding search_from
search_from-contents zero i path fs c = refl
search_from-contents (suc left) i path fs c = rw (search_from-contents left (i + 1) path fs c) refl

-- A read from the start of at least as many bytes as the text has.
take_all : (n : ℕ) (xs : List ℕ) → length xs ≤ n → take n xs ≡ xs
take_all zero [] h = refl
take_all (suc n) [] h = refl
take_all zero (x ∷ xs) h = absurd (omega arith)
take_all (suc n) (x ∷ xs) h = rw (take_all n xs (omega arith)) refl

pub part_of-all :
    (text : List ℕ) (n : ℕ)
    → length text < 2 ^ 31
    → length text ≤ n
    → n < 2 ^ 64
    → part_of text n 0 ≡ ok text
part_of-all [] n short le small = refl
part_of-all (c ∷ cs) n short le small =
    let low : length (c ∷ cs) % 2 ^ 32 ≡ length (c ∷ cs) = omega arith in
    let whole : (0 + n) % 2 ^ 64 ≡ n = omega arith in
    rw
      (
        low,
        lt→ltb (length (c ∷ cs)) (2 ^ 31) short,
        whole,
        lt→ltb 0 (length (c ∷ cs)) (omega arith),
      )
      (elim (Bool-cases (ltb (length (c ∷ cs)) n)) [
        | inl e ↦ rw e (ap ok (take_all (length (c ∷ cs) - 0) (c ∷ cs) (omega arith)))
        | inr e ↦
            let fits : 0 + n ≤ length (c ∷ cs) = omega (arith, not_ltb→le (length (c ∷ cs)) n e) in
            rw (e, le→leb (0 + n) (length (c ∷ cs)) fits) (ap ok (take_all n (c ∷ cs) le))
      ])
