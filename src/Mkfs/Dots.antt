-- ===== src/Mkfs/Dots.antt =====
-- The two entries of the root directory.
use uwufs.Base.{
  ℕ, ◌+◌, ◌*◌, ◌≤◌, ◌<◌, ◌≡◌, refl, ◌∙◌, inl, inr, true, false, some, List, [], ◌∷◌, arith, eq→==,
  ne→not_==,
}
use uwufs.Bytes.{Bytes, zeros, get}
use uwufs.Bytes.Fields.{get-cong}
use uwufs.Machine.{Res, ok, fail, crash}
use uwufs.Layout.{entry_inode_num}
use uwufs.Directory.{c_bytes, same_text, entry_name, put_directory_file_entry}
use uwufs.Directory.Text.{Holds-c_bytes, c_str-cong}
use uwufs.Directory.Entries.{is_free, IsFilled, IsPut, put_directory_file_entry-IsPut}
use uwufs.Directory.Find.{name-IsFilled}
use uwufs.Directory.Lookup.{search_entries}

abbrev pub dot : List ℕ
dot = b'.' ∷ []

abbrev pub dots : List ℕ
dots = b'.' ∷ b'.' ∷ []

module _ (blk name : Bytes) (num k : ℕ) (in_blk : k < 16) (free : is_free blk k ≡ true)
    (used : (j : ℕ) → j < k → is_free blk j ≡ false) where
  -- The first free entry is filled.
  put-free :
      (r : Res Bytes)
      → IsPut blk name num r
      → (blk' : Bytes) × (r ≡ ok blk') × IsFilled blk name num k blk'
  put-free (ok blk') (i, (ge, lt, passes, before), filled) =
      let not_less : ¬ (i < k) = λ h. ground (arith, used i h) in
      let not_more : ¬ (k < i) = λ h. ground (arith, before k (omega arith) h) in
      let same : i ≡ k = omega arith in (blk', refl, rw same at filled)
  put-free (fail e) (_, none_free) = absurd (ground (arith, none_free k (omega arith) in_blk))
  put-free crash p = absurd p

-- What the block of the root directory holds.
pub record IsRootBlk (blk : Bytes) : Type 0 where
  pub dot_num : entry_inode_num blk 0 ≡ 2
  pub dot_name : entry_name blk 0 ≡ dot
  pub dots_num : entry_inode_num blk 1 ≡ 2
  pub dots_name : entry_name blk 1 ≡ dots
  pub others : (j : ℕ) → 2 ≤ j → j < 16 → entry_inode_num blk j ≡ 0

pub get-zeros : (i : ℕ) → get 8 zeros i ≡ 0
unfolding get
get-zeros i = refl

module _ (behind : Bytes) where
  first_put :
      (b : Bytes) × (put_directory_file_entry zeros (c_bytes behind dot) 2 ≡ ok b)
      × IsFilled zeros (c_bytes behind dot) 2 0 b
  unfolding get
  first_put =
      put-free zeros (c_bytes behind dot) 2 0 (omega arith) refl (λ j lt. absurd (omega arith)) _
        (put_directory_file_entry-IsPut zeros (c_bytes behind dot) 2 (omega arith))

  abbrev b1 : Bytes
  b1 = first_put.0

  -- The other entries of the block are as empty as they were.
  empty-b1 : (j : ℕ) → 1 ≤ j → entry_inode_num b1 j ≡ 0
  empty-b1 j h =
      get-cong 8 b1 zeros (256 * j + 248) (λ p ge lt. first_put.2.others p (inr (omega arith)))
      ∙ get-zeros (256 * j + 248)

  used_num : (j : ℕ) → j < 1 → entry_inode_num b1 j ≡ 2
  used_num j lt = let e : j ≡ 0 = omega arith in rw e first_put.2.number

  second_put :
      (b : Bytes) × (put_directory_file_entry b1 (c_bytes behind dots) 2 ≡ ok b)
      × IsFilled b1 (c_bytes behind dots) 2 1 b
  second_put =
      put-free b1 (c_bytes behind dots) 2 1 (omega arith)
        (eq→== (entry_inode_num b1 1) 0 (empty-b1 1 (omega arith)))
        (λ j lt. ne→not_== (entry_inode_num b1 j) 0 (λ e. absurd (omega (arith, used_num j lt, e))))
        _ (put_directory_file_entry-IsPut b1 (c_bytes behind dots) 2 (omega arith))

  abbrev b2 : Bytes
  b2 = second_put.0

  IsRootBlk-b2 : IsRootBlk b2
  IsRootBlk-b2 = record {
    dot_num =
        get-cong 8 b2 b1 248 (λ p ge lt. second_put.2.others p (inl (omega arith)))
        ∙ first_put.2.number;
    dot_name =
        c_str-cong 248 b2 b1 0 (λ p ge lt. second_put.2.others p (inl (omega arith)))
        ∙ name-IsFilled zeros b1 (c_bytes behind dot) 2 0 first_put.2 dot
            (omega arith, omega arith, tt) (omega arith) (Holds-c_bytes behind dot);
    dots_num = second_put.2.number;
    dots_name =
        name-IsFilled b1 b2 (c_bytes behind dots) 2 1 second_put.2 dots
          (omega arith, omega arith, (omega arith, omega arith, tt)) (omega arith)
          (Holds-c_bytes behind dots);
    others = λ j ge lt.
        get-cong 8 b2 b1 (256 * j + 248) (λ p ge' lt'. second_put.2.others p (inr (omega arith)))
        ∙ empty-b1 j (omega arith);
  }

  -- Both entries can be made.
  pub dots_put :
      (b : Bytes) × (b' : Bytes) × (put_directory_file_entry zeros (c_bytes behind dot) 2 ≡ ok b)
      × (put_directory_file_entry b (c_bytes behind dots) 2 ≡ ok b')
      × IsRootBlk b'
  dots_put = (b1, b2, first_put.1, second_put.1, IsRootBlk-b2)

-- The search of the block finds both names.
module _ (blk : Bytes) (r : IsRootBlk blk) where
  pub search-dot : search_entries 16 0 blk dot ≡ some 2
  unfolding search_entries same_text
  search-dot = rw (r.dot_num, r.dot_name) refl

  pub search-dots : search_entries 16 0 blk dots ≡ some 2
  unfolding search_entries same_text
  search-dots = rw (r.dot_num, r.dot_name, r.dots_num, r.dots_name) refl
