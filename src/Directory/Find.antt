-- ===== src/Directory/Find.antt =====
-- A name that put_directory_file_entry enters is found by next_inode_in_path.
use uwufs.Base.{
  ℕ, zero, suc, ◌+◌, ◌*◌, ◌^◌, ◌≤◌, ◌<◌, ◌≡◌, ◌≢◌, refl, subst, ap, ap₂, ◌∙◌, inl, inr, Bool, true,
  false, ◌&&◌, Option, none, some, List, length, ltb, ◌==◌, arith, Bool-cases, if◌then◌else◌,
  lt→ltb, ==→eq, not_==→ne,
}
use uwufs.Bytes.{Bytes}
use uwufs.Bytes.Fields.{get-cong}
use uwufs.Machine.{ok}
use uwufs.Layout.{entry_inode_num}
use uwufs.Directory.{c_bytes, same_text, entry_name, put_directory_file_entry}
use uwufs.Directory.Text.{
  IsText, Holds, c_str-Holds, Holds-shift, Holds-c_bytes, same_text_self, c_str-cong,
}
use uwufs.Directory.Entries.{IsFilled, IsPut, put_directory_file_entry-IsPut}
use uwufs.Directory.Lookup.{matches, search_entries}

if-none :
    {A : Type 0} (b : Bool) (x : A) (o : Option A)
    → (if b then some x else o) ≡ none
    → (b ≡ false) × (o ≡ none)
if-none true x o h = absurd (cc)
if-none false x o h = (refl, h)

module _ (blk blk' name : Bytes) (num i : ℕ) (f : IsFilled blk name num i blk') (s : List ℕ) where
  -- The other entries match what they matched before.
  matches-other : (j : ℕ) → i ≢ j → matches blk' s j ≡ matches blk s j
  matches-other j ne =
      ap₂ (λ n t. ltb 0 n && ltb 0 (length s) && same_text t s)
        (get-cong 8 blk' blk (256 * j + 248) (λ p ge lt. f.others p (omega arith)))
        (c_str-cong 248 blk' blk (256 * j) (λ p ge lt. f.others p (omega arith)))

  module _ (hit : matches blk' s i ≡ true) where
    search_entries-hit :
        (left j : ℕ)
        → j ≤ i
        → i < j + left
        → search_entries left j blk s ≡ none
        → search_entries left j blk' s ≡ some num
    unfolding search_entries
    search_entries-hit zero j ge lt miss = absurd (omega arith)
    search_entries-hit (suc left) j ge lt miss =
        let missed =
          if-none (matches blk s j) (entry_inode_num blk j) (search_entries left (j + 1) blk s)
            miss in
        elim (Bool-cases (i == j)) [
          | inl e ↦
              subst (λ k. search_entries (suc left) k blk' s ≡ some num) (==→eq i j e)
                (rw hit (ap some f.number))
          | inr e ↦
              let ne : i ≢ j = not_==→ne i j e in
              rw (matches-other j ne, missed.0)
                (search_entries-hit left (j + 1) (omega arith) (omega arith) missed.1)
        ]

  -- The name of the filled entry, if the buffer holds it.
  pub name-IsFilled : IsText s → length s < 248 → Holds name 0 s → entry_name blk' i ≡ s
  name-IsFilled t short holds = c_str-Holds 248 blk' (256 * i) s t short (
      Holds-shift 247 blk' name (256 * i) 0 s (λ k lt. f.text k lt ∙ ap name (omega arith)) f.nul
        (omega arith) holds)

  hit-IsFilled :
      IsText s → 0 < length s → length s < 248 → 0 < num → Holds name 0 s → matches blk' s i ≡ true
  hit-IsFilled t long short pos holds = rw (
    f.number,
    lt→ltb 0 num pos,
    lt→ltb 0 (length s) long,
    name-IsFilled t short holds,
    same_text_self s,
  )

-- Where no entry of the block has the name, entering the name with a number other than 0 makes the
-- search of the block return the number.
pub search_entries-put_directory_file_entry :
    (blk blk' buf : Bytes) (num : ℕ) (s : List ℕ)
    → IsText s
    → 0 < length s
    → length s < 248
    → 0 < num
    → num < 2 ^ 64
    → search_entries 16 0 blk s ≡ none
    → put_directory_file_entry blk (c_bytes buf s) num ≡ ok blk'
    → search_entries 16 0 blk' s ≡ some num
search_entries-put_directory_file_entry blk blk' buf num s t long short pos small miss put =
    let (i, first, f) =
      subst (IsPut blk (c_bytes buf s) num) put
        (put_directory_file_entry-IsPut blk (c_bytes buf s) num small) in
    search_entries-hit blk blk' (c_bytes buf s) num i f s
      (hit-IsFilled blk blk' (c_bytes buf s) num i f s t long short pos (Holds-c_bytes buf s)) 16 0
      (omega arith) (omega (arith, first.1)) miss
