-- ===== src/Directory/Remove/Moves.antt =====
-- What __remove_entry_from_dir_data_blk does to the entries.
use uwufs.Base.{
  ℕ, zero, suc, ◌+◌, ◌*◌, ◌<◌, ◌≡◌, refl, ap, subst, ◌∙◌, inl, inr, Bool, true, false, ◌&&◌, Option,
  none, some, List, ◌==◌, arith, Bool-cases, if◌then◌else◌, ==→eq, not_==→ne,
}
use uwufs.Bytes.{Bytes, zeros}
use uwufs.Bytes.Blit.{blit-inside, blit-outside}
use uwufs.Machine.{Res, ok, fail, crash, enoent}
use uwufs.Itable.Search.{IsFirst, IsFirst-append, NoneIn-one}
use uwufs.Layout.{entry_inode_num}
use uwufs.Directory.{same_text, entry_name}
use uwufs.Directory.Remove.{
  entry_from, copy_entry, clear_file_entry, move_last, remove_entry_from_dir_data_blk,
}

-- An entry with the name and the inode number.
abbrev pub has_entry : Bytes → List ℕ → ℕ → ℕ → Bool
has_entry blk name num i = (entry_inode_num blk i == num) && same_text (entry_name blk i) name

entry_from-IsFirst :
    (left i : ℕ) (blk : Bytes) (name : List ℕ) (num : ℕ)
    → IsFirst (has_entry blk name num) i (i + left) (entry_from left i blk name num)
unfolding entry_from
entry_from-IsFirst zero i blk name num = λ j ge lt. absurd (omega arith)
entry_from-IsFirst (suc left) i blk name num = elim (Bool-cases (has_entry blk name num i)) [
  | inl e ↦ rw e (omega arith, omega arith, e, λ j ge lt. absurd (omega arith))
  | inr e ↦ rw e (
      IsFirst-append (has_entry blk name num) i (i + 1) (i + suc left) _ (omega arith)
        (NoneIn-one (has_entry blk name num) i e)
        (subst
          (λ hi. IsFirst (has_entry blk name num) (i + 1) hi (entry_from left (i + 1) blk name num))
          (omega arith) (entry_from-IsFirst left (i + 1) blk name num)))
]

-- The byte `k` of the entry `j`.
abbrev pub entry_byte : Bytes → ℕ → ℕ → ℕ
entry_byte blk j k = blk (256 * j + k)

entry_byte-copy_entry :
    (dst src : Bytes) (i s j k : ℕ)
    → k < 256
    → entry_byte (copy_entry dst i src s) j k
      ≡ (if j == i then entry_byte src s k else entry_byte dst j k)
entry_byte-copy_entry dst src i s j k h = elim (Bool-cases (j == i)) [
  | inl e ↦ rw (e, ==→eq j i e) (blit-inside dst src (256 * i) (256 * s) 256 k h)
  | inr e ↦
      let ne = not_==→ne j i e in
      rw e (blit-outside dst src (256 * i) (256 * s) 256 (256 * j + k) (ground arith))
]

entry_byte-clear :
    (blk : Bytes) (i j k : ℕ)
    → k < 256
    → entry_byte (clear_file_entry blk i) j k ≡ (if j == i then 0 else entry_byte blk j k)
entry_byte-clear blk i j k h = elim (Bool-cases (j == i)) [
  | inl e ↦ rw (e, ==→eq j i e) (blit-inside blk zeros (256 * i) 0 256 k h)
  | inr e ↦
      let ne = not_==→ne j i e in
      rw e (blit-outside blk zeros (256 * i) 0 256 (256 * j + k) (ground arith))
]

-- What the function returns for a block, the last block if that is another one, and the index of the
-- last entry.
abbrev pub IsMoved :
    (blk : Bytes)
    → Option Bytes
    → (last : ℕ) → List ℕ
    → (num : ℕ) → Res (Bytes × Option Bytes)
    → Type 0
IsMoved blk other last name num (ok (blk', none)) =
    (other ≡ none)
    × (i : ℕ) × IsFirst (has_entry blk name num) 0 16 (some i)
    × ((j k : ℕ)
        → k < 256
        → entry_byte blk' j k
          ≡ (if j == last then 0 else if j == i then entry_byte blk last k else entry_byte blk j k))
IsMoved blk other last name num (ok (blk', some last_blk')) =
    (last_blk : Bytes) × (other ≡ some last_blk)
    × (i : ℕ) × IsFirst (has_entry blk name num) 0 16 (some i)
    × ((j k : ℕ)
        → k < 256
        → entry_byte blk' j k ≡ (if j == i then entry_byte last_blk last k else entry_byte blk j k))
    × ((j k : ℕ)
        → k < 256
        → entry_byte last_blk' j k ≡ (if j == last then 0 else entry_byte last_blk j k))
IsMoved blk other last name num (fail e) = (e ≡ enoent) × IsFirst (has_entry blk name num) 0 16 none
IsMoved blk other last name num crash = ⊥

-- Within one block.
entry_byte-moved :
    (blk : Bytes) (i last j k : ℕ)
    → k < 256
    → entry_byte (clear_file_entry (copy_entry blk i blk last) last) j k
      ≡ (if j == last then 0 else if j == i then entry_byte blk last k else entry_byte blk j k)
entry_byte-moved blk i last j k h =
    entry_byte-clear (copy_entry blk i blk last) last j k h
    ∙ ap (λ b. if j == last then 0 else b) (entry_byte-copy_entry blk blk i last j k h)

-- The entry is the last one itself.
entry_byte-last :
    (blk : Bytes) (last j k : ℕ)
    → k < 256
    → entry_byte (clear_file_entry blk last) j k
      ≡ (if j == last then 0 else if j == last then entry_byte blk last k else entry_byte blk j k)
entry_byte-last blk last j k h = elim (Bool-cases (j == last)) [
  | inl e ↦ entry_byte-clear blk last j k h ∙ rw e refl
  | inr e ↦ entry_byte-clear blk last j k h ∙ rw e refl
]

IsMoved-within :
    (b : Bool) (i last : ℕ)
    → (i == last) ≡ b
    → (blk : Bytes) (name : List ℕ) (num : ℕ) → IsFirst (has_entry blk name num) 0 16 (some i)
    → IsMoved blk none last name num (
        if b
        then ok (clear_file_entry blk i, none)
        else ok (clear_file_entry (copy_entry blk i blk last) last, none))
IsMoved-within true i last e blk name num first = (
  refl,
  i,
  first,
  subst
      (λ n.
        (j k : ℕ)
        → k < 256
        → entry_byte (clear_file_entry blk i) j k
          ≡ (if j == n then 0 else if j == i then entry_byte blk n k else entry_byte blk j k))
      (==→eq i last e) (entry_byte-last blk i),
)
IsMoved-within false i last e blk name num first = (refl, i, first, entry_byte-moved blk i last)

move_last-IsMoved :
    (r : Option ℕ) (blk : Bytes) (other : Option Bytes) (last : ℕ) (name : List ℕ) (num : ℕ)
    → IsFirst (has_entry blk name num) 0 16 r
    → IsMoved blk other last name num (move_last r blk other last)
unfolding move_last
move_last-IsMoved none blk other last name num first = (refl, first)
move_last-IsMoved (some i) blk none last name num first =
    IsMoved-within (i == last) i last refl blk name num first
move_last-IsMoved (some i) blk (some last_blk) last name num first = (
  last_blk,
  refl,
  i,
  first,
  entry_byte-copy_entry blk last_blk i last,
  entry_byte-clear last_blk last,
)

-- The function removes the first entry with the name and the inode number: the last entry of the
-- directory takes its place, the place of the last entry is cleared, and every other entry of both
-- blocks keeps its bytes. It fails with ENOENT exactly if the block has no such entry.
pub remove_entry_from_dir_data_blk-IsMoved :
    (blk : Bytes) (other : Option Bytes) (last : ℕ) (name : List ℕ) (num : ℕ)
    → IsMoved blk other last name num (remove_entry_from_dir_data_blk blk other last name num)
unfolding remove_entry_from_dir_data_blk
remove_entry_from_dir_data_blk-IsMoved blk other last name num =
    move_last-IsMoved (entry_from 16 0 blk name num) blk other last name num
      (entry_from-IsFirst 16 0 blk name num)
