-- ===== src/Directory/Entries.antt =====
-- put_directory_file_entry, and the look-up of the name that it enters.
use uwufs.Base.{
  ℕ, zero, suc, ◌+◌, ◌*◌, ◌^◌, ◌≤◌, ◌<◌, ◌≡◌, ◌≢◌, refl, sym, ap, subst, ◌∙◌, ◌⊎◌, inl, inr, Bool,
  Option, none, some, ◌==◌, arith, Bool-cases,
}
use uwufs.Bytes.{Bytes, poke, blit}
use uwufs.Machine.{Res, ok, fail, crash, enospc}
use uwufs.Bytes.Fields.{get-cong, put-outside, poke-outside}
use uwufs.Bytes.Blit.{blit-inside, blit-outside, get-blit_outside}
use uwufs.Layout.Laws.{word-put_self}
use uwufs.Itable.Search.{IsFirst, IsFirst-append, NoneIn-one}
use uwufs.Layout.{entry_inode_num, set_entry_inode_num}
use uwufs.Directory.{free_entry_from, fill_entry, put_in, put_directory_file_entry}

abbrev pub is_free : Bytes → ℕ → Bool
is_free blk i = entry_inode_num blk i == 0

free_entry_from-IsFirst :
    (left i : ℕ) (blk : Bytes) → IsFirst (is_free blk) i (i + left) (free_entry_from left i blk)
unfolding free_entry_from
free_entry_from-IsFirst zero i blk = λ j ge lt. absurd (omega arith)
free_entry_from-IsFirst (suc left) i blk = elim (Bool-cases (is_free blk i)) [
  | inl free ↦ rw free (omega arith, omega arith, free, λ j ge lt. absurd (omega arith))
  | inr used ↦ rw used (
      IsFirst-append (is_free blk) i (i + 1) (i + suc left) _ (omega arith)
        (NoneIn-one (is_free blk) i used)
        (subst (λ hi. IsFirst (is_free blk) (i + 1) hi (free_entry_from left (i + 1) blk))
          (omega arith) (free_entry_from-IsFirst left (i + 1) blk)))
]

module _ (blk name : Bytes) (i num : ℕ) where
  abbrev numbered : Bytes
  numbered = set_entry_inode_num blk i num

  abbrev named : Bytes
  named = blit numbered (256 * i) name 0 248

  abbrev filled : Bytes
  filled = fill_entry blk i name num

  -- The NUL at the end of the name is the last byte that is written.
  filled-named : (p : ℕ) → p ≢ 256 * i + 247 → filled p ≡ named p
  unfolding fill_entry
  filled-named p h = poke-outside named (256 * i + 247) 0 p (λ e. h (sym e))

  num-filled : num < 2 ^ 64 → entry_inode_num filled i ≡ num
  num-filled h =
      get-cong 8 filled named (256 * i + 248) (λ p ge lt. filled-named p (omega arith))
      ∙ get-blit_outside 8 numbered name (256 * i) 0 248 (256 * i + 248) (omega arith)
      ∙ word-put_self blk (256 * i + 248) num h

  name-filled : (k : ℕ) → k < 247 → filled (256 * i + k) ≡ name k
  name-filled k h =
      filled-named (256 * i + k) (omega arith)
      ∙ blit-inside numbered name (256 * i) 0 248 k (omega arith)
      ∙ ap name (omega arith)

  end-filled : filled (256 * i + 247) ≡ 0
  unfolding fill_entry poke
  end-filled = ground arith

  other-filled : (p : ℕ) → (p < 256 * i) ⊎ (256 * i + 256 ≤ p) → filled p ≡ blk p
  other-filled p h =
      filled-named p (omega arith)
      ∙ blit-outside numbered name (256 * i) 0 248 p (omega arith)
      ∙ put-outside 8 blk (256 * i + 248) num p (omega arith)

-- `blk'` is `blk` with the entry `i` filled: its number, the first 247 bytes of its name and the NUL
-- behind them. All other entries have the same bytes.
pub record IsFilled (blk name : Bytes) (num i : ℕ) (blk' : Bytes) : Type 0 where
  pub number : entry_inode_num blk' i ≡ num
  pub text : (k : ℕ) → k < 247 → blk' (256 * i + k) ≡ name k
  pub nul : blk' (256 * i + 247) ≡ 0
  pub others : (p : ℕ) → (p < 256 * i) ⊎ (256 * i + 256 ≤ p) → blk' p ≡ blk p

-- What put_directory_file_entry returns for a block.
abbrev pub IsPut : (blk name : Bytes) → (num : ℕ) → Res Bytes → Type 0
IsPut blk name num (ok blk') =
    (i : ℕ) × IsFirst (is_free blk) 0 16 (some i) × IsFilled blk name num i blk'
IsPut blk name num (fail e) = (e ≡ enospc) × IsFirst (is_free blk) 0 16 none
IsPut blk name num crash = ⊥

put_in-IsPut :
    (blk name : Bytes) (num : ℕ) (o : Option ℕ)
    → num < 2 ^ 64
    → IsFirst (is_free blk) 0 16 o
    → IsPut blk name num (put_in o blk name num)
unfolding put_in
put_in-IsPut blk name num none small first = (refl, first)
put_in-IsPut blk name num (some i) small first = (
  i,
  first,
  record {
    number = num-filled blk name i num small;
    text = name-filled blk name i num;
    nul = end-filled blk name i num;
    others = other-filled blk name i num;
  },
)

-- put_directory_file_entry fills the first free entry of the block and leaves all others alone. It
-- fails with ENOSPC exactly if none of the 16 entries is free.
pub put_directory_file_entry-IsPut :
    (blk name : Bytes) (num : ℕ)
    → num < 2 ^ 64
    → IsPut blk name num (put_directory_file_entry blk name num)
unfolding put_directory_file_entry
put_directory_file_entry-IsPut blk name num small =
    put_in-IsPut blk name num (free_entry_from 16 0 blk) small (free_entry_from-IsFirst 16 0 blk)
