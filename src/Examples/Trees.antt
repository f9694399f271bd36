-- ===== src/Examples/Trees.antt =====
-- The theorems on files of many blocks, at a device with the blocks 6 to 10 free.
use uwufs.Base.{ℕ, zero, suc, ◌<◌, ◌≡◌, refl, List, [], ◌∷◌, arith, ◌==◌, if◌then◌else◌}
use uwufs.Bytes.{Bytes, zeros, get, put, poke}
use uwufs.Machine.{Machine}
use uwufs.Layout.{set_next_free_blk, set_single_indirect_blks}
use uwufs.Freelist.Chain.{IsFreelist}
use uwufs.Blockmap.Parts.{base}
use uwufs.Blockmap.Parts.File.{IsMap, IsExtended}
use uwufs.Blockmap.Parts.Whole.{append_dblk-IsExtended}
use uwufs.Examples.{super, disk}

abbrev pub five : List ℕ
five = 6 ∷ 7 ∷ 8 ∷ 9 ∷ 10 ∷ []

abbrev pub roomy : Machine
roomy = record disk {
  block = λ k.
      if k == 0
      then super 6 4
      else if k == 6
      then set_next_free_blk zeros 7
      else if k == 7
      then set_next_free_blk zeros 8
      else if k == 8
      then set_next_free_blk zeros 9
      else if k == 9
      then set_next_free_blk zeros 10
      else zeros;
}

pub roomy-IsFreelist : IsFreelist roomy 6 64 five
unfolding get put poke
roomy-IsFreelist = record {
  region = record {
    works = record { small = omega arith; reads = λ _. refl; writes = λ _. refl };
    behind_super = omega arith;
    ordered = omega arith;
    within = omega arith;
    start = refl;
    extent = refl;
  };
  chain = (
    refl,
    omega arith,
    omega arith,
    refl,
    (
      refl,
      omega arith,
      omega arith,
      refl,
      (
        refl,
        omega arith,
        omega arith,
        refl,
        (refl, omega arith, omega arith, refl, (refl, omega arith, omega arith, refl, refl)),
      ),
    ),
  );
  count = refl;
}

-- A file of 522 blocks with the single indirect block 30.
abbrev long_file : Bytes
long_file = set_single_indirect_blks zeros 30

only_single : (p : ℕ) → p < 3 → base p < 522 → p ≡ 0
only_single zero h lt = refl
only_single (suc zero) h lt = absurd (omega arith)
only_single (suc (suc zero)) h lt = absurd (omega arith)
only_single (suc (suc (suc p))) h lt = absurd (omega arith)

long_file-IsMap : IsMap 6 64 five roomy long_file 522
unfolding get put poke
long_file-IsMap = record {
  trees = λ p h lt. rw (only_single p h lt) (omega arith, omega arith, refl);
  apart = λ p p' k n n'. rw (only_single p n.0 n.1, only_single p' n'.0 n'.1) refl;
}

append_dblk-IsExtended_example : IsExtended 6 64 five roomy long_file 522 40
append_dblk-IsExtended_example =
    append_dblk-IsExtended roomy 6 64 long_file 522 40 five roomy-IsFreelist long_file-IsMap
      (omega arith) (omega arith) (omega arith)
