-- ===== src/File/Map/Table.antt =====
-- A write to a block before the data region, as to the inode table.
use uwufs.Base.{
  ℕ, ◌*◌, ◌/◌, ◌%◌, ◌≤◌, ◌<◌, ◌≡◌, ◌≢◌, refl, ap, ◌∙◌, false, List, [], ◌∷◌, has, arith,
}
use uwufs.Bytes.{Bytes}
use uwufs.Machine.{Machine, put_block}
use uwufs.Block.Access.{block-put_block_ne}
use uwufs.Layout.{next_free_blk}
use uwufs.Freelist.Chain.{Chain, IsFreelist}
use uwufs.Blockmap.{get_dblk}
use uwufs.Blockmap.Append.{IsFreelist-put_block}
use uwufs.Blockmap.Parts.File.{IsMapNode}
use uwufs.File.Map.{IsFile, IsFileBlk}
use uwufs.File.Map.Keep.{IsMapNode-IsTaken, IsFile-kept, IsFileBlk-kept, get_dblk-kept}
use uwufs.File.Read.Aligned.{file_byte}

-- The blocks of the free list are in the data region.
pub Chain-before :
    (blk : ℕ → Bytes) (lo hi k : ℕ) (xs : List ℕ) (h : ℕ)
    → Chain blk lo hi h xs
    → k < lo
    → has k xs ≡ false
Chain-before blk lo hi k [] h c lt = refl
Chain-before blk lo hi k (x ∷ xs) h (e, ge, top, out, rest) lt =
    let later : has k xs ≡ false = Chain-before blk lo hi k xs (next_free_blk (blk x)) rest lt in
    let ne : k ≢ x = omega arith in ground arith

module _ (lo hi : ℕ) (xs : List ℕ) (d : Machine) (ino : Bytes) (count k : ℕ) (c : Bytes)
    (f : IsFreelist d lo hi xs) (file : IsFile lo hi xs d ino count) (most : count ≤ 134480394)
    (some_block : 0 < k) (before : k < lo) where
  abbrev pub tabled : Machine
  tabled = put_block d k c

  pub IsFreelist-tabled : IsFreelist tabled lo hi xs
  IsFreelist-tabled =
      IsFreelist-put_block k c f (omega arith) (Chain-before d.block lo hi k xs _ f.chain before)

  node-tabled : (p i : ℕ) → IsMapNode d ino count p i → tabled.block i ≡ d.block i
  node-tabled p i node =
      let (ge, top, out) = IsMapNode-IsTaken file.map p i node in
      block-put_block_ne d k i c (omega arith)

  pub IsFile-tabled : IsFile lo hi xs tabled ino count
  IsFile-tabled =
      IsFile-kept lo hi xs xs d tabled ino count f IsFreelist-tabled file.map (λ _ _ _ h. h)
        node-tabled most (λ _ _ h. h) file

  pub file_byte-tabled : (p : ℕ) → p < 4096 * count → file_byte ino p tabled ≡ file_byte ino p d
  file_byte-tabled p lt =
      let in_file : p / 4096 < count = omega arith in
      let (ge, top, out) = file.taken (p / 4096) in_file in
      ap (λ n. tabled.block n (p % 4096))
        (get_dblk-kept lo hi xs xs d tabled ino count f IsFreelist-tabled file.map (λ _ _ _ h. h)
          node-tabled (p / 4096) most in_file)
      ∙ ap (λ (b : Bytes). b (p % 4096))
          (block-put_block_ne d k (get_dblk ino (p / 4096) d) c (omega arith))

  pub IsFileBlk-tabled : (i : ℕ) → IsFileBlk tabled ino count i → IsFileBlk d ino count i
  IsFileBlk-tabled =
      IsFileBlk-kept lo hi xs xs d tabled ino count f IsFreelist-tabled file.map (λ _ _ _ h. h)
        node-tabled most
