-- ===== src/Blockmap/Remove/Undo.antt =====
-- remove_dblk after append_dblk.
use uwufs.Base.{ℕ, ◌^◌, ◌<◌, ◌≡◌, ap, subst, ◌∙◌, List, ◌∷◌}
use uwufs.Bytes.{Bytes}
use uwufs.Machine.{Machine, ok}
use uwufs.Freelist.Chain.{IsFreelist}
use uwufs.Blockmap.{append_dblk, get_dblk}
use uwufs.Blockmap.Growth.{HasRoot, append_dblk_lem}
use uwufs.Blockmap.Remove.{remove_dblk}
use uwufs.Blockmap.Remove.Single.{remove_dblk_lem}

-- For an index below 522, where two blocks at least are on the free list, and a single indirect block
-- that is in use is in the data region and not on the free list: append_dblk succeeds, and
-- remove_dblk at the same index then returns the block that was appended and an inode with which
-- get_dblk returns at every smaller index what it did before both. The free list is what it was.
pub remove_dblk-append_dblk :
    (d : Machine) (lo hi x y : ℕ) (ino : Bytes) (index n : ℕ) (ys : List ℕ)
    → IsFreelist d lo hi (x ∷ y ∷ ys)
    → HasRoot lo hi ino index (x ∷ y ∷ ys)
    → index < 522
    → n < 2 ^ 64
    → let d' = (append_dblk ino index n d).1 in
      (ino' : Bytes) × ((append_dblk ino index n d).0 ≡ ok (n, ino'))
      × (ino'' : Bytes) × ((remove_dblk ino' index d').0 ≡ ok (n, ino''))
      × ((j : ℕ) → j < index → get_dblk ino'' j (remove_dblk ino' index d').1 ≡ get_dblk ino j d)
      × IsFreelist (remove_dblk ino' index d').1 lo hi (x ∷ y ∷ ys)
remove_dblk-append_dblk d lo hi x y ino index n ys f root lt small =
    let (ino', done, new, before, free, held, all) =
      append_dblk_lem d lo hi x y ino index n ys f root lt small in
    let (ino'', done', before', free') =
      remove_dblk_lem (append_dblk ino index n d).1 lo hi ino' index _ free held lt in
    (
      ino',
      done,
      ino'',
      done' ∙ ap (λ k. ok (k, ino'')) new,
      λ j h. before' j h ∙ before j h,
      subst (IsFreelist (remove_dblk ino' index (append_dblk ino index n d).1).1 lo hi) all free',
    )
