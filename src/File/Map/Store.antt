-- ===== src/File/Map/Store.antt =====
-- Writes to the data blocks of a file.
use uwufs.Base.{
  ℕ, ◌+◌, ◌-◌, ◌*◌, ◌≤◌, ◌<◌, ◌≡◌, ◌≢◌, ◌⊎◌, inl, inr, refl, sym, ◌∙◌, List, arith, ltb, ltb→lt,
  not_ltb→le, Bool-cases,
}
use uwufs.Bytes.{Bytes}
use uwufs.Machine.{Machine, put_block}
use uwufs.Block.Access.{block-put_block_self, block-put_block_ne}
use uwufs.Freelist.Chain.{IsFreelist}
use uwufs.Blockmap.{get_dblk}
use uwufs.Blockmap.Append.{IsFreelist-put_block}
use uwufs.Blockmap.Parts.File.{IsMapNode}
use uwufs.File.Map.{IsFile, IsFileBlk}
use uwufs.File.Map.Keep.{IsFile-kept, IsFileBlk-kept, get_dblk-kept}
use uwufs.File.Read.Aligned.{file_byte}

-- On the way from `d` to `d'` the bytes of the file from `offset + a` up to `offset + b` were taken from
-- the buffer, and all others kept.
pub record IsStored (lo hi : ℕ) (xs : List ℕ) (ino : Bytes) (count offset : ℕ) (buf : Bytes)
    (a b : ℕ) (d d' : Machine) : Type 0 where
  pub freelist : IsFreelist d' lo hi xs
  pub file : IsFile lo hi xs d' ino count
  pub where_it_was : (j : ℕ) → j < count → get_dblk ino j d' ≡ get_dblk ino j d
  pub size_kept : d'.size ≡ d.size
  pub stored :
      (p : ℕ)
      → p < 4096 * count
      → offset + a ≤ p
      → p < offset + b
      → file_byte ino p d' ≡ buf (p - offset)
  pub kept :
      (p : ℕ)
      → p < 4096 * count
      → (p < offset + a) ⊎ (offset + b ≤ p)
      → file_byte ino p d' ≡ file_byte ino p d
  pub same_blks : (k : ℕ) → IsFileBlk d' ino count k → IsFileBlk d ino count k
  pub frame : (k : ℕ) → ¬ IsFileBlk d ino count k → d'.block k ≡ d.block k

pub IsStored-none :
    {lo hi : ℕ} {xs : List ℕ} {ino : Bytes} {count : ℕ} (offset : ℕ) (buf : Bytes) (a b : ℕ)
    {d : Machine}
    → b ≤ a
    → IsFreelist d lo hi xs
    → IsFile lo hi xs d ino count
    → IsStored lo hi xs ino count offset buf a b d d
IsStored-none offset buf a b le f file = record {
  freelist = f;
  file = file;
  where_it_was = λ j lt. refl;
  size_kept = refl;
  stored = λ p _ ge lt. absurd (omega arith);
  kept = λ p _ _. refl;
  same_blks = λ k b. b;
  frame = λ k _. refl;
}

pub IsStored-join :
    {lo hi : ℕ} {xs : List ℕ} {ino : Bytes} {count offset : ℕ} {buf : Bytes} {a b c : ℕ}
    {d e g : Machine}
    → a ≤ b
    → b ≤ c
    → IsStored lo hi xs ino count offset buf a b d e
    → IsStored lo hi xs ino count offset buf b c e g
    → IsStored lo hi xs ino count offset buf a c d g
IsStored-join {offset} {b} ab bc s t = record {
  freelist = t.freelist;
  file = t.file;
  where_it_was = λ j lt. t.where_it_was j lt ∙ s.where_it_was j lt;
  size_kept = t.size_kept ∙ s.size_kept;
  stored = λ p top ge lt. elim (Bool-cases (ltb p (offset + b))) [
    | inl h ↦ let lt' = ltb→lt p (offset + b) h in t.kept p top (inl lt') ∙ s.stored p top ge lt'
    | inr h ↦ t.stored p top (not_ltb→le p (offset + b) h) lt
  ];
  kept = λ p top out. t.kept p top (ground arith) ∙ s.kept p top (ground arith);
  same_blks = λ k b. s.same_blks k (t.same_blks k b);
  frame = λ k out. t.frame k (λ b. out (s.same_blks k b)) ∙ s.frame k out;
}

module _ (lo hi : ℕ) (xs : List ℕ) (d : Machine) (ino : Bytes) (count : ℕ)
    (f : IsFreelist d lo hi xs) (file : IsFile lo hi xs d ino count) (most : count ≤ 134480394)
    (j : ℕ) (in_file : j < count) (c : Bytes) where
  abbrev pub stored_at : Machine
  stored_at = put_block d (get_dblk ino j d) c

  pub IsFreelist-stored : IsFreelist stored_at lo hi xs
  IsFreelist-stored =
      let (ge, _, out) = file.taken j in_file in
      IsFreelist-put_block (get_dblk ino j d) c f (omega (arith, ge, f.behind_super)) out

  node-stored : (p k : ℕ) → IsMapNode d ino count p k → stored_at.block k ≡ d.block k
  node-stored p k node =
      block-put_block_ne d (get_dblk ino j d) k c (λ e. file.own j p in_file (rw e node))

  pub IsFile-stored : IsFile lo hi xs stored_at ino count
  IsFile-stored =
      IsFile-kept lo hi xs xs d stored_at ino count f IsFreelist-stored file.map (λ _ _ _ h. h)
        node-stored most (λ _ _ h. h) file

  pub get_dblk-stored : (i : ℕ) → i < count → get_dblk ino i stored_at ≡ get_dblk ino i d
  get_dblk-stored i lt =
      get_dblk-kept lo hi xs xs d stored_at ino count f IsFreelist-stored file.map (λ _ _ _ h. h)
        node-stored i most lt

  pub block-stored_self : stored_at.block (get_dblk ino j stored_at) ≡ c
  block-stored_self = rw (get_dblk-stored j in_file) (block-put_block_self d (get_dblk ino j d) c)

  pub block-stored_ne :
      (i : ℕ)
      → i < count
      → i ≢ j
      → stored_at.block (get_dblk ino i stored_at) ≡ d.block (get_dblk ino i d)
  block-stored_ne i lt ne = rw (get_dblk-stored i lt) (
      block-put_block_ne d (get_dblk ino j d) (get_dblk ino i d) c
        (λ e. ne (sym (file.distinct j i in_file lt e))))

  pub IsFileBlk-stored : (k : ℕ) → IsFileBlk stored_at ino count k → IsFileBlk d ino count k
  IsFileBlk-stored =
      IsFileBlk-kept lo hi xs xs d stored_at ino count f IsFreelist-stored file.map (λ _ _ _ h. h)
        node-stored most

  pub block-stored_other : (k : ℕ) → ¬ IsFileBlk d ino count k → stored_at.block k ≡ d.block k
  block-stored_other k out =
      block-put_block_ne d (get_dblk ino j d) k c (λ e. out (inl (j, in_file, e)))
