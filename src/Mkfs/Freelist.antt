-- ===== src/Mkfs/Freelist.antt =====
-- init_freelist links the blocks of the data region in order.
use uwufs.Base.{
  ltb, ltb→lt, not_ltb→le, eq→==, ℕ, zero, suc, ◌+◌, ◌-◌, ◌/◌, ◌%◌, ◌^◌, ◌≤◌, ◌<◌, ◌≡◌, refl, ◌⊎◌,
  inl, inr, ap, ◌∙◌, false, List, [], ◌∷◌, has, arith, ◌==◌, le→leb, ne→not_==, Bool-cases, ==→eq,
  not_==→ne, subst, ◌≢◌,
}
use uwufs.Bytes.{Bytes}
use uwufs.Machine.{Machine, ok, crash, Works, put_block}
use uwufs.Block.Access.{
  write_blk-ok, Works-put_block, size-put_block, block-put_block_self, block-put_block_ne,
}
use uwufs.Layout.{next_free_blk, set_next_free_blk}
use uwufs.Layout.Laws.{word-put_self}
use uwufs.Freelist.Chain.{Chain}
use uwufs.Mkfs.{link_blks, init_freelist}

-- The `n` blocks from `cur` on, in order.
unfoldable pub blks_from : (n cur : ℕ) → List ℕ
blks_from zero cur = []
blks_from (suc n) cur = cur ∷ blks_from n (cur + 1)

has-blks_from : (n cur a : ℕ) → a < cur → has a (blks_from n cur) ≡ false
unfolding blks_from
has-blks_from zero cur a h = refl
has-blks_from (suc n) cur a h = ground (arith, has-blks_from n (cur + 1) a)

-- What `link_blks` leaves: each of the blocks names the next one, and no other block has changed.
record IsLinked (d : Machine) (cur left : ℕ) (d' : Machine) : Type 0 where
  works : Works d'
  size : d'.size ≡ d.size
  links : (k : ℕ) → cur ≤ k → k < cur + left → next_free_blk (d'.block k) ≡ k + 1
  others : (k : ℕ) → (k < cur) ⊎ (cur + left ≤ k) → d'.block k ≡ d.block k

abbrev linked : Bytes → ℕ → Bytes
linked buf cur = set_next_free_blk buf (cur + 1)

module _ (d : Machine) (cur : ℕ) {d' : Machine} {left : ℕ} (buf : Bytes) (small : cur + 1 < 2 ^ 64)
    (is : IsLinked (put_block d cur (linked buf cur)) (cur + 1) left d') where
  first-linked : next_free_blk (d'.block cur) ≡ cur + 1
  first-linked =
      ap next_free_blk (is.others cur (omega arith) ∙ block-put_block_self d cur (linked buf cur))
      ∙ word-put_self buf 0 (cur + 1) small

  IsLinked-suc : IsLinked d cur (suc left) d'
  IsLinked-suc = record {
    works = is.works;
    size = is.size ∙ size-put_block d cur (linked buf cur);
    links = λ k ge lt. elim (Bool-cases (cur == k)) [
      | inl e ↦
          let at : cur ≡ k = ==→eq cur k e in
          subst (λ k. next_free_blk (d'.block k) ≡ k + 1) at first-linked
      | inr ne ↦ let off : cur ≢ k = not_==→ne cur k ne in is.links k (omega arith) (omega arith)
    ];
    others = λ k h.
        is.others k (omega arith) ∙ block-put_block_ne d cur k (linked buf cur) (omega arith);
  }

IsLinked-none : (cur : ℕ) (d : Machine) → Works d → IsLinked d cur 0 d
IsLinked-none cur d w = record {
  works = w;
  size = refl;
  links = λ k ge lt. absurd (omega arith);
  others = λ k h. refl;
}

module _ (size : ℕ) (big : 10 ≤ size) where
  link_blks-IsLinked :
      (left cur : ℕ) (d : Machine)
      → Works d
      → cur + left ≤ d.size
      → (d' : Machine) × (link_blks left cur size d ≡ (ok tt, d')) × IsLinked d cur left d'
  unfolding link_blks
  link_blks-IsLinked zero cur d w fits = (d, refl, IsLinked-none cur d w)
  link_blks-IsLinked (suc left) cur d w fits =
      let e = put_block d cur (linked d.stack cur) in
      let (d', run, is) =
        link_blks-IsLinked left (cur + 1) e (Works-put_block cur (linked d.stack cur) w)
          (rw size-put_block (omega arith)) in
      (
        d',
        rw
            (
              ne→not_== (size / 10) 0 (omega arith),
              write_blk-ok cur w (omega arith) (linked d.stack cur),
            )
            run,
        IsLinked-suc d cur d.stack (omega (arith, w.small)) is,
      )

Chain-blks_from :
    (b : ℕ → Bytes) (lo hi n cur : ℕ)
    → lo ≤ cur
    → cur + n < hi
    → ((k : ℕ) → cur ≤ k → k < cur + n → next_free_blk (b k) ≡ k + 1)
    → next_free_blk (b (cur + n)) ≡ 0
    → Chain b lo hi cur (blks_from (suc n) cur)
unfolding blks_from
Chain-blks_from b lo hi zero cur ge lt links last =
    (refl, ge, omega arith, refl, ap (λ k. next_free_blk (b k)) (omega arith) ∙ last)
Chain-blks_from b lo hi (suc n) cur ge lt links last = (
  refl,
  ge,
  omega arith,
  has-blks_from (suc n) (cur + 1) cur (omega arith),
  rw (links cur (omega arith) (omega arith)) (
      Chain-blks_from b lo hi n (cur + 1) (omega arith) (omega arith)
        (λ k lo' hi'. links k (omega arith) (omega arith))
        (ap (λ k. next_free_blk (b k)) (omega arith) ∙ last)),
)

module _ (d d' : Machine) (total start size : ℕ) (w : Works d) (some_blks : 0 < size)
    (fits : start + size ≤ total) (on : total ≤ d.size)
    (run : link_blks (size - 1) start size d ≡ (ok tt, d'))
    (is : IsLinked d start (size - 1) d') where
  abbrev last : ℕ
  last = start + (size - 1)

  abbrev done : Machine
  done = put_block d' last (set_next_free_blk d'.stack 0)

  init_freelist-done : init_freelist total start size d ≡ (ok start, done)
  unfolding init_freelist
  init_freelist-done =
      let no_wrap : (start + size) % 2 ^ 64 ≡ start + size = omega (arith, w.small) in
      let rounds : start + size - 1 - start ≡ size - 1 = omega arith in
      rw (
        no_wrap,
        le→leb (start + size) total fits,
        rounds,
        run,
        write_blk-ok last is.works (rw is.size (omega arith)) (set_next_free_blk d'.stack 0),
      )

  Chain-done : Chain done.block start (start + size) start (blks_from size start)
  Chain-done =
      subst (λ n. Chain done.block start (start + size) start (blks_from n start)) (omega arith)
        (Chain-blks_from done.block start (start + size) (size - 1) start (omega arith)
          (omega arith)
          (λ k ge lt.
            ap next_free_blk (block-put_block_ne d' last k _ (omega arith)) ∙ is.links k ge lt)
          (ap next_free_blk (block-put_block_self d' last _)
            ∙ word-put_self d'.stack 0 0 (omega arith)))

-- What init_freelist leaves, on a device that works and for a region on it.
pub record IsLaidOut (d : Machine) (start size : ℕ) (d' : Machine) : Type 0 where
  pub works : Works d'
  pub size_same : d'.size ≡ d.size
  pub chain : Chain d'.block start (start + size) start (blks_from size start)
  pub others : (k : ℕ) → (k < start) ⊎ (start + size ≤ k) → d'.block k ≡ d.block k

-- The loop links one block less than the region has: none, or so many that a tenth of them is not 0.
region-IsLinked :
    (d : Machine) (start size : ℕ)
    → Works d
    → (size ≡ 1) ⊎ (10 ≤ size)
    → start + size ≤ d.size
    → (d' : Machine) × (link_blks (size - 1) start size d ≡ (ok tt, d'))
      × IsLinked d start (size - 1) d'
unfolding link_blks
region-IsLinked d start size w (inl e) fits =
    let none_left : 0 ≡ size - 1 = omega arith in
    (
      d,
      ap (λ n. link_blks n start size d) {y = 0} (omega arith),
      subst (λ n. IsLinked d start n d) none_left (IsLinked-none start d w),
    )
region-IsLinked d start size w (inr big) fits =
    link_blks-IsLinked size big (size - 1) start d w (omega arith)

region-IsLaidOut :
    (d : Machine) (total start size : ℕ)
    → Works d
    → (size ≡ 1) ⊎ (10 ≤ size)
    → start + size ≤ total
    → total ≤ d.size
    → (d' : Machine) × (init_freelist total start size d ≡ (ok start, d'))
      × IsLaidOut d start size d'
region-IsLaidOut d total start size w fine fits on =
    let (d', run, is) = region-IsLinked d start size w fine (omega arith) in
    let some_blks : 0 < size = ground arith in
    let last : ℕ = start + (size - 1) in
    (
      put_block d' last (set_next_free_blk d'.stack 0),
      init_freelist-done d d' total start size w some_blks fits on run is,
      record {
        works = Works-put_block last (set_next_free_blk d'.stack 0) is.works;
        size_same = size-put_block d' last (set_next_free_blk d'.stack 0) ∙ is.size;
        chain = Chain-done d d' total start size w some_blks fits on run is;
        others = λ k off. block-put_block_ne d' last k _ (omega arith) ∙ is.others k (omega arith);
      },
    )

-- A region of at least 10 blocks, as mkfs wants it.
pub init_freelist_lem :
    (d : Machine) (total start size : ℕ)
    → Works d
    → 10 ≤ size
    → start + size ≤ total
    → total ≤ d.size
    → (d' : Machine) × (init_freelist total start size d ≡ (ok start, d'))
      × IsLaidOut d start size d'
init_freelist_lem d total start size w big fits on =
    region-IsLaidOut d total start size w (inr big) fits on

-- The progress report divides by a tenth of the number of blocks.
init_freelist-crash :
    (d : Machine) (total start size : ℕ)
    → 2 ≤ size
    → size < 10
    → start + size ≤ total
    → total < 2 ^ 64
    → init_freelist total start size d ≡ (crash, d)
unfolding init_freelist
init_freelist-crash d total start size ge lt fits small =
    let no_wrap : (start + size) % 2 ^ 64 ≡ start + size = omega arith in
    let rounds : start + size - 1 - start ≡ suc (size - 2) = omega arith in
    rw (no_wrap, le→leb (start + size) total fits, rounds, eq→== (size / 10) 0 (omega arith)) refl

-- On a device that works, for a region of one block at least that lies on it: init_freelist of one block
-- or of 10 and more returns the first block of the region, from which the links then lead through all
-- blocks of the region in order, and no block outside of it has changed. For 2 to 9 blocks it ends the
-- process, with nothing written, since its progress report divides by a tenth of the number.
pub init_freelist-Outcome :
    (d : Machine) (total start size : ℕ)
    → Works d
    → 0 < size
    → start + size ≤ total
    → total ≤ d.size
    → (((size ≡ 1) ⊎ (10 ≤ size))
        × ((d' : Machine) × (init_freelist total start size d ≡ (ok start, d'))
            × IsLaidOut d start size d'))
      ⊎ ((2 ≤ size) × (size < 10) × (init_freelist total start size d ≡ (crash, d)))
init_freelist-Outcome d total start size w some_blks fits on = elim (Bool-cases (size == 1)) [
  | inl e ↦
      let fine : (size ≡ 1) ⊎ (10 ≤ size) = inl (==→eq size 1 e) in
      inl (fine, region-IsLaidOut d total start size w fine fits on)
  | inr ne ↦
      let more : size ≢ 1 = not_==→ne size 1 ne in
      elim (Bool-cases (ltb size 10)) [
        | inr big ↦
            let fine : (size ≡ 1) ⊎ (10 ≤ size) = inr (not_ltb→le size 10 big) in
            inl (fine, region-IsLaidOut d total start size w fine fits on)
        | inl few ↦
            let lt = ltb→lt size 10 few in
            inr (
              omega arith,
              lt,
              init_freelist-crash d total start size (omega arith) lt fits (omega (arith, w.small)),
            )
      ]
]
