-- ===== src/Freelist/Room.antt =====
-- A chain has no more blocks than the region that it runs through.
use uwufs.Base.{
  ℕ, zero, suc, ◌+◌, ◌-◌, ◌≤◌, ◌<◌, ◌≡◌, refl, false, List, [], ◌∷◌, length, has, arith, ◌==◌,
  if◌then◌else◌,
}
use uwufs.Bytes.{Bytes}
use uwufs.Layout.{next_free_blk}
use uwufs.Freelist.Chain.{Chain}

abbrev Distinct : (lo hi : ℕ) → List ℕ → Type 0
Distinct lo hi [] = Unit
Distinct lo hi (x ∷ xs) = (lo ≤ x) × (x < hi) × (has x xs ≡ false) × Distinct lo hi xs

Chain-Distinct :
    (b : ℕ → Bytes) (lo hi h : ℕ) (xs : List ℕ) → Chain b lo hi h xs → Distinct lo hi xs
Chain-Distinct b lo hi h [] ch = tt
Chain-Distinct b lo hi h (x ∷ xs) (_, ge, lt, out, rest) =
    (ge, lt, out, Chain-Distinct b lo hi (next_free_blk (b x)) xs rest)

erase : ℕ → List ℕ → List ℕ
erase a [] = []
erase a (x ∷ xs) = if a == x then xs else x ∷ erase a xs

length-erase : (a : ℕ) (xs : List ℕ) → length xs ≤ length (erase a xs) + 1
unfolding erase
length-erase a [] = omega arith
length-erase a (x ∷ xs) = ground (arith, length-erase a xs)

has-erase : (a b : ℕ) (xs : List ℕ) → has b xs ≡ false → has b (erase a xs) ≡ false
unfolding erase
has-erase a b [] h = refl
has-erase a b (x ∷ xs) h = ground (arith, has-erase a b xs)

Distinct-shrink :
    (lo hi : ℕ) (xs : List ℕ) → Distinct lo (suc hi) xs → has hi xs ≡ false → Distinct lo hi xs
Distinct-shrink lo hi [] d h = tt
Distinct-shrink lo hi (x ∷ xs) (ge, lt, out, rest) h =
    (ge, ground arith, out, Distinct-shrink lo hi xs rest (ground arith))

Distinct-erase : (lo hi : ℕ) (xs : List ℕ) → Distinct lo (suc hi) xs → Distinct lo hi (erase hi xs)
unfolding erase
Distinct-erase lo hi [] d = tt
Distinct-erase lo hi (x ∷ xs) (ge, lt, out, rest) =
    ground
      (arith, Distinct-shrink lo hi xs rest, Distinct-erase lo hi xs rest, has-erase hi x xs out)

length-Distinct : (lo hi : ℕ) (xs : List ℕ) → Distinct lo hi xs → length xs ≤ hi - lo
length-Distinct lo hi [] d = omega arith
length-Distinct lo zero (x ∷ xs) d = absurd (omega arith)
length-Distinct lo (suc hi) (x ∷ xs) d = omega (
  arith,
  length-erase hi (x ∷ xs),
  length-Distinct lo hi (erase hi (x ∷ xs)) (Distinct-erase lo hi (x ∷ xs) d),
)

pub length-Chain :
    (b : ℕ → Bytes) (lo hi h : ℕ) (xs : List ℕ) → Chain b lo hi h xs → length xs ≤ hi - lo
length-Chain b lo hi h xs ch = length-Distinct lo hi xs (Chain-Distinct b lo hi h xs ch)
