-- ===== src/Bytes/Fields.antt =====
-- Reading back an assigned field, and the fields that an assignment leaves alone.
use uwufs.Base.{ℕ, zero, suc, ◌+◌, ◌*◌, ◌/◌, ◌%◌, ◌^◌, ◌≤◌, ◌<◌, ◌≡◌, ◌≢◌, ◌⊎◌, inl, refl, arith}
use native.Mathlib.Nat.{pow-suc, add-zero, add_assoc}
use uwufs.Bytes.{Bytes, poke, get, put}

-- Bytes outside of the field stay.
pub put-outside : (n : ℕ) (b : Bytes) (i v j : ℕ) → (j < i) ⊎ (i + n ≤ j) → put n b i v j ≡ b j
unfolding put poke
put-outside zero b i v j h = refl
put-outside (suc n) b i v j h =
    ground (arith, put-outside n (poke b i (v % 256)) (i + 1) (v / 256) j)

pub get-cong :
    (n : ℕ) (b c : Bytes) (i : ℕ)
    → ((j : ℕ) → i ≤ j → j < i + n → b j ≡ c j)
    → get n b i ≡ get n c i
unfolding get
get-cong zero b c i h = refl
get-cong (suc n) b c i h = rw (
  h i (omega arith) (omega arith),
  get-cong n b c (i + 1) (λ j lo hi. h j (omega arith) (omega arith)),
)

-- Two places that hold the same bytes hold the same value.
pub get-shift :
    (n : ℕ) (b c : Bytes) (i j : ℕ)
    → ((k : ℕ) → k < n → b (i + k) ≡ c (j + k))
    → get n b i ≡ get n c j
unfolding get
get-shift zero b c i j h = refl
get-shift (suc n) b c i j h =
    let first : b i ≡ c j = rw (add-zero, add-zero) at (h 0 (omega arith)) in
    rw (
      first,
      get-shift n b c (i + 1) (j + 1) (λ k lt. rw (add_assoc, add_assoc) (h (1 + k) (omega arith))),
    )

-- A field that an assignment does not overlap keeps its value.
pub get-put_ne :
    (n m : ℕ) (b : Bytes) (i j v : ℕ)
    → (i + n ≤ j) ⊎ (j + m ≤ i)
    → get n (put m b j v) i ≡ get n b i
get-put_ne n m b i j v apart =
    get-cong n (put m b j v) b i (λ k lo hi. put-outside m b j v k (ground arith))

pub get-lt : (n : ℕ) (b : Bytes) (i : ℕ) → get n b i < 256 ^ n
unfolding get
get-lt zero b i = omega arith
get-lt (suc n) b i = rw pow-suc (omega (arith, get-lt n b (i + 1)))

-- A value that fits comes back.
pub get-put_self : (n : ℕ) (b : Bytes) (i v : ℕ) → v < 256 ^ n → get n (put n b i v) i ≡ v
unfolding get put poke
get-put_self zero b i v h = omega arith
get-put_self (suc n) b i v h =
    let fits : v < 256 ^ n * 256 = rw pow-suc at h in
    rw
      (
        put-outside n (poke b i (v % 256)) (i + 1) (v / 256) i (inl (omega arith)),
        get-put_self n (poke b i (v % 256)) (i + 1) (v / 256) (omega arith),
      )
      (ground arith)

pub poke-outside : (b : Bytes) (i v j : ℕ) → i ≢ j → poke b i v j ≡ b j
unfolding poke
poke-outside b i v j h = ground arith
