-- ===== src/Blockmap/Forest/Count.antt =====
-- How many of the first `n` indices lie under an entry that names `w` of them.
use uwufs.Base.{ℕ, zero, suc, ◌+◌, ◌-◌, ◌*◌, ◌/◌, ◌%◌, ◌^◌, ◌≤◌, ◌<◌, ◌≡◌, min, arith}
use native.Mathlib.Nat.{pow-suc}

abbrev pub width : ℕ → ℕ
width level = 512 ^ suc level

abbrev pub count : (w n i : ℕ) → ℕ
count w n i = min w (n - i * w)

pub width-pos : (level : ℕ) → 0 < width level
width-pos zero = omega arith
width-pos (suc level) = rw pow-suc (omega (arith, width-pos level))

pub div-mod_eq : (n w : ℕ) → 0 < w → n ≡ n / w * w + n % w
div-mod_eq n w h = grind arith

pub rem-lt : (n w : ℕ) → 0 < w → n % w < w
rem-lt n w h = grind arith

-- The entries before the last one are full before and after one index more.
pub count-full : (w q rem i : ℕ) → i < q → count w (q * w + rem) i ≡ w
count-full w q rem i h = grind arith

pub count-last : (w q rem : ℕ) → rem ≤ w → count w (q * w + rem) q ≡ rem
count-last w q rem h = grind arith

pub entry-le : (w q rem i : ℕ) → rem < w → i * w < q * w + rem + 1 → i ≤ q
entry-le w q rem i h lt = grind arith

-- Where an index below `n` lies.
pub div-lt : (w n i : ℕ) → 0 < w → i < n → i / w * w < n
div-lt w n i h lt = grind arith

pub rem-lt_count : (w n i : ℕ) → 0 < w → i < n → i % w < count w n (i / w)
rem-lt_count w n i h lt = grind (arith, div-mod_eq i w h, rem-lt i w h)
