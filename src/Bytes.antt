-- ===== src/Bytes.antt =====
-- Memory. A block, a buffer and a packed struct of uwufs.h are all one thing in the C code: bytes at
-- offsets, read through a cast. So a struct is its bytes, and a field is a number of bytes at an
-- offset, least significant first (the code runs on x86_64). A cell is read modulo 256, so any
-- function from offsets to numbers is a memory.
pub mod Fields
pub mod Blit
use uwufs.Base.{ℕ, zero, suc, ◌+◌, ◌-◌, ◌*◌, ◌/◌, ◌%◌, ◌&&◌, ltb, leb, ◌==◌, if◌then◌else◌}

abbrev pub Bytes : Type 0
Bytes = ℕ → ℕ

-- memset(p, 0, n)
abbrev pub zeros : Bytes
zeros = λ _. 0

unfoldable pub poke : Bytes → ℕ → ℕ → Bytes
poke b i v = λ j. if i == j then v else b j

-- The value of the `n` bytes at an offset.
unfoldable pub get : ℕ → Bytes → ℕ → ℕ
get zero b i = 0
get (suc n) b i = b i % 256 + 256 * get n b (i + 1)

-- Assignment to the `n` bytes at an offset: what does not fit is dropped.
unfoldable pub put : ℕ → Bytes → ℕ → ℕ → Bytes
unfolding poke
put zero b i v = b
put (suc n) b i v = put n (poke b i (v % 256)) (i + 1) (v / 256)

-- memcpy(dst + at, src + from, n)
unfoldable pub blit : Bytes → ℕ → Bytes → ℕ → ℕ → Bytes
blit dst at src from n = λ i. if leb at i && ltb i (at + n) then src (from + (i - at)) else dst i
