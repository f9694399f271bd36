-- ===== src/Bytes/Blit.antt =====
-- Copies between memories.
use uwufs.Base.{ℕ, ◌+◌, ◌-◌, ◌≤◌, ◌<◌, ◌≡◌, ◌⊎◌, arith}
use uwufs.Bytes.{Bytes, get, blit}
use native.Mathlib.Nat.{add_assoc}
use uwufs.Bytes.Fields.{get-cong, get-shift}

add-sub_cancel : (a i : ℕ) → a + i - a ≡ i
add-sub_cancel a i = omega arith

pub blit-inside :
    (dst src : Bytes) (at from n i : ℕ) → i < n → blit dst at src from n (at + i) ≡ src (from + i)
unfolding blit
blit-inside dst src at from n i h = ground (arith, add-sub_cancel at i)

pub blit-outside :
    (dst src : Bytes) (at from n i : ℕ) → (i < at) ⊎ (at + n ≤ i) → blit dst at src from n i ≡ dst i
unfolding blit
blit-outside dst src at from n i h = ground arith

-- A field that lies apart from the copied bytes keeps its value.
pub get-blit_outside :
    (m : ℕ) (dst src : Bytes) (at from n i : ℕ)
    → (i + m ≤ at) ⊎ (at + n ≤ i)
    → get m (blit dst at src from n) i ≡ get m dst i
get-blit_outside m dst src at from n i apart =
    get-cong m (blit dst at src from n) dst i
      (λ k lo hi. blit-outside dst src at from n k (ground arith))

-- A field that lies within the copied bytes has the value that it has in the source.
pub get-blit_inside :
    (m : ℕ) (dst src : Bytes) (at from n i : ℕ)
    → i + m ≤ n
    → get m (blit dst at src from n) (at + i) ≡ get m src (from + i)
get-blit_inside m dst src at from n i fits =
    get-shift m (blit dst at src from n) src (at + i) (from + i)
      (λ k h. rw (add_assoc, add_assoc) (blit-inside dst src at from n (i + k) (omega arith)))

-- A copy to the start of a memory.
pub blit-start : (dst src : Bytes) (from n i : ℕ) → i < n → blit dst 0 src from n i ≡ src (from + i)
unfolding blit
blit-start dst src from n i h = ground (arith, add-sub_cancel 0 i)
