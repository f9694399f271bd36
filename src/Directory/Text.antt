-- ===== src/Directory/Text.antt =====
-- Texts in buffers.
use uwufs.Base.{
  ℕ, zero, suc, ◌+◌, ◌%◌, ◌≤◌, ◌<◌, ◌≡◌, refl, ap, ◌∙◌, inl, inr, true, ◌==◌, ==→eq, Bool-cases,
  List, [], ◌∷◌, length, arith, ne→not_==, subst,
}
use uwufs.Bytes.{Bytes, poke}
use uwufs.Directory.{c_str, c_bytes, same_text}

-- The characters of a text: bytes other than NUL.
abbrev pub IsText : List ℕ → Type 0
IsText [] = Unit
IsText (c ∷ cs) = (0 < c) × (c < 256) × IsText cs

-- The text, and a NUL behind it, lie at the offset.
abbrev pub Holds : Bytes → ℕ → List ℕ → Type 0
Holds b i [] = b i ≡ 0
Holds b i (c ∷ cs) = (b i ≡ c) × Holds b (i + 1) cs

-- What a buffer holds is read, if it leaves room for the NUL.
pub c_str-Holds :
    (n : ℕ) (b : Bytes) (i : ℕ) (s : List ℕ)
    → IsText s
    → length s < n
    → Holds b i s
    → c_str n b i ≡ s
unfolding c_str
c_str-Holds zero b i s t h holds = absurd (omega arith)
c_str-Holds (suc n) b i [] t h holds = rw holds
c_str-Holds (suc n) b i (c ∷ cs) t h holds =
    let char : c % 256 ≡ c = omega (arith, t.0, t.1) in
    rw (
      holds.0,
      char,
      ne→not_== c 0 (omega (arith, t.0)),
      c_str-Holds n b (i + 1) cs t.2 (omega arith) holds.1,
    )

-- A place that has the same bytes up to `m`, and a NUL there, holds the same text.
pub Holds-shift :
    (m : ℕ) (b c : Bytes) (i j : ℕ) (s : List ℕ)
    → ((k : ℕ) → k < m → b (i + k) ≡ c (j + k))
    → b (i + m) ≡ 0
    → length s ≤ m
    → Holds c j s
    → Holds b i s
Holds-shift zero b c i j [] same nul h holds = ap b (omega arith) ∙ nul
Holds-shift zero b c i j (x ∷ xs) same nul h holds = absurd (omega arith)
Holds-shift (suc m) b c i j [] same nul h holds =
    ap b (omega arith) ∙ same 0 (omega arith) ∙ ap c (omega arith) ∙ holds
Holds-shift (suc m) b c i j (x ∷ xs) same nul h holds = (
  ap b (omega arith) ∙ same 0 (omega arith) ∙ ap c (omega arith) ∙ holds.0,
  Holds-shift m b c (i + 1) (j + 1) xs
      (λ k lt. ap b (omega arith) ∙ same (1 + k) (omega arith) ∙ ap c (omega arith))
      (ap b (omega arith) ∙ nul) (omega arith) holds.1,
)

c_bytes-suc :
    (buf : Bytes) (c : ℕ) (cs : List ℕ) (k : ℕ)
    → c_bytes buf (c ∷ cs) (1 + k) ≡ c_bytes (λ i. buf (i + 1)) cs k
unfolding c_bytes
c_bytes-suc buf c cs k =
    rw (ne→not_== (1 + k) 0 (omega arith)) (ap (c_bytes (λ i. buf (i + 1)) cs) (omega arith))

Holds-suc :
    (b c : Bytes) (i : ℕ) (s : List ℕ)
    → ((k : ℕ) → b (1 + k) ≡ c k)
    → Holds c i s
    → Holds b (1 + i) s
Holds-suc b c i [] same holds = same i ∙ holds
Holds-suc b c i (x ∷ xs) same holds = (
  same i ∙ holds.0,
  subst (λ k. Holds b k xs) (omega arith) (Holds-suc b c (i + 1) xs same holds.1),
)

pub Holds-c_bytes : (buf : Bytes) (s : List ℕ) → Holds (c_bytes buf s) 0 s
unfolding c_bytes poke
Holds-c_bytes buf [] = refl
Holds-c_bytes buf (c ∷ cs) = (
  refl,
  Holds-suc (c_bytes buf (c ∷ cs)) (c_bytes (λ i. buf (i + 1)) cs) 0 cs (c_bytes-suc buf c cs)
      (Holds-c_bytes (λ i. buf (i + 1)) cs),
)

-- A text is the same as itself.
pub same_text_self : (s : List ℕ) → same_text s s ≡ true
unfolding same_text
same_text_self [] = refl
same_text_self (c ∷ cs) = ground (arith, same_text_self cs)

-- Two places with the same bytes hold the same text.
pub c_str-cong :
    (n : ℕ) (b c : Bytes) (i : ℕ)
    → ((j : ℕ) → i ≤ j → j < i + n → b j ≡ c j)
    → c_str n b i ≡ c_str n c i
unfolding c_str
c_str-cong zero b c i h = refl
c_str-cong (suc n) b c i h = rw (
  h i (omega arith) (omega arith),
  c_str-cong n b c (i + 1) (λ j ge lt. h j (omega arith) (omega arith)),
)

-- And only texts that are the same are.
pub same_text-eq : (a b : List ℕ) → same_text a b ≡ true → a ≡ b
unfolding same_text
same_text-eq [] [] h = refl
same_text-eq [] (b ∷ ys) h = absurd (ground arith)
same_text-eq (a ∷ xs) [] h = absurd (ground arith)
same_text-eq (a ∷ xs) (b ∷ ys) h = elim (Bool-cases (a == b)) [
  | inl e ↦ rw (==→eq a b e, same_text-eq xs ys (ground arith)) refl
  | inr e ↦ absurd (ground arith)
]
