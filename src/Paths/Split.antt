-- ===== src/Paths/Split.antt =====
-- What split_path_parent_child and strtok_r make of a path.
use uwufs.Base.{
  ℕ, ◌≤◌, ◌<◌, ◌≡◌, refl, ap, subst, ◌∙◌, ◌⊎◌, inl, inr, Bool, true, false, Option, none, some,
  List, [], ◌∷◌, ◌++◌, length, has, arith, ltb, Bool-cases, ltb→lt, not_ltb→le,
}
use uwufs.Machine.{Res, ok, fail, crash, enoent, enametoolong}
use uwufs.Paths.{
  slash, fitting, split_last, split_path_parent_child, token, segments_from, segments,
}

-- The path in two at its last slash.
abbrev pub IsLastSlash : (path parent child : List ℕ) → Type 0
IsLastSlash path parent child = (path ≡ parent ++ slash ∷ child) × (has slash child ≡ false)

-- What the function returns for a path.
abbrev pub IsSplit : List ℕ → Res (List ℕ × List ℕ) → Type 0
IsSplit path (ok (parent, child)) = IsLastSlash path parent child × (length child < 248)
IsSplit path (fail e) =
    ((e ≡ enoent) × (has slash path ≡ false))
    ⊎ ((e ≡ enametoolong)
        × ((parent : List ℕ) × (child : List ℕ) × IsLastSlash path parent child
            × (248 ≤ length child)))
IsSplit path crash = ⊥

abbrev IsSplitAt : List ℕ → Option (List ℕ × List ℕ) → Type 0
IsSplitAt path none = has slash path ≡ false
IsSplitAt path (some (parent, child)) = IsLastSlash path parent child

split_last-IsSplitAt : (path : List ℕ) → IsSplitAt path (split_last path)
unfolding split_last
split_last-IsSplitAt [] = refl
split_last-IsSplitAt (c ∷ cs) = ground (arith, split_last-IsSplitAt cs)

fitting-IsSplit :
    (path : List ℕ) (o : Option (List ℕ × List ℕ)) → IsSplitAt path o → IsSplit path (fitting o)
fitting-IsSplit path none h = inl (refl, h)
fitting-IsSplit path (some (parent, child)) h = elim (Bool-cases (ltb (length child) 248)) [
  | inl short ↦ rw short (h, ltb→lt (length child) 248 short)
  | inr long ↦ rw long (inr (refl, (parent, child, h, not_ltb→le (length child) 248 long)))
]

-- split_path_parent_child returns what stands before and behind the last slash, if the name behind it
-- has fewer than 248 characters. It fails with ENAMETOOLONG if that name is longer, and with ENOENT
-- exactly if there is no slash.
pub split_path_parent_child-IsSplit : (path : List ℕ) → IsSplit path (split_path_parent_child path)
unfolding split_path_parent_child
split_path_parent_child-IsSplit path =
    fitting-IsSplit path (split_last path) (split_last-IsSplitAt path)

token-append : (p q : List ℕ) → token (p ++ slash ∷ q) ≡ token p
unfolding token
token-append [] q = refl
token-append (c ∷ cs) q = ground (arith, token-append cs q)

segments_from-append :
    (b : Bool) (p q : List ℕ)
    → segments_from b (p ++ slash ∷ q) ≡ segments_from b p ++ segments_from true q
unfolding segments_from token
segments_from-append b [] q = refl
segments_from-append b (c ∷ cs) q = ground (
  arith,
  token-append (c ∷ cs) q,
  segments_from-append true cs q,
  segments_from-append false cs q,
)

-- A slash separates: the segments of two paths that are joined by a slash are those of the one and
-- then those of the other. So slashes at the ends and repeated slashes count for nothing.
segments-append : (p q : List ℕ) → segments (p ++ slash ∷ q) ≡ segments p ++ segments q
unfolding segments
segments-append p q = segments_from-append true p q

token_self : (p : List ℕ) → has slash p ≡ false → token p ≡ p
unfolding token
token_self [] h = refl
token_self (c ∷ cs) h = ground (arith, token_self cs)

segments_from-within : (p : List ℕ) → has slash p ≡ false → segments_from false p ≡ []
unfolding segments_from
segments_from-within [] h = refl
segments_from-within (c ∷ cs) h = ground (arith, segments_from-within cs)

segments_self :
    (c : ℕ) (cs : List ℕ) → has slash (c ∷ cs) ≡ false → segments (c ∷ cs) ≡ (c ∷ cs) ∷ []
unfolding segments segments_from
segments_self c cs h = ground (arith, token_self (c ∷ cs) h, segments_from-within cs)

-- Where split_path_parent_child succeeds with a name, the segments of the path are those of the parent
-- path and then the name: namei of the path walks to the parent and looks the name up there.
pub segments-split_path_parent_child :
    (path parent : List ℕ) (c : ℕ) (cs : List ℕ)
    → split_path_parent_child path ≡ ok (parent, c ∷ cs)
    → segments path ≡ segments parent ++ (c ∷ cs) ∷ []
segments-split_path_parent_child path parent c cs h =
    let is : IsSplit path (ok (parent, c ∷ cs)) =
      subst (IsSplit path) h (split_path_parent_child-IsSplit path) in
    ap segments is.0.0
    ∙ segments-append parent (c ∷ cs)
    ∙ ap (λ s. segments parent ++ s) (segments_self c cs is.0.1)
