-- ===== src/Blockmap/Silent.antt =====
-- append_dblk hides the failures of what it calls.
use uwufs.Base.{
  inl, inr, ℕ, zero, suc, ◌-◌, ◌<◌, ◌≤◌, ◌≡◌, ◌≢◌, refl, ltb, Bool-cases, le→leb, lt→not_leb,
}
use uwufs.Bytes.{Bytes}
use uwufs.Machine.{Machine, Res, ok, fail, crash, Io}
use uwufs.Layout.{single_indirect_blks, double_indirect_blks, triple_indirect_blks}
use uwufs.Blockmap.{or_zero, status_or_zero, recursive_append_dblk, append_dblk}
use uwufs.Blockmap.Returns.{recursive_append_dblk-Returns}

-- A result that is no error.
abbrev IsOk : {A : Type 0} → Res A → Type 0
IsOk {A} r = (a : A) × (r ≡ ok a)

status_or_zero-IsOk :
    (r : Res ℕ) (d : Machine) → (status_or_zero r d).0 ≢ crash → IsOk (status_or_zero r d).0
unfolding status_or_zero
status_or_zero-IsOk (ok a) d h = (a, refl)
status_or_zero-IsOk (fail e) d h = (0, refl)
status_or_zero-IsOk crash d h = absurd (h refl)

or_zero-IsOk : (m : Io ℕ) (d : Machine) → (or_zero m d).0 ≢ crash → IsOk (or_zero m d).0
unfolding or_zero
or_zero-IsOk m d = status_or_zero-IsOk (m d).0 (m d).1

recursive_append_dblk-IsOk :
    (level cur_no index n : ℕ) (d : Machine) → IsOk (recursive_append_dblk level cur_no index n d).0
recursive_append_dblk-IsOk zero cur_no index n d =
    let returns = (recursive_append_dblk-Returns zero cur_no index n).returns d in
    unfold recursive_append_dblk in or_zero-IsOk _ d returns
recursive_append_dblk-IsOk (suc level) cur_no index n d =
    let returns = (recursive_append_dblk-Returns (suc level) cur_no index n).returns d in
    unfold recursive_append_dblk in or_zero-IsOk _ d returns

-- On any device, whatever reads, writes and allocations fail: append_dblk returns the number that it is
-- given if the index is below the 134480394 of a whole block map, and 0 if it is not. So 0 never tells of a failed
-- operation.
pub append_dblk-silent :
    (ino : Bytes) (index n : ℕ) (d : Machine)
    → (index < 134480394 → (ino' : Bytes) × ((append_dblk ino index n d).0 ≡ ok (n, ino')))
      × (134480394 ≤ index → (append_dblk ino index n d) ≡ (ok (0, ino), d))
unfolding append_dblk
append_dblk-silent ino index n d = (
  λ lt. rw (lt→not_leb 134480394 index lt) (elim (Bool-cases (ltb index 10)) [
    | inl e ↦ rw e (_, refl)
    | inr e ↦ elim (Bool-cases (ltb index 522)) [
      | inl f ↦
          let (root, run) =
            recursive_append_dblk-IsOk 0 (single_indirect_blks ino) (index - 10) n d in
          rw (e, f, run) (_, refl)
      | inr f ↦ elim (Bool-cases (ltb index 262666)) [
        | inl g ↦
            let (root, run) =
              recursive_append_dblk-IsOk 1 (double_indirect_blks ino) (index - 522) n d in
            rw (e, f, g, run) (_, refl)
        | inr g ↦
            let (root, run) =
              recursive_append_dblk-IsOk 2 (triple_indirect_blks ino) (index - 262666) n d in
            rw (e, f, g, run) (_, refl)
      ]
    ]
  ]),
  λ ge. rw (le→leb 134480394 index ge) refl,
)
