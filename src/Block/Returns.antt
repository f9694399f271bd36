-- ===== src/Block/Returns.antt =====
-- Actions that return, with a result or an error: none of them ends the process, on any device.
use uwufs.Base.{ℕ, ◌≡◌, ◌≢◌, refl, Bool, true, false, if◌then◌else◌, arith}
use uwufs.Bytes.{Bytes}
use uwufs.Machine.{
  Machine, Res, ok, fail, crash, Errno, Io, continue, pure, raise, handle, gets, ◌>>=◌,
}
use uwufs.Block.{read_at, write_at, read_blk, write_blk, load}

pub record Returns {A : Type 0} (m : Io A) : Type 0 where
  pub returns : (d : Machine) → (m d).0 ≢ crash

pub ok-Returns : {A : Type 0} {a : A} → Res.ok a ≢ crash
ok-Returns h = absurd (cc)

abbrev failed : (A : Type 0) → Errno → Res A
failed A e = fail e

pub fail-Returns : {A : Type 0} {e : Errno} → failed A e ≢ crash
fail-Returns h = absurd (cc)

pub pure-Returns : {A : Type 0} (a : A) → Returns (pure a)
pure-Returns a = record { returns = λ d. ok-Returns }

pub raise-Returns : {A : Type 0} (e : Errno) → Returns (raise {A = A} e)
raise-Returns e = record { returns = λ d. fail-Returns }

pub gets-Returns : {A : Type 0} (f : Machine → A) → Returns (gets f)
gets-Returns f = record { returns = λ d. ok-Returns }

continue-Returns :
    {A B : Type 0} (r : Res A) (f : A → Io B)
    → r ≢ crash
    → ((a : A) → Returns (f a))
    → Returns (continue r f)
continue-Returns (ok a) f h g = g a
continue-Returns (fail e) f h g = record { returns = λ d. fail-Returns }
continue-Returns crash f h g = absurd (h refl)

pub bind-Returns :
    {A B : Type 0} (m : Io A) (f : A → Io B)
    → Returns m
    → ((a : A) → Returns (f a))
    → Returns (m >>= f)
bind-Returns m f h g = record {
  returns = λ d. (continue-Returns (m d).0 f (h.returns d) g).returns (m d).1;
}

-- A handler meets no crash.
pub handle-Returns :
    {A B : Type 0} (m : Io A) (f : Res A → Io B)
    → Returns m
    → ((r : Res A) → r ≢ crash → Returns (f r))
    → Returns (handle m f)
handle-Returns m f h g = record { returns = λ d. (g (m d).0 (h.returns d)).returns (m d).1 }

pub if-Returns :
    {A : Type 0} (b : Bool) (m n : Io A)
    → (b ≡ true → Returns m)
    → (b ≡ false → Returns n)
    → Returns (if b then m else n)
if-Returns true m n h g = h refl
if-Returns false m n h g = g refl

pub read_blk-Returns : (buf : Bytes) (n : ℕ) → Returns (read_blk buf n)
unfolding read_blk read_at
read_blk-Returns buf n = record { returns = λ d h. ground arith }

pub load-Returns : (n : ℕ) → Returns (load n)
unfolding load
load-Returns n = record { returns = λ d. (read_blk-Returns d.stack n).returns d }

pub write_blk-Returns : (b : Bytes) (n : ℕ) → Returns (write_blk b n)
unfolding write_blk write_at
write_blk-Returns b n = record { returns = λ d h. ground arith }

pub ruleset returning = (
  bind-Returns, if-Returns, pure-Returns, raise-Returns, gets-Returns, load-Returns,
  write_blk-Returns,
)
