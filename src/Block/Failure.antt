-- ===== src/Block/Failure.antt =====
-- What reads and writes that fail leave behind, on any device.
use uwufs.Base.{ℕ, ◌≡◌, refl, Bool, true, false, arith, if◌then◌else◌}
use uwufs.Bytes.{Bytes}
use uwufs.Machine.{Machine, Res, ok, fail, crash, Errno, Io, continue, pure, raise, ◌>>=◌}
use uwufs.Block.{read_blk, write_blk, load}

-- Reads change nothing, whatever they return.
pub read_blk-machine : (buf : Bytes) (n : ℕ) (d : Machine) → (read_blk buf n d).1 ≡ d
unfolding read_blk
read_blk-machine buf n d = ground arith

pub load-machine : (n : ℕ) (d : Machine) → (load n d).1 ≡ d
unfolding load
load-machine n d = read_blk-machine d.stack n d

-- An action that leaves the machine alone when it fails.
abbrev pub IsAtomic : {A : Type 0} → Io A → Type 0
IsAtomic m = (d : Machine) (e : Errno) → (m d).0 ≡ fail e → (m d).1 ≡ d

pub IsAtomic-write_blk : (b : Bytes) (n : ℕ) → IsAtomic (write_blk b n)
unfolding write_blk
IsAtomic-write_blk b n d e h = ground arith

continue-IsAtomic :
    {A B : Type 0} (r : Res A) (f : A → Io B) → ((a : A) → IsAtomic (f a)) → IsAtomic (continue r f)
continue-IsAtomic (ok a) f at d e h = at a d e h
continue-IsAtomic (fail e) f at d e' h = refl
continue-IsAtomic crash f at d e' h = refl

pub IsAtomic-load :
    {B : Type 0} (n : ℕ) (f : Bytes → Io B)
    → ((b : Bytes) → IsAtomic (f b))
    → IsAtomic (load n >>= f)
IsAtomic-load n f at d e h =
    let same : (continue (load n d).0 f d).0 ≡ fail e = rw load-machine at h in
    rw load-machine (continue-IsAtomic (load n d).0 f at d e same)

continue-last_IsAtomic :
    {A B : Type 0} (a : B) (r : Res A) (d d' : Machine)
    → ((e : Errno) → r ≡ fail e → d' ≡ d)
    → (e : Errno) → (continue r (λ _. pure a) d').0 ≡ fail e
    → (continue r (λ _. pure a) d').1 ≡ d
continue-last_IsAtomic a (ok x) d d' at e h = absurd (cc)
continue-last_IsAtomic a (fail e') d d' at e h = at e' refl
continue-last_IsAtomic a crash d d' at e h = absurd (cc)

pub IsAtomic-last : {A B : Type 0} (m : Io A) (a : B) → IsAtomic m → IsAtomic (m >>= λ _. pure a)
IsAtomic-last m a at d = continue-last_IsAtomic a (m d).0 d (m d).1 (at d)

pub IsAtomic-raise : {A : Type 0} (e : Errno) → IsAtomic (raise {A = A} e)
IsAtomic-raise e d e' h = refl

pub IsAtomic-if :
    {A : Type 0} (b : Bool) (m n : Io A) → IsAtomic m → IsAtomic n → IsAtomic (if b then m else n)
IsAtomic-if true m n p q = p
IsAtomic-if false m n p q = q
