-- ===== src/File/Map/Mapped.antt =====
-- The blocks of a file as blocks that read_file reads.
use uwufs.Base.{ℕ, ◌+◌, ◌*◌, ◌≤◌, List, arith}
use uwufs.Bytes.{Bytes}
use uwufs.Machine.{Machine}
use uwufs.Freelist.Chain.{IsFreelist}
use uwufs.File.Read.Aligned.{IsMapped}
use uwufs.File.Map.{IsFile}

-- The blocks of a file can be read.
pub IsFile-IsMapped :
    {lo hi : ℕ} {xs : List ℕ} {d : Machine} {ino : Bytes} {count : ℕ} (base size : ℕ)
    → IsFreelist d lo hi xs
    → IsFile lo hi xs d ino count
    → count ≤ 134480394
    → 4096 * base + size ≤ 4096 * count
    → IsMapped ino base size d
IsFile-IsMapped base size f file most fits = record {
  works = f.works;
  indexed = λ k lt. omega (arith, most, fits);
  used = λ k lt.
      let (ge, top, out) = file.taken (base + k) (omega (arith, fits)) in
      omega (arith, ge, f.behind_super);
  inside = λ k lt.
      let (ge, top, out) = file.taken (base + k) (omega (arith, fits)) in
      omega (arith, top, f.within);
}
