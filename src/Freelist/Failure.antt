-- ===== src/Freelist/Failure.antt =====
-- malloc_blk that fails, on any device and any superblock.
use uwufs.Base.{◌≡◌}
use uwufs.Machine.{Machine, Errno, fail, enospc, eio}
use uwufs.Block.Failure.{
  IsAtomic, IsAtomic-load, IsAtomic-last, IsAtomic-raise, IsAtomic-if, IsAtomic-write_blk,
}
use uwufs.Layout.Super.{freelist_head}
use uwufs.Freelist.{malloc_blk}

atomic : IsAtomic malloc_blk
unfolding malloc_blk
atomic = IsAtomic-load 0 _ λ sb. IsAtomic-if _ _ _ (IsAtomic-raise enospc) (
    IsAtomic-if _ _ _ (IsAtomic-raise enospc) (
      IsAtomic-load (freelist_head sb) _ λ free.
        IsAtomic-if _ _ _ (IsAtomic-raise eio)
          (IsAtomic-last _ (freelist_head sb) (IsAtomic-write_blk _ 0))))

-- On any device, whatever its superblock says and whichever reads and writes it refuses: where
-- malloc_blk returns an error it has changed nothing.
pub malloc_blk-fail : (d : Machine) (e : Errno) → (malloc_blk d).0 ≡ fail e → (malloc_blk d).1 ≡ d
malloc_blk-fail d e h = atomic d e h
