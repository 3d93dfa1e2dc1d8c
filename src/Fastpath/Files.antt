-- ===== src/Fastpath/Files.antt =====
-- What the fast path asks of the kernel's files. A file is a number.
use pxmod.Common.{ℕ, Option, Bool, List}
use pxmod.Common.Int.{ℤ}

-- filp_open, for a path and a mode; vfs_fsync; and whether the file is a regular file or a block
-- device.
pub record FileOps : Type 0 where
  pub filp_open : List ℕ → ℕ → Option ℕ
  pub vfs_fsync : ℕ → ℤ
  pub is_backing : ℕ → Bool
