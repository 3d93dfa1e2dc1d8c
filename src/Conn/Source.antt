-- ===== src/Conn/Source.antt =====
-- The kernel's iov_iter over what a process writes, as far as the driver relies on it, and the
-- structures of fuse.h and pxd.h that are read from it (x86-64 layout, little-endian).
pub mod Layout
use pxmod.Common.{ℕ, zero, suc, ◌+◌, ◌-◌, ◌≤◌, ◌≡◌, refl, arith, List, [], ◌∷◌, ◌++◌, length}

-- A copy may stop early, at a page that is not mapped; it never goes past `count`.
pub record UserSource : Type 1 where
  pub Src : Type 0
  pub count : Src → ℕ
  pub copy_from_iter : ℕ → Src → List ℕ × Src
  pub copied-le : (len : ℕ) (it : Src) → length (copy_from_iter len it).0 ≤ len
  pub count-copy :
      (len : ℕ) (it : Src)
      → count (copy_from_iter len it).1 + length (copy_from_iter len it).0 ≡ count it

-- A process that has written these bytes, all of them mapped.
abbrev pub split_at : ℕ → List ℕ → List ℕ × List ℕ
split_at zero xs = ([], xs)
split_at (suc n) [] = ([], [])
split_at (suc n) (x ∷ xs) = let rest = split_at n xs in (x ∷ rest.0, rest.1)

pub split_at-le : (n : ℕ) (xs : List ℕ) → length (split_at n xs).0 ≤ n
split_at-le zero xs = omega arith
split_at-le (suc n) [] = omega arith
split_at-le (suc n) (x ∷ xs) = omega (arith, split_at-le n xs)

pub split_at-count :
    (n : ℕ) (xs : List ℕ) → length (split_at n xs).1 + length (split_at n xs).0 ≡ length xs
split_at-count zero xs = omega arith
split_at-count (suc n) [] = refl
split_at-count (suc n) (x ∷ xs) = omega (arith, split_at-count n xs)

abbrev pub bytes_source : UserSource
bytes_source = record {
  Src = List ℕ;
  count = length;
  copy_from_iter = split_at;
  copied-le = split_at-le;
  count-copy = split_at-count;
}
