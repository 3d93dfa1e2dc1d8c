-- ===== src/Ioctl/Version.antt =====
-- pxd_ioctl_get_version (pxd.c).
use pxmod.Common.{
  ℕ, zero, suc, ap, ◌+◌, ◌-◌, ◌≤◌, ◌≡◌, refl, arith, true, some, List, [], ◌∷◌, ◌++◌, length,
  length-append, min,
}
use pxmod.Common.Int.{pos}
use pxmod.Sysfs.{take}
use pxmod.Ioctl.{pxd_ioctl_get_version}

length-take : (n : ℕ) (xs : List ℕ) → length (take n xs) ≡ min n (length xs)
length-take zero xs = omega arith
length-take (suc n) [] = omega arith
length-take (suc n) (x ∷ xs) = omega (arith, length-take n xs)

take-min : (k n : ℕ) (xs : List ℕ) → k ≡ min (length xs) n → take k xs ≡ take n xs
take-min zero zero xs h = refl
take-min (suc k) zero xs h = absurd (omega arith)
take-min zero (suc n) [] h = refl
take-min (suc k) (suc n) [] h = refl
take-min zero (suc n) (x ∷ xs) h = absurd (omega arith)
take-min (suc k) (suc n) (x ∷ xs) h = ap (λ l. x ∷ l) (take-min k n xs (omega arith))

-- A version that is asked for arrives with its length, in 64 bytes at most, of which the last is 0
-- and the others are the first of the version, all of them if they are fewer than 64.
pub get_version-fits :
    (gitversion : List ℕ)
    → (len : ℕ) × (text : List ℕ) × (pxd_ioctl_get_version gitversion true true true
        ≡ (pos 0, some len, some (text ++ 0 ∷ [])))
      × (length (text ++ 0 ∷ []) ≡ len)
      × (len ≤ 64)
      × (text ≡ take 63 gitversion)
unfolding pxd_ioctl_get_version
get_version-fits gitversion =
    let n = min (length gitversion + 1) 64 in
    (
      n,
      take (n - 1) gitversion,
      refl,
      omega
          (arith, length-append (take (n - 1) gitversion) (0 ∷ []), length-take (n - 1) gitversion),
      omega arith,
      take-min (n - 1) 63 gitversion (omega arith),
    )
