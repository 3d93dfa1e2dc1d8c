-- ===== src/Common/Arrays.antt =====
-- Arrays and maps as functions from an index: a write, memcpy, and sums over the first `n` cells.
use Prim.Native.Nat.{ℕ, zero, suc, ◌+◌, ◌-◌, ◌*◌, ◌≤◌, ◌<◌}
use mathlib.Core.Path.{◌≡◌, refl}
use mathlib.Core.Logic.{◌≢◌}
use mathlib.Core.Bool.{◌&&◌}
use native.Mathlib.Decide.{dec_lt}
use native.Mathlib.Omega.{arith}
use pxmod.Common.Tests.{◌==◌, ltb, leb, if◌then◌else◌}

abbrev pub update {ℓ} : {A : Type ℓ} → (ℕ → A) → ℕ → A → ℕ → A
update f i a j = if i == j then a else f j

-- memcpy (&dst[k], &src[off], m), over cells.
abbrev pub memcpy {ℓ} : {A : Type ℓ} → (ℕ → A) → ℕ → (ℕ → A) → ℕ → ℕ → ℕ → A
memcpy dst k src off m j = if leb k j && ltb j (k + m) then src (off + (j - k)) else dst j

pub total : (ℕ → ℕ) → ℕ → ℕ
total f zero = 0
total f (suc n) = total f n + f n

pub total-zero : (f : ℕ → ℕ) → total f 0 ≡ 0
unfolding total
total-zero f = refl

pub total-suc : (f : ℕ → ℕ) (n : ℕ) → total f (suc n) ≡ total f n + f n
unfolding total
total-suc f n = refl

pub total-cong : (f g : ℕ → ℕ) (n : ℕ) → ((i : ℕ) → i < n → f i ≡ g i) → total f n ≡ total g n
unfolding total
total-cong f g zero h = refl
total-cong f g (suc n) h =
    omega (arith, h n (omega arith), total-cong f g n (λ i p. h i (omega arith)))

-- Two families that differ at one index only.
pub total-change :
    (f g : ℕ → ℕ) (n k : ℕ)
    → k < n
    → ((i : ℕ) → k ≢ i → f i ≡ g i)
    → total f n + g k ≡ total g n + f k
unfolding total
total-change f g zero k p h = absurd (omega arith)
total-change f g (suc n) k p h = elim (dec_lt k n) [
  | yes q ↦ omega (arith, total-change f g n k q h, h n (omega arith))
  | no q ↦
      let e : k ≡ n = omega arith in
      rw e (omega (arith, total-cong f g n (λ i r. h i (omega arith))))
]

pub total-le-mul : (f : ℕ → ℕ) (n b : ℕ) → ((i : ℕ) → f i ≤ b) → total f n ≤ b * n
unfolding total
total-le-mul f zero b h = omega arith
total-le-mul f (suc n) b h = omega (arith, h n, total-le-mul f n b h)

pub le-total : (f : ℕ → ℕ) (n k : ℕ) → k < n → f k ≤ total f n
unfolding total
le-total f zero k p = absurd (omega arith)
le-total f (suc n) k p = elim (dec_lt k n) [
  | yes q ↦ omega (arith, le-total f n k q)
  | no q ↦ let e : k ≡ n = omega arith in rw e (omega arith)
]

pub total-eq-zero : (f : ℕ → ℕ) (n : ℕ) → ((i : ℕ) → f i ≡ 0) → total f n ≡ 0
unfolding total
total-eq-zero f zero h = refl
total-eq-zero f (suc n) h = omega (arith, h n, total-eq-zero f n h)
