-- ===== src/Conn/Ids/Count.antt =====
-- How often a slot occurs among the live ids of a stack.
use Prim.Native.Nat.add
use pxmod.Common.{
  ℕ, zero, suc, ◌+◌, ◌-◌, ap, ◌≤◌, ◌<◌, ◌≡◌, refl, arith, ◌==◌, one_if, update, memcpy,
}
use pxmod.Conn.State.{slot}

-- The entries from 0 to n - 1 are live; the entry at n - 1 is the top of the stack.
pub occ : ℕ → (ℕ → ℕ) → ℕ → ℕ
occ i f zero = 0
occ i f (suc n) = occ i f n + one_if (slot (f n) == i)

pub occ-suc : (i : ℕ) (f : ℕ → ℕ) (n : ℕ) → occ i f (suc n) ≡ occ i f n + one_if (slot (f n) == i)
unfolding occ
occ-suc i f n = refl

pub occ-zero : (i : ℕ) (f : ℕ → ℕ) → occ i f 0 ≡ 0
unfolding occ
occ-zero i f = refl

pub occ-cong : (i : ℕ) (f g : ℕ → ℕ) (n : ℕ) → ((j : ℕ) → j < n → f j ≡ g j) → occ i f n ≡ occ i g n
unfolding occ
occ-cong i f g zero h = refl
occ-cong i f g (suc n) h =
    ground (arith, h n (omega arith), occ-cong i f g n (λ j p. h j (omega arith)))

-- A push.
pub occ-push :
    (i : ℕ) (f : ℕ → ℕ) (n uid : ℕ)
    → occ i (update f n uid) (suc n) ≡ occ i f n + one_if (slot uid == i)
occ-push i f n uid =
    ground
      (arith, occ-suc i (update f n uid) n, occ-cong i (update f n uid) f n (λ j p. ground arith))

-- A block copied onto the top of a stack, from the top of another one.
pub occ-memcpy :
    (i : ℕ) (dst src : ℕ → ℕ) (k off m j : ℕ)
    → j ≤ m
    → occ i (memcpy dst k src off m) (j + k) + occ i src off ≡ occ i dst k + occ i src (j + off)
occ-memcpy i dst src k off m zero h =
    rw (add.zero, add.zero)
      (omega (arith, occ-cong i (memcpy dst k src off m) dst k (λ j p. ground arith)))
occ-memcpy i dst src k off m (suc j) h =
    rw (add.suc, add.suc)
      (ground (
        arith,
        occ-suc i (memcpy dst k src off m) (j + k),
        occ-suc i src (j + off),
        same,
        occ-memcpy i dst src k off m j (omega arith),
      ))
  where
    same : memcpy dst k src off m (j + k) ≡ src (j + off)
    same = let e : off + (j + k - k) ≡ j + off = omega arith in ground (arith, e)

-- The top `a` of `n` ids move to an empty stack.
pub occ-refill :
    (i : ℕ) (dst src : ℕ → ℕ) (n a : ℕ)
    → a ≤ n
    → occ i (memcpy dst 0 src (n - a) a) a + occ i src (n - a) ≡ occ i src n
occ-refill i dst src n a h =
    let copied = occ-memcpy i dst src 0 (n - a) a a (omega arith) in
    let all : a + (n - a) ≡ n = omega arith in
    let none_left : a + 0 ≡ a = omega arith in
    omega (
      arith,
      copied,
      occ-zero i dst,
      ap (occ i src) all,
      ap (occ i (memcpy dst 0 src (n - a) a)) none_left,
    )

-- The top `a` of `n` ids move onto a stack of `k` ids.
pub occ-spill :
    (i : ℕ) (dst src : ℕ → ℕ) (k n a : ℕ)
    → a ≤ n
    → occ i (memcpy dst k src (n - a) a) (k + a) + occ i src (n - a) ≡ occ i dst k + occ i src n
occ-spill i dst src k n a h =
    let copied = occ-memcpy i dst src k (n - a) a a (omega arith) in
    let all : a + (n - a) ≡ n = omega arith in
    let flipped : a + k ≡ k + a = omega arith in
    omega (arith, copied, ap (occ i src) all, ap (occ i (memcpy dst k src (n - a) a)) flipped)

-- A pop.
pub occ-pop :
    (i : ℕ) (f : ℕ → ℕ) (n : ℕ)
    → 0 < n
    → occ i f (n - 1) + one_if (slot (f (n - 1)) == i) ≡ occ i f n
occ-pop i f n h =
    let e : suc (n - 1) ≡ n = omega arith in omega (arith, occ-suc i f (n - 1), ap (occ i f) e)
