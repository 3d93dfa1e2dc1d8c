-- ===== src/Conn/ZeroPage/Laws.antt =====
-- The search for zero bytes (dev.c, __check_zero_page_write and __fuse_convert_zero_writes).
use native.Mathlib.Decide.{dec_lt, ℕ_discrete as dec_eq}
use pxmod.Common.{
  inl, inr, ◌⊎◌, Bool-cases, ℕ, zero, suc, ap, ◌+◌, ◌-◌, ◌*◌, ◌/◌, ◌%◌, ◌≤◌, ◌<◌, ◌≡◌, ◌↔◌, refl,
  arith, true, List, [], ◌∷◌, length, get_or,
}
use pxmod.Conn.State.{FuseReq}
use pxmod.Conn.Opcode.{pxd_discard}
use pxmod.Conn.ZeroPage.{
  load_word, words_zero, bytes_zero, check_zero_page_write, all_segments_zero,
  fuse_convert_zero_writes,
}

-- Every byte from `i` up to `j` is zero.
abbrev pub ZeroFrom : List ℕ → ℕ → ℕ → Type 0
ZeroFrom base i j = (k : ℕ) → i ≤ k → k < j → get_or base k 0 ≡ 0

load_word-only : (k : ℕ) (base : List ℕ) (i : ℕ) → load_word k base i ≡ 0 → ZeroFrom base i (i + k)
unfolding load_word
load_word-only zero base i e j p q = absurd (omega arith)
load_word-only (suc k) base i e j p q = elim (dec_eq i j) [
  | yes first ↦ ground (arith, ap (λ x. get_or base x 0) first)
  | no later ↦ load_word-only k base (i + 1) (omega arith) j (omega arith) (omega arith)
]

load_word-all : (k : ℕ) (base : List ℕ) (i : ℕ) → ZeroFrom base i (i + k) → load_word k base i ≡ 0
unfolding load_word
load_word-all zero base i h = refl
load_word-all (suc k) base i h = omega (
  arith,
  h i (omega arith) (omega arith),
  load_word-all k base (i + 1) (λ j p q. h j (omega arith) (omega arith)),
)

words_zero-only :
    (n : ℕ) (base : List ℕ) (i : ℕ)
    → words_zero n base i ≡ true
    → ZeroFrom base (8 * i) (8 * (i + n))
unfolding words_zero
words_zero-only zero base i e j p q = absurd (omega arith)
words_zero-only (suc n) base i e j p q = elim (dec_lt j (8 * i + 8)) [
  | yes here ↦ load_word-only 8 base (8 * i) (ground arith) j p here
  | no later ↦ words_zero-only n base (i + 1) (ground arith) j (omega arith) (omega arith)
]

words_zero-all :
    (n : ℕ) (base : List ℕ) (i : ℕ)
    → ZeroFrom base (8 * i) (8 * (i + n))
    → words_zero n base i ≡ true
unfolding words_zero
words_zero-all zero base i h = refl
words_zero-all (suc n) base i h = ground (
  arith,
  load_word-all 8 base (8 * i) (λ j p q. h j p (omega arith)),
  words_zero-all n base (i + 1) (λ j p q. h j (omega arith) (omega arith)),
)

bytes_zero-only :
    (n : ℕ) (base : List ℕ) (i : ℕ) → bytes_zero n base i ≡ true → ZeroFrom base i (i + n)
unfolding bytes_zero
bytes_zero-only zero base i e j p q = absurd (omega arith)
bytes_zero-only (suc n) base i e j p q = elim (dec_eq i j) [
  | yes first ↦ ground (arith, ap (λ x. get_or base x 0) first)
  | no later ↦ bytes_zero-only n base (i + 1) (ground arith) j (omega arith) (omega arith)
]

bytes_zero-all :
    (n : ℕ) (base : List ℕ) (i : ℕ) → ZeroFrom base i (i + n) → bytes_zero n base i ≡ true
unfolding bytes_zero
bytes_zero-all zero base i h = refl
bytes_zero-all (suc n) base i h = ground (
  arith,
  h i (omega arith) (omega arith),
  bytes_zero-all n base (i + 1) (λ j p q. h j (omega arith) (omega arith)),
)

check-only : (base : List ℕ) → check_zero_page_write base ≡ true → ZeroFrom base 0 (length base)
unfolding check_zero_page_write
check-only base e j p q = elim (dec_lt j (8 * (length base / 8))) [
  | yes word ↦ words_zero-only (length base / 8) base 0 (ground arith) j (omega arith) (omega arith)
  | no tail ↦
      bytes_zero-only (length base % 8) base (length base - length base % 8) (ground arith) j
        (omega arith) (omega arith)
]

check-all : (base : List ℕ) → ZeroFrom base 0 (length base) → check_zero_page_write base ≡ true
unfolding check_zero_page_write
check-all base h = ground (
  arith,
  words_zero-all (length base / 8) base 0 (λ j p q. h j (omega arith) (omega arith)),
  bytes_zero-all (length base % 8) base (length base - length base % 8)
      (λ j p q. h j (omega arith) (omega arith)),
)

-- A page passes the check exactly when each of its bytes is zero, whatever its length.
pub check_zero_page_write_iff :
    (base : List ℕ) → (check_zero_page_write base ≡ true) ↔ ZeroFrom base 0 (length base)
check_zero_page_write_iff base = (check-only base, check-all base)

-- Every byte of every segment is zero.
abbrev pub AllZero : List (List ℕ) → Type 0
AllZero [] = Unit {0}
AllZero (p ∷ segments) = ZeroFrom p 0 (length p) × AllZero segments

segments-only : (segments : List (List ℕ)) → all_segments_zero segments ≡ true → AllZero segments
unfolding all_segments_zero
segments-only [] e = tt
segments-only (p ∷ segments) e =
    (check-only p (ground arith), segments-only segments (ground arith))

segments-all : (segments : List (List ℕ)) → AllZero segments → all_segments_zero segments ≡ true
unfolding all_segments_zero
segments-all [] h = refl
segments-all (p ∷ segments) h = ground (arith, check-all p h.0, segments-all segments h.1)

-- A request is turned into a discard if all of its data is zero, and stays as it is if not.
pub convert_zero_writes_lem :
    (req : FuseReq)
    → (AllZero req.segments × (fuse_convert_zero_writes req ≡ record req { opcode = pxd_discard }))
      ⊎ (¬ AllZero req.segments × (fuse_convert_zero_writes req ≡ req))
unfolding fuse_convert_zero_writes
convert_zero_writes_lem req = elim (Bool-cases (all_segments_zero req.segments)) [
  | inl zeroes ↦ inl (segments-only req.segments zeroes, rw zeroes)
  | inr mixed ↦ inr (λ h. cc (segments-all req.segments h), rw mixed)
]
