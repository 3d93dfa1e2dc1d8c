-- ===== src/Common/Lists.antt =====
-- Lists of pointers: length, how often a pointer is linked, and the kernel's list_del.
use Prim.Native.Nat.{ℕ, zero, suc, ◌+◌, ◌-◌, ◌<◌}
use mathlib.Core.Path.{◌≡◌, refl}
use mathlib.Core.Bool.{Bool, true, false}
use mathlib.Core.List.{List, [], ◌∷◌, ◌++◌}
use mathlib.Core.Option.{Option, none, some}
use native.Mathlib.Omega.{arith}
use pxmod.Common.Tests.{◌==◌, if◌then◌else◌, Bool-cases}
use mathlib.Core.Logic.{inl, inr}

module _ {ℓ} {A : Type ℓ} where
  abbrev pub length : List A → ℕ
  length [] = 0
  length (x ∷ xs) = suc (length xs)

  pub length-append : (xs ys : List A) → length (xs ++ ys) ≡ length xs + length ys
  length-append [] ys = omega arith
  length-append (x ∷ xs) ys = omega (arith, length-append xs ys)

  abbrev pub get_elem? : List A → ℕ → Option A
  get_elem? [] i = none
  get_elem? (x ∷ xs) zero = some x
  get_elem? (x ∷ xs) (suc i) = get_elem? xs i

  abbrev pub get_or : List A → ℕ → A → A
  get_or [] i d = d
  get_or (x ∷ xs) zero d = x
  get_or (x ∷ xs) (suc i) d = get_or xs i d

  abbrev pub is_empty : List A → Bool
  is_empty [] = true
  is_empty (x ∷ xs) = false

-- 1 where the test holds.
abbrev pub one_if : Bool → ℕ
one_if b = if b then 1 else 0

-- How often `a` is linked on a list.
pub occurs : ℕ → List ℕ → ℕ
occurs a [] = 0
occurs a (x ∷ xs) = one_if (x == a) + occurs a xs

-- list_del: unlinks the first node at `a`; a node that is on no list stays as it is.
unfoldable pub list_del : ℕ → List ℕ → List ℕ
list_del a [] = []
list_del a (x ∷ xs) = if x == a then xs else x ∷ list_del a xs

pub occurs-append : (a : ℕ) (xs ys : List ℕ) → occurs a (xs ++ ys) ≡ occurs a xs + occurs a ys
unfolding occurs
occurs-append a [] ys = omega arith
occurs-append a (x ∷ xs) ys = ground (arith, occurs-append a xs ys)

pub occurs-nil : (a : ℕ) → occurs a [] ≡ 0
unfolding occurs
occurs-nil a = refl

pub occurs-cons : (a x : ℕ) (xs : List ℕ) → occurs a (x ∷ xs) ≡ one_if (x == a) + occurs a xs
unfolding occurs
occurs-cons a x xs = refl

pub occurs-list_del :
    (a b : ℕ) (xs : List ℕ) → occurs a (list_del b xs) ≡ occurs a xs - one_if (b == a)
unfolding occurs list_del
occurs-list_del a b [] = ground arith
occurs-list_del a b (x ∷ xs) = ground (arith, occurs-list_del a b xs)

pub list_del-absent : (a : ℕ) (xs : List ℕ) → occurs a xs ≡ 0 → list_del a xs ≡ xs
unfolding occurs list_del
list_del-absent a [] h = refl
list_del-absent a (x ∷ xs) h = ground (arith, list_del-absent a xs)

pub list_del-head : (a : ℕ) (xs : List ℕ) → list_del a (a ∷ xs) ≡ xs
unfolding list_del
list_del-head a xs = ground arith

-- One occurrence less is one element less.
pub length-list_del :
    (a : ℕ) (xs : List ℕ) → 0 < occurs a xs → length (list_del a xs) + 1 ≡ length xs
unfolding occurs list_del
length-list_del a [] h = absurd (omega arith)
length-list_del a (x ∷ xs) h = elim (Bool-cases (x == a)) [
  | inl here ↦ rw here (omega arith)
  | inr there ↦ rw there (omega (arith, length-list_del a xs (ground arith)))
]
