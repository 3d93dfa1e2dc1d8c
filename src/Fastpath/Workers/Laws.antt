-- ===== src/Fastpath/Workers/Laws.antt =====
-- fastpath_init and fastpath_queue_work (pxd_fastpath.c).
use pxmod.Common.{
  ℕ, zero, suc, sym, subst, ◌+◌, ◌%◌, ◌≤◌, ◌<◌, ◌≡◌, ◌≢◌, refl, arith, Bool, true, false, Option,
  none, some, List, [], ◌∷◌, ◌++◌, ◌==◌, leb, length, length-append, min, get_elem?,
}
use native.Mathlib.Decide.{dec_lt, ℕ_discrete as dec_eq}
use pxmod.Fastpath.Workers.{
  at_most, check_fpthreads, create_workers, fastpath_queue_work, worker, null, outside, PerCpu,
  balance_io, masked,
}

-- The settings that are left after the checks.
pub data Checked (n : ℕ) : Type 0 where
  zero_threads : n ≡ 0 → Checked n
  one_thread : n ≡ 1 → Checked n
  two_threads : n ≡ 2 → Checked n
  four_threads : n ≡ 4 → Checked n
  eight_threads : n ≡ 8 → Checked n

check_small : (n : ℕ) → n ≤ 8 → Checked (check_fpthreads n)
unfolding check_fpthreads
check_small zero h = zero_threads refl
check_small (suc zero) h = one_thread refl
check_small (suc (suc zero)) h = two_threads refl
check_small (suc (suc (suc zero))) h = four_threads refl
check_small (suc (suc (suc (suc zero)))) h = four_threads refl
check_small (suc (suc (suc (suc (suc zero))))) h = four_threads refl
check_small (suc (suc (suc (suc (suc (suc zero)))))) h = four_threads refl
check_small (suc (suc (suc (suc (suc (suc (suc zero))))))) h = four_threads refl
check_small (suc (suc (suc (suc (suc (suc (suc (suc zero)))))))) h = eight_threads refl
check_small (suc (suc (suc (suc (suc (suc (suc (suc (suc n))))))))) h = absurd (omega arith)

check_zero : (n : ℕ) → n ≤ 8 → check_fpthreads n ≡ 0 → n ≡ 0
unfolding check_fpthreads
check_zero zero h e = refl
check_zero (suc zero) h e = absurd (omega arith)
check_zero (suc (suc zero)) h e = absurd (omega arith)
check_zero (suc (suc (suc zero))) h e = absurd (omega arith)
check_zero (suc (suc (suc (suc zero)))) h e = absurd (omega arith)
check_zero (suc (suc (suc (suc (suc zero))))) h e = absurd (omega arith)
check_zero (suc (suc (suc (suc (suc (suc zero)))))) h e = absurd (omega arith)
check_zero (suc (suc (suc (suc (suc (suc (suc zero))))))) h e = absurd (omega arith)
check_zero (suc (suc (suc (suc (suc (suc (suc (suc zero)))))))) h e = absurd (omega arith)
check_zero (suc (suc (suc (suc (suc (suc (suc (suc (suc n))))))))) h e = absurd (omega arith)

check_big : (n : ℕ) → 8 < n → check_fpthreads n ≡ check_fpthreads 8
unfolding check_fpthreads
check_big n h = let e : at_most n ≡ 8 = ground arith in simp e

-- Whatever the setting is, the checks leave 0 or a power of two that is no more than the array of
-- threads holds; only the setting 0 stays 0.
pub check-Checked : (n : ℕ) → Checked (check_fpthreads n) × (check_fpthreads n ≡ 0 → n ≡ 0)
unfolding check_fpthreads
check-Checked n = elim (dec_lt 8 n) [
  | yes big ↦ (
    subst Checked (sym (check_big n big)) (eight_threads refl),
    λ e. absurd (ground (arith, check_big n big)),
  )
  | no small ↦ (check_small n (omega arith), check_zero n (omega arith))
]

Checked-le : (n : ℕ) → Checked n → n ≤ 8
Checked-le n (zero_threads e) = omega arith
Checked-le n (one_thread e) = omega arith
Checked-le n (two_threads e) = omega arith
Checked-le n (four_threads e) = omega arith
Checked-le n (eight_threads e) = omega arith

-- The threads of a node, on top of those that it has: one for each online CPU, up to the setting.
pub create_lem :
    (n : ℕ) (create : ℕ → Option ℕ) (cpus workers : List ℕ)
    → n ≤ 8
    → length workers < n
    → ((cpu : ℕ) → (w : ℕ) × (create cpu ≡ some w))
    → (made : List ℕ) × (create_workers n create cpus workers ≡ some made)
      × (length made ≡ min (length workers + length cpus) n)
unfolding create_workers
create_lem n create [] workers le lt ok = (workers, refl, omega arith)
create_lem n create (cpu ∷ cpus) workers le lt ok =
    let (w, e) = ok cpu in
    let room : leb 8 (length workers) ≡ false = ground arith in
    let more = length-append workers (w ∷ []) in
    elim (dec_eq (suc (length workers)) n) [
      | yes full ↦
          let f : (suc (length workers) == n) ≡ true = ground arith in
          (workers ++ w ∷ [], simp (create_workers, e, room, f), omega (arith, more))
      | no not_full ↦
          let f : (suc (length workers) == n) ≡ false = ground arith in
          let (made, run, len) =
            create_lem n create cpus (workers ++ w ∷ []) le (omega (arith, more)) ok in
          (made, simp (create_workers, e, room, f) run, omega (arith, len, more))
    ]

get-within : (ws : List ℕ) (i : ℕ) → i < length ws → (w : ℕ) × (get_elem? ws i ≡ some w)
get-within [] i h = absurd (omega arith)
get-within (w ∷ ws) zero h = (w, refl)
get-within (w ∷ ws) (suc i) h = get-within ws i (omega arith)

get-beyond : (ws : List ℕ) (i : ℕ) → length ws ≤ i → get_elem? ws i ≡ none
get-beyond [] i h = refl
get-beyond (w ∷ ws) zero h = absurd (omega arith)
get-beyond (w ∷ ws) (suc i) h = get-beyond ws i (omega arith)

-- With a setting that the checks leave and that is not 0, work of a node with threads goes to one
-- of them or to none, and never to what is behind the array; with as many threads as the setting
-- says, it goes to one of them.
pub queue_work-inside :
    (setting nr_cpus fpdefault cpuid : ℕ) (workers : List ℕ) (completion : Bool)
    (percpu : ℕ → PerCpu)
    → let n = check_fpthreads setting in
      n ≢ 0
      → let slot =
          (fastpath_queue_work n nr_cpus fpdefault (some workers) cpuid completion percpu).0 in
        (slot ≢ outside) × (length workers ≡ n → (w : ℕ) × (slot ≡ worker w))
unfolding fastpath_queue_work
queue_work-inside setting nr_cpus fpdefault cpuid workers completion percpu h =
    let n = check_fpthreads setting in
    let le = Checked-le n (check-Checked setting).0 in
    let i = (balance_io nr_cpus cpuid completion percpu).0 in
    let j = masked n i in
    let small : j < 8 = ground arith in
    let inner : leb 8 j ≡ false = ground arith in
    (
      elim (dec_lt j (length workers)) [
        | yes q ↦ let (w, e) = get-within workers j q in ground arith
        | no q ↦ let e = get-beyond workers j (omega arith) in ground arith
      ],
      λ full. let (w, e) = get-within workers j (ground arith) in (w, simp (inner, e)),
    )

-- On a node with fewer threads than the setting says, the work of an io that is complete goes to no
-- thread at all, if the remainder of its CPU is not below the number of threads.
pub queue_work-nowhere :
    (setting nr_cpus fpdefault cpuid : ℕ) (workers : List ℕ) (percpu : ℕ → PerCpu)
    → let n = check_fpthreads setting in
      n ≢ 0
      → length workers ≤ cpuid % n
      → (fastpath_queue_work n nr_cpus fpdefault (some workers) cpuid true percpu).0 ≡ null
unfolding fastpath_queue_work balance_io
queue_work-nowhere setting nr_cpus fpdefault cpuid workers percpu h few =
    let n = check_fpthreads setting in
    let le = Checked-le n (check-Checked setting).0 in
    let here : (n == 0) ≡ false = ground arith in
    let inner : leb 8 (cpuid % n) ≡ false = ground arith in
    simp (here, inner, get-beyond workers (cpuid % n) few)
