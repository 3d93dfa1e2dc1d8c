-- ===== src/Fastpath/Clones/Laws.antt =====
-- The ends of the clones of a request (pxd_bio_blkmq.c, _end_clone_bio).
use native.Mathlib.Decide.{ℕ_discrete as dec_eq}
use pxmod.Common.{
  ℕ, ◌+◌, ◌-◌, ◌<◌, ◌≡◌, ◌⊎◌, inl, inr, refl, ap, sym, ◌∙◌, arith, Bool, true, false, ◌&&◌, ◌==◌,
  some, List, [], ◌∷◌, ◌≢◌, subst, length, update, occurs, occurs-cons, occurs-nil, if◌then◌else◌,
  ◌>>=◌, Bool-cases,
}
use pxmod.Common.Int.{ℤ, pos, negsuc, is_zero, eio}
use pxmod.Fastpath.Clones.{
  CloneIo, ended_as, clone_cleanup, reconcile_from, reconcile_status, is_eio, finish_clones,
  end_clone_bio, end_clones,
}

-- The status of a request depends on those of its clones only.
reconcile_from-same :
    (so_far : ℤ) (a b : ℕ → ℤ) (clones : List ℕ)
    → ((i : ℕ) → 0 < occurs i clones → a i ≡ b i)
    → reconcile_from so_far a clones ≡ reconcile_from so_far b clones
unfolding reconcile_from
reconcile_from-same so_far a b [] same = refl
reconcile_from-same so_far a b (c ∷ clones) same =
    let here : a c ≡ b c = same c (ground (arith, occurs-cons c c clones)) in
    rw here (
      reconcile_from-same (if is_zero so_far then b c else so_far) a b clones
        (λ i p. same i (omega (arith, occurs-cons i c clones))))

-- The status of the first clone of a list that failed, or 0 if none did.
pub data First (status : ℕ → ℤ) : List ℕ → ℤ → Type 0 where
  no_failure : First status [] (pos 0)
  fails : {c : ℕ} {cs : List ℕ} → is_zero (status c) ≡ false → First status (c ∷ cs) (status c)
  passes :
      {c : ℕ} {cs : List ℕ} {rc : ℤ}
      → status c ≡ pos 0
      → First status cs rc
      → First status (c ∷ cs) rc

is_zero-pos : (z : ℤ) → is_zero z ≡ true → z ≡ pos 0
is_zero-pos (pos n) h = ap pos (ground arith)
is_zero-pos (negsuc n) h = cc

-- A failure stays.
reconcile_from-keeps :
    (rc : ℤ) (status : ℕ → ℤ) (clones : List ℕ)
    → is_zero rc ≡ false
    → reconcile_from rc status clones ≡ rc
unfolding reconcile_from
reconcile_from-keeps rc status [] h = refl
reconcile_from-keeps rc status (c ∷ clones) h = simp h (reconcile_from-keeps rc status clones h)

reconcile_from-First :
    (status : ℕ → ℤ) (clones : List ℕ) → First status clones (reconcile_from (pos 0) status clones)
unfolding reconcile_from
reconcile_from-First status [] = First.no_failure
reconcile_from-First status (c ∷ clones) = elim (Bool-cases (is_zero (status c))) [
  | inl fine ↦
      let e = is_zero-pos (status c) fine in
      First.passes e (
        subst (λ z. First status clones (reconcile_from z status clones)) (sym e)
          (reconcile_from-First status clones))
  | inr bad ↦
      subst (First status (c ∷ clones)) (sym (reconcile_from-keeps (status c) status clones bad))
        (First.fails bad)
]

-- The status that a request ends with, from those of its clones.
abbrev pub outcome : Bool → (ℕ → ℤ) → List ℕ → ℤ
outcome force_fail status clones = if force_fail then eio else reconcile_from (pos 0) status clones

-- The status that a request ends with: -EIO if the device is made to fail, and if not, the status
-- of the first of its clones that failed, in the order of the list of clones.
pub data Ends (force_fail : Bool) (status : ℕ → ℤ) (clones : List ℕ) (rc : ℤ) : Type 0 where
  forced : force_fail ≡ true → rc ≡ eio → Ends force_fail status clones rc
  by_clones : force_fail ≡ false → First status clones rc → Ends force_fail status clones rc

outcome-Ends :
    (force_fail : Bool) (status : ℕ → ℤ) (clones : List ℕ)
    → Ends force_fail status clones (outcome force_fail status clones)
outcome-Ends true status clones = Ends.forced refl refl
outcome-Ends false status clones = Ends.by_clones refl (reconcile_from-First status clones)

is_eio-eio : (z : ℤ) → is_eio z ≡ true → z ≡ eio
is_eio-eio (pos n) h = cc
is_eio-eio (negsuc n) h = ap negsuc (ground arith)

-- The request has ended once, or it is handed to a failover once.
pub data Finished (status : ℕ → ℤ) (io io' : CloneIo) : Type 0 where
  ended :
      (rc : ℤ)
      → Ends io.dev.fp.force_fail status io.root.clones rc
      → (io.dev.fp.can_failover ≡ false) ⊎ (rc ≢ eio)
      → io'.endings ≡ ended_as rc ∷ io.endings
      → io'.failovers ≡ io.failovers
      → io'.dev.ncount ≡ io.dev.ncount - 1
      → io'.root.magic ≡ false
      → Finished status io io'
  handed_over :
      io.dev.fp.can_failover ≡ true
      → Ends io.dev.fp.force_fail status io.root.clones eio
      → io'.endings ≡ io.endings
      → io'.failovers ≡ io.failovers + 1
      → io'.dev.ncount ≡ io.dev.ncount
      → io'.root.magic ≡ true
      → Finished status io io'

no_failover :
    (can : Bool) (rc rc' : ℤ) → rc ≡ rc' → (can && is_eio rc) ≡ false → (can ≡ false) ⊎ (rc' ≢ eio)
no_failover false rc rc' same h = inl refl
no_failover true rc rc' same h = inr (λ e.
    let yes_eio : is_eio rc ≡ true = ap is_eio (same ∙ e) in
    let not_eio : is_eio rc ≡ false = h in cc)

-- The last clone has ended, and each has its status.
finish-Finished :
    (status : ℕ → ℤ) (io : CloneIo)
    → io.root.magic ≡ true
    → ((i : ℕ) → 0 < occurs i io.root.clones → io.root.status i ≡ status i)
    → Finished status io (finish_clones io)
unfolding finish_clones reconcile_status clone_cleanup
finish-Finished status io magic all =
    let clones = io.root.clones in
    let force_fail = io.dev.fp.force_fail in
    let rc = outcome force_fail io.root.status clones in
    let same : rc ≡ outcome force_fail status clones =
      ap (λ x. if force_fail then eio else x)
        (reconcile_from-same (pos 0) io.root.status status clones all) in
    elim (Bool-cases (io.dev.fp.can_failover && is_eio rc)) [
      | inl failing ↦ simp failing (
          Finished.handed_over (ground arith)
            (subst (Ends force_fail status clones)
              (is_eio-eio (outcome force_fail status clones) (ap is_eio (sym same) ∙ ground arith))
              (outcome-Ends force_fail status clones))
            refl refl refl magic)
      | inr done ↦ simp done (
          Finished.ended (outcome force_fail status clones) (outcome-Ends force_fail status clones)
            (no_failover io.dev.fp.can_failover rc (outcome force_fail status clones) same done)
            (ap (λ x. ended_as x ∷ io.endings) same) refl refl refl)
    ]

-- A clone has ended, and it was not the last one.
abbrev clone_ended : ℕ → ℤ → CloneIo → CloneIo
clone_ended c err io = record io {
  root = record (io.root) { status = update io.root.status c err; nactive = io.root.nactive - 1 };
}

earlier-Finished :
    (status : ℕ → ℤ) (c : ℕ) (err : ℤ) (io io' : CloneIo)
    → Finished status (clone_ended c err io) io'
    → Finished status io io'
earlier-Finished status c err io io' (Finished.ended rc a k b f n m) = Finished.ended rc a k b f n m
earlier-Finished status c err io io' (Finished.handed_over a b e f n m) =
    Finished.handed_over a b e f n m

end_clone-runs :
    (c : ℕ) (err : ℤ) (io : CloneIo)
    → io.root.magic ≡ true
    → end_clone_bio c err io
      ≡ some (
          if io.root.nactive - 1 == 0
          then finish_clones (clone_ended c err io)
          else clone_ended c err io)
unfolding end_clone_bio
end_clone-runs c err io magic = simp magic

end_clone-waits :
    (c : ℕ) (err : ℤ) (io : CloneIo)
    → io.root.magic ≡ true
    → (io.root.nactive - 1 == 0) ≡ false
    → end_clone_bio c err io ≡ some (clone_ended c err io)
end_clone-waits c err io magic more = end_clone-runs c err io magic ∙ simp more

end_clone-finishes :
    (c : ℕ) (err : ℤ) (io : CloneIo)
    → io.root.magic ≡ true
    → (io.root.nactive - 1 == 0) ≡ true
    → end_clone_bio c err io ≡ some (finish_clones (clone_ended c err io))
end_clone-finishes c err io magic last = end_clone-runs c err io magic ∙ simp last

-- While some clones of `order` are left.
pub end_clones_lem :
    (status : ℕ → ℤ) (order : List ℕ) (io : CloneIo)
    → io.root.magic ≡ true
    → io.root.nactive ≡ length order
    → 0 < length order
    → ((i : ℕ) → 0 < occurs i io.root.clones → (0 < occurs i order) ⊎ (io.root.status i ≡ status i))
    → (io' : CloneIo) × (end_clones status order io ≡ some io') × Finished status io io'
unfolding end_clones
end_clones_lem status [] io magic left some_left all = absurd (omega arith)
end_clones_lem status (c ∷ []) io magic left some_left all =
    let io₁ = clone_ended c (status c) io in
    let last : (io.root.nactive - 1 == 0) ≡ true = ground arith in
    (
      finish_clones io₁,
      ap (λ o. o >>= end_clones status []) (end_clone-finishes c (status c) io magic last),
      earlier-Finished status c (status c) io (finish_clones io₁) (
          finish-Finished status io₁ magic (λ i p. elim (dec_eq c i) [
            | yes here ↦ ground (arith, ap status here)
            | no other ↦ elim (all i p) [
              | inl left_over ↦ absurd (ground (arith, occurs-cons i c [], occurs-nil i, left_over))
              | inr done ↦ ground arith
            ]
          ])),
    )
end_clones_lem status (c ∷ d ∷ order) io magic left some_left all =
    let io₁ = clone_ended c (status c) io in
    let more : (io.root.nactive - 1 == 0) ≡ false = ground arith in
    let (io', e, finished) =
      end_clones_lem status (d ∷ order) io₁ magic (omega arith) (omega arith) (λ i p.
        elim (dec_eq c i) [
          | yes here ↦ inr (ground (arith, ap status here))
          | no other ↦ elim (all i p) [
            | inl left_over ↦ inl (ground (arith, occurs-cons i c (d ∷ order), left_over))
            | inr done ↦ inr (ground arith)
          ]
        ]) in
    (
      io',
      ap (λ o. o >>= end_clones status (d ∷ order)) (end_clone-waits c (status c) io magic more)
          ∙ e,
      earlier-Finished status c (status c) io io' finished,
    )
