-- ===== src/Boot/Undo.antt =====
-- What pxd_init leaves (pxd.c).
use pxmod.Common.{
  ℕ, suc, ap, sym, subst, ◌∙◌, ◌≤◌, ◌≡◌, ◌≢◌, ◌⊎◌, inl, inr, refl, arith, true, false, Option, none,
  some, List, [], ◌∷◌, length, Bool-cases,
}
use pxmod.Common.Int.{ℤ, pos, negsuc, is_zero, enomem}
use pxmod.Control.{Control, Module}
use pxmod.Boot.{
  Boot, Answers, nothing_held, drop, unregister_blkdev, init_contexts, out_fuse, start_sysfs,
  start_devices, pxd_init,
}
use pxmod.Boot.Laws.{AllClosed, length-drop, destroy-all, loop-Stopped}

ℤ-cases : (z : ℤ) → ((n : ℕ) × (z ≡ pos n)) ⊎ ((n : ℕ) × (z ≡ negsuc n))
ℤ-cases (pos n) = inl (n, refl)
ℤ-cases (negsuc n) = inr (n, refl)

length-zero : {A : Type 0} (xs : List A) → length xs ≡ 0 → xs ≡ []
length-zero [] h = refl
length-zero (x ∷ xs) h = absurd (omega arith)

-- The module is up.
pub record Held (m : Module) (b : Boot) : Type 0 where
  pub contexts : length b.contexts ≡ m.pxd_num_contexts
  pub registered : length b.registered ≡ m.pxd_num_contexts
  pub fuse_dev : b.fuse_dev ≡ true
  pub miscdev : b.miscdev ≡ true
  pub blkdev : b.blkdev ≢ none
  pub sysfs : b.sysfs ≡ true
  pub fastpath : b.fastpath ≡ true

-- Nothing that a process could use is left, and one context at most is not destroyed.
pub record Undone (b : Boot) : Type 0 where
  pub contexts : length b.contexts ≤ 1
  pub registered : b.registered ≡ []
  pub fuse_dev : b.fuse_dev ≡ false
  pub array : b.array ≡ false
  pub miscdev : b.miscdev ≡ false
  pub fastpath : b.fastpath ≡ false

nothing_held-Undone : Undone nothing_held
nothing_held-Undone = record {
  contexts = omega arith;
  registered = refl;
  fuse_dev = refl;
  array = refl;
  miscdev = refl;
  fastpath = refl;
}

module _ (m : Module) (a : Answers) (cpu : ℕ) where
  -- What a start that failed leaves besides: nothing, or the number of the block device, and sysfs
  -- too if it was the fast path that failed.
  abbrev pub Residue : Boot → Type 0
  Residue b =
      ((b.blkdev ≡ none) × (b.sysfs ≡ false))
      ⊎ ((b.blkdev ≢ none) × (b.sysfs ≡ false) × (is_zero a.sysfs_init ≡ false))
      ⊎ ((b.blkdev ≢ none)
          × (b.sysfs ≡ true)
          × (is_zero a.sysfs_init ≡ true)
          × (is_zero a.fastpath_init ≡ false))

  -- The start succeeds, or fails and is undone, but for what is named above.
  abbrev pub Outcome : Option (ℤ × Boot) → Type 0
  Outcome o =
      (err : ℤ) × (b : Boot) × (o ≡ some (err, b))
      × (((is_zero err ≡ true) × Held m b) ⊎ ((is_zero err ≡ false) × Undone b × Residue b))

  fails :
      (j : ℕ) (err : ℤ) (b : Boot)
      → AllClosed b.contexts
      → j ≤ length b.contexts
      → length b.contexts ≤ suc j
      → length b.registered ≡ j
      → b.miscdev ≡ false
      → b.fastpath ≡ false
      → is_zero err ≡ false
      → Residue b
      → Outcome (out_fuse m a cpu j err b)
  unfolding out_fuse
  fails j err b closed low high regs misc fast bad blk = (
    err,
    record b {
      contexts = drop j b.contexts;
      registered = drop j b.registered;
      array = false;
      fuse_dev = false;
    },
    simp (destroy-all m a cpu j b.contexts closed),
    inr (
      bad,
      record {
        contexts = omega (arith, length-drop j b.contexts low);
        registered =
            length-zero (drop j b.registered)
              (omega (arith, length-drop j b.registered (omega arith)));
        fuse_dev = refl;
        array = refl;
        miscdev = misc;
        fastpath = fast;
      },
      blk,
    ),
  )

  abbrev after_loop : List Control → List ℕ → Boot
  after_loop cs rs = record nothing_held {
    fuse_dev = true;
    array = true;
    contexts = cs;
    registered = rs;
  }

  module _ (cs : List Control) (rs : List ℕ) (closed : AllClosed cs) where
    sysfs-Outcome :
        (j major : ℕ)
        → length cs ≡ j
        → length rs ≡ j
        → j ≡ m.pxd_num_contexts
        → major ≢ 0
        → Outcome (
            start_sysfs m a cpu j
              (record (after_loop cs rs) { miscdev = true; blkdev = some major }))
    sysfs-Outcome j major p q all h =
        let kept : unregister_blkdev 0 (some major) ≡ some major = ground arith in
        let held : some major ≢ none = λ e. cc in
        let up = record (after_loop cs rs) { blkdev = some major } in
        let undone =
          λ (err : ℤ) (b : Boot) (e : b ≡ record up { sysfs = b.sysfs }) (bad : is_zero err ≡ false)
              (which : Residue b).
            subst (λ b. Outcome (out_fuse m a cpu j err b)) (sym e)
              (fails j err (record up { sysfs = b.sysfs }) closed (omega arith) (omega arith) q refl
                refl bad (subst Residue e which)) in
        elim (Bool-cases (is_zero a.sysfs_init)) [
          | inr bad ↦
              subst Outcome (sym (simp (bad, kept)))
                (undone a.sysfs_init up refl bad (inr (inl (held, refl, bad))))
          | inl good ↦ elim (Bool-cases (is_zero a.fastpath_init)) [
            | inr bad ↦ subst Outcome (sym (simp (good, bad, kept))) (
                undone a.fastpath_init (record up { sysfs = true }) refl bad
                  (inr (inr (held, refl, good, bad))))
            | inl fine ↦ subst Outcome (sym (simp (good, fine))) (
              pos 0,
              record up { miscdev = true; sysfs = true; fastpath = true },
              refl,
              inl (
                refl,
                record {
                  contexts = p ∙ all;
                  registered = q ∙ all;
                  fuse_dev = refl;
                  miscdev = refl;
                  blkdev = held;
                  sysfs = refl;
                  fastpath = refl;
                },
              ),
            )
          ]
        ]

    start-Outcome :
        (err : ℤ) (j : ℕ)
        → length rs ≡ j
        → ((is_zero err ≡ true) × (length cs ≡ j) × (j ≡ m.pxd_num_contexts))
          ⊎ ((is_zero err ≡ false) × (j ≤ length cs) × (length cs ≤ suc j))
        → a.register_blkdev ≢ pos 0
        → Outcome (start_devices m a cpu (err, j, after_loop cs rs))
    start-Outcome err j q (inr (bad, low, high)) h =
        subst Outcome (sym (simp bad))
          (fails j err (after_loop cs rs) closed low high q refl refl bad (inl (refl, refl)))
    start-Outcome err j q (inl (good, p, all)) h =
        let failed = λ (e : ℤ) (bad : is_zero e ≡ false).
          fails j e (after_loop cs rs) closed (omega arith) (omega arith) q refl refl bad
            (inl (refl, refl)) in
        elim (Bool-cases (is_zero a.misc_register_first)) [
          | inr bad ↦ subst Outcome (sym (simp (good, bad))) (failed a.misc_register_first bad)
          | inl fine ↦ elim (ℤ-cases a.register_blkdev) [
            | inr (k, e) ↦ subst Outcome (sym (simp (good, fine, e))) (failed (negsuc k) refl)
            | inl (major, e) ↦
                subst Outcome (sym (simp (good, fine, e)))
                  (sysfs-Outcome j major p q all (λ z. h (e ∙ ap pos z)))
          ]
        ]

  -- If the kernel leaves a connection that is zeroed closed and never gives out the number 0 for a
  -- block device: the start of the module returns, and either it succeeds with every context set up
  -- and registered, or it fails with an error and is undone, but for three things: one context may
  -- be left that is set up and not destroyed; if sysfs or the fast path fails, the number of the
  -- block device stays registered; and if the fast path fails, sysfs stays registered too.
  pub init_lem : a.zeroed.connected ≡ false → a.register_blkdev ≢ pos 0 → Outcome (pxd_init m a cpu)
  unfolding pxd_init
  init_lem off h = elim (Bool-cases (is_zero a.fuse_dev_init)) [
    | inr bad ↦
        subst Outcome (sym (simp bad))
          (a.fuse_dev_init, nothing_held, refl, inr (bad, nothing_held-Undone, inl (refl, refl)))
    | inl good ↦ elim (Bool-cases a.kzalloc) [
      | inr no_memory ↦
          subst Outcome (sym (simp (good, no_memory)))
            (enomem, nothing_held, refl, inr (refl, nothing_held-Undone, inl (refl, refl)))
      | inl memory ↦
          let b₀ = after_loop [] [] in
          let r = init_contexts m a m.pxd_num_contexts 0 b₀ in
          let (s, last) = loop-Stopped m a m.pxd_num_contexts 0 b₀ off refl refl refl in
          let state =
            elim s.contexts
              as (λ _.
                ((is_zero r.0 ≡ true) × (length r.2.contexts ≡ r.1) × (r.1 ≡ m.pxd_num_contexts))
                ⊎ ((is_zero r.0 ≡ false)
                    × (r.1 ≤ length r.2.contexts)
                    × (length r.2.contexts ≤ suc r.1))) [
                      | inl (z, p) ↦ inl (z, p, omega (arith, last z))
                      | inr more ↦ inr more
                    ] in
          let run =
            start-Outcome r.2.contexts r.2.registered s.closed r.0 r.1 s.registered state h in
          subst Outcome (sym (simp (good, memory)))
            (subst (λ b. Outcome (start_devices m a cpu (r.0, r.1, b))) (sym s.frame) run)
    ]
  ]
