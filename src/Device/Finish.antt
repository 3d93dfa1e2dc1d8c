-- ===== src/Device/Finish.antt =====
-- pxd_finish_remove and the references to a device (pxd.c).
use native.Mathlib.Decide.{ℕ_discrete as dec_eq}
use pxmod.Common.{
  ℕ, zero, suc, ltb, fun_ext, ap, ◌∙◌, sym, subst, ◌+◌, ◌-◌, ◌<◌, ◌≡◌, ◌≢◌, arith, Bool, true,
  false, ◌==◌, none, inl, inr, update, list_del, occurs, Bool-cases, Option-cases, if◌then◌else◌,
}
use pxmod.Device.State.{Device, Context, set_dev, find_pxd_device}
use pxmod.Device.Ops.{FastpathOps}
use pxmod.Device.Remove.{
  pxd_finish_remove, pxd_free_disk, put_ref, off_list, without_disk, pxd_dev_device_release,
}
use pxmod.Device.Laws.{Listed, DevicesInv, find_pxd_device_lem}
-- What is left of a list without repetitions.
use pxmod.Device.Leave.{list_del-Listed, leave-Inv}

-- The minors after the work: only the last reference gives the minor back.
abbrev pub minors_after : ℕ → Context → ℕ → ℕ → Bool
minors_after held ctx p =
    if held == 0 then update ctx.minors (ctx.devs p).minor false else ctx.minors

minors_after-at :
    (held : ℕ) (ctx : Context) (p : ℕ)
    → ctx.minors (ctx.devs p).minor ≡ true
    → minors_after held ctx p (ctx.devs p).minor ≡ ltb 0 held
minors_after-at zero ctx p h = ground arith
minors_after-at (suc held) ctx p h = ground arith

minors_after-other :
    (held : ℕ) (ctx : Context) (p m : ℕ)
    → (ctx.devs p).minor ≢ m
    → ctx.minors m ≡ true
    → minors_after held ctx p m ≡ true
minors_after-other zero ctx p m other h = ground arith
minors_after-other (suc held) ctx p m other h = ground arith

update_self : (devs : ℕ → Device) (p : ℕ) (d : Device) → update devs p d p ≡ d
update_self devs p d = ground arith

update_twice :
    (devs : ℕ → Device) (p : ℕ) (d e : Device) → update (update devs p d) p e ≡ update devs p e
update_twice devs p d e = fun_ext (λ q. ground arith)

-- The registration gives up its reference, and the work still has one.
first_put : (held : ℕ) (ctx : Context) (p : ℕ) → put_ref (held + 2) ctx p ≡ (held + 1, ctx)
unfolding put_ref
first_put held ctx p =
    let more : (held + 2 == 1) ≡ false = ground arith in
    simp more (ap (λ k. (k, ctx)) (omega arith))

module _ (fp : FastpathOps) (held : ℕ) (ctx : Context) (p : ℕ) where
  abbrev pub bare : Device
  bare = record (pxd_free_disk fp (fp.pxd_fastpath_reset_device (ctx.devs p))) { exported = false }

  bare-minor : bare.minor ≡ (ctx.devs p).minor
  unfolding pxd_free_disk
  bare-minor =
      let d = fp.pxd_fastpath_reset_device (ctx.devs p) in
      elim (Bool-cases d.disk) [
        | inl there ↦ simp there ((fp.disable_same false d).1 ∙ (fp.reset_same (ctx.devs p)).1)
        | inr gone ↦ simp gone (fp.reset_same (ctx.devs p)).1
      ]

  -- Off the list, without what the references do.
  abbrev pub unlisted : Context
  unlisted = record (set_dev ctx p bare) {
    list = list_del p ctx.list;
    num_devices = ctx.num_devices - 1;
  }

  off_list-unlisted : off_list fp (without_disk fp ctx p) p ≡ unlisted
  off_list-unlisted =
      let d = pxd_free_disk fp (fp.pxd_fastpath_reset_device (ctx.devs p)) in
      ap
        (λ (devs : ℕ → Device). record ctx {
          devs = devs;
          list = list_del p ctx.list;
          num_devices = ctx.num_devices - 1;
        })
        (update_twice ctx.devs p d (record (update ctx.devs p d p) { exported = false })
          ∙ ap (λ (x : Device). update ctx.devs p (record x { exported = false }))
              (update_self ctx.devs p d))

  last_put :
      (put_ref (held + 1) unlisted p).1 ≡ record unlisted { minors = minors_after held ctx p }
  unfolding put_ref pxd_dev_device_release
  last_put = elim (dec_eq held 0) [
    | yes e ↦
        let one : (held + 1 == 1) ≡ true = ground arith in
        let zero_held : (held == 0) ≡ true = ground arith in
        let same : (update ctx.devs p bare p).minor ≡ (ctx.devs p).minor =
          ap (λ (d : Device). d.minor) (update_self ctx.devs p bare) ∙ bare-minor in
        simp (one, zero_held)
          (ap (λ m. record unlisted { minors = update ctx.minors m false }) same)
    | no more ↦
        let many : (held + 1 == 1) ≡ false = ground arith in
        let some_held : (held == 0) ≡ false = ground arith in simp (many, some_held)
  ]

  pub finish-runs :
      pxd_finish_remove fp held ctx p ≡ record unlisted { minors = minors_after held ctx p }
  unfolding pxd_finish_remove
  finish-runs =
      ap (λ (x : ℕ × Context). (put_ref x.0 (off_list fp x.1 p) p).1)
        (first_put held (without_disk fp ctx p) p)
      ∙ ap (λ (c : Context). (put_ref (held + 1) c p).1) off_list-unlisted
      ∙ last_put

pub minors_left :
    (held : ℕ) (ctx : Context) (p m : ℕ)
    → (ctx.devs p).minor ≡ m
    → ctx.minors m ≡ true
    → minors_after held ctx p m ≡ ltb 0 held
minors_left held ctx p m e h =
    subst (λ k. ctx.minors k ≡ true → minors_after held ctx p k ≡ ltb 0 held) e
      (minors_after-at held ctx p) h

pub finish-Inv :
    (fp : FastpathOps) (held : ℕ) (ctx : Context) (p : ℕ)
    → Listed ctx p
    → DevicesInv ctx
    → DevicesInv (pxd_finish_remove fp held ctx p)
finish-Inv fp held ctx p l inv = subst DevicesInv (sym (finish-runs fp held ctx p)) (
    leave-Inv ctx p (bare fp held ctx p) (minors_after held ctx p) l
      (λ m other taken. minors_after-other held ctx p m other taken) inv)

pub finish-gone :
    (fp : FastpathOps) (held : ℕ) (ctx : Context) (p dev_id : ℕ)
    → Listed ctx p
    → (ctx.devs p).dev_id ≡ dev_id
    → DevicesInv ctx
    → find_pxd_device (pxd_finish_remove fp held ctx p) dev_id ≡ none
finish-gone fp held ctx p dev_id l same inv =
    let done = pxd_finish_remove fp held ctx p in
    let run = finish-runs fp held ctx p in
    elim (Option-cases (find_pxd_device done dev_id)) [
      | inl e ↦ e
      | inr (q, e) ↦
          let (m, i) = (find_pxd_device_lem done dev_id q (finish-Inv fp held ctx p l inv)).0 e in
          let (k, other) =
            list_del-Listed ctx p q inv (subst (λ (c : Context). 0 < occurs q c.list) run m) in
          absurd (
            other (
              inv.ids p q l k (
                same
                ∙ sym i
                ∙ ap (λ (c : Context). (c.devs q).dev_id) run
                ∙ ap (λ (d : Device). d.dev_id)
                    (update_other ctx.devs p q (bare fp held ctx p) other))))
    ]
  where
    update_other : (devs : ℕ → Device) (p q : ℕ) (d : Device) → p ≢ q → update devs p d q ≡ devs q
    update_other devs p q d other = ground arith
