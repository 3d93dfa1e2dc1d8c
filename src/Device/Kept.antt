-- ===== src/Device/Kept.antt =====
-- The invariant of the devices under pxd_add (pxd.c).
use pxmod.Common.{
  ℕ, ◌≡◌, false, not, ◌&&◌, some, inl, inr, refl, Option, leb, ltb, occurs, Bool-cases,
  Option-cases,
}
use pxmod.Common.Int.{ℤ, pos, negsuc, is_zero}
use pxmod.Conn.Source.Layout.{AddExtOut}
use pxmod.Conn.State.{pxd_max_devices}
use pxmod.Device.State.{Context, find_pxd_device}
use pxmod.Device.Ops.{FastpathOps, pxd_add, add_again, add_new}
use pxmod.Device.Laws.{DevicesInv, set_dev-Inv, add_new-Inv}

module _ (fp : FastpathOps) where
  -- A device that exists gets new paths, or loses its fast path: it keeps its identity.
  add_again-Inv :
      (ctx : Context) (p : ℕ) (add : AddExtOut)
      → DevicesInv ctx
      → DevicesInv (add_again fp ctx p add).1
  unfolding add_again
  add_again-Inv ctx p add inv =
      elim (Bool-cases (not (is_zero add.enable_fp) && ltb 0 add.paths.count)) [
        | inl paths ↦
            let (i, m) = fp.path_same add.paths (ctx.devs p) in
            simp paths (set_dev-Inv ctx p (fp.pxd_update_path add.paths (ctx.devs p)) i m inv)
        | inr without ↦
            let (i, m) = fp.disable_same false (ctx.devs p) in
            simp without (set_dev-Inv ctx p (fp.disable_fast_path false (ctx.devs p)) i m inv)
      ]

  -- Adding a device keeps the devices different, counted, and with minors of their own, on every
  -- branch and whatever other threads do meanwhile, if they keep that too, the memory of the new
  -- device is not that of a listed one, and its minor is free.
  pub add-Inv :
      (alloc : Option ℕ) (ida : ℤ) (meanwhile : Context → Context) (add : AddExtOut) (ctx : Context)
      → ((p : ℕ) → alloc ≡ some p → occurs p (meanwhile ctx).list ≡ 0)
      → ((minor : ℕ) → ida ≡ pos minor → (meanwhile ctx).minors minor ≡ false)
      → DevicesInv (meanwhile ctx)
      → DevicesInv ctx
      → DevicesInv (pxd_add fp alloc ida meanwhile add ctx).1
  unfolding pxd_add
  add-Inv alloc ida meanwhile add ctx new free inv' inv =
      elim (Bool-cases (leb pxd_max_devices ctx.num_devices)) [
        | inl many ↦ simp many inv
        | inr few ↦ elim (Option-cases (find_pxd_device ctx add.dev_id)) [
          | inr (p, e) ↦ simp (few, e) (add_again-Inv ctx p add inv)
          | inl e ↦ elim (Option-cases alloc) [
            | inl no_memory ↦ simp (few, e, no_memory) inv'
            | inr (p, memory) ↦ simp (few, e, memory) (entered p memory ida refl)
          ]
        ]
      ]
    where
      entered :
          (p : ℕ)
          → alloc ≡ some p
          → (i : ℤ) → ida ≡ i
          → DevicesInv
              (elim i as (λ _. ℤ × Context) [
                | negsuc e ↦ (negsuc e, meanwhile ctx)
                | pos minor ↦ add_new fp (meanwhile ctx) p minor add
              ]).1
      entered p memory (negsuc e) same = inv'
      entered p memory (pos minor) same =
          add_new-Inv fp (meanwhile ctx) p minor add (new p memory) (free minor same) inv'
