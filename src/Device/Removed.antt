-- ===== src/Device/Removed.antt =====
-- The invariant of the devices under pxd_export and pxd_remove (pxd.c).
use pxmod.Common.{
  ℕ, ltb, Option, ap, ◌∙◌, ◌+◌, ◌≡◌, arith, true, false, not, ◌&&◌, ◌||◌, ◌==◌, none, some, inl,
  inr, ◌⊎◌, refl, update, occurs, occurs-list_del, length-list_del, Bool-cases, if◌then◌else◌,
}
use pxmod.Common.Int.{ℤ, pos, is_zero, enoent, ebusy}
use pxmod.Conn.Source.Layout.{RemoveOut}
use pxmod.Device.State.{Device, Context, set_dev, find_pxd_device}
use pxmod.Device.Ops.{FastpathOps}
use pxmod.Device.Remove.{
  ExportSteps, export_error, drop_device, pxd_export, export_found, remove_found, pxd_remove,
  pxd_finish_remove, with_disk,
}
use pxmod.Device.Leave.{leave-Inv, found-Listed}
use pxmod.Device.Finish.{finish-runs, finish-Inv, finish-gone, minors_left}
use pxmod.Device.Laws.{Listed, DevicesInv, set_dev-Inv, find_pxd_device_lem}

-- A device that is dropped gives its minor back, which no other device has.
drop-Inv : (ctx : Context) (p : ℕ) → Listed ctx p → DevicesInv ctx → DevicesInv (drop_device ctx p)
unfolding drop_device
drop-Inv ctx p l inv =
    leave-Inv ctx p (record (ctx.devs p) { exported = false })
      (update ctx.minors (ctx.devs p).minor false) l (λ m other taken. ground arith) inv

-- The result of an export of the device at `p`, if there is one.
abbrev pub Exported : Context → ℕ → ℤ × Context → Type 0
Exported ctx p (err, ctx') =
    DevicesInv ctx'
    × (((err ≡ pos 0) × Listed ctx' p × ((ctx'.devs p).exported ≡ true))
        ⊎ ((is_zero err ≡ false)
            × (occurs p ctx'.list ≡ 0)
            × (ctx'.num_devices + 1 ≡ ctx.num_devices)))

-- How an export of the device at `p` ends.
pub data Exports (steps : ExportSteps) (ctx : Context) (p : ℕ) (o : Option (ℤ × Context))
    : Type 0 where
  returns : (r : ℤ × Context) → o ≡ some r → Exported ctx p r → Exports steps ctx p o
  freed_twice :
      o ≡ none
      → (ctx.devs p).exported ≡ false
      → is_zero steps.device_add_disk ≡ false
      → Exports steps ctx p o

export-runs :
    (steps : ExportSteps) (ctx : Context) (dev_id p : ℕ)
    → find_pxd_device ctx dev_id ≡ some p
    → pxd_export steps ctx dev_id ≡ (
        if (ctx.devs p).exported
        then some (pos 0, ctx)
        else if not (is_zero (export_error steps))
        then some (export_error steps, drop_device ctx p)
        else if is_zero steps.device_add_disk
        then some (pos 0, set_dev ctx p (with_disk (ctx.devs p)))
        else none)
unfolding pxd_export export_found
export-runs steps ctx dev_id p e = ap (export_found steps ctx) e

-- An export of a device that is listed returns, unless the device is not yet exported and
-- device_add_disk fails, when the device is freed twice. When it returns, the devices are different,
-- counted, and with minors of their own; with 0 the device that was named is exported, and after a
-- failed step it is off the list.
pub export-Inv :
    (steps : ExportSteps) (ctx : Context) (dev_id p : ℕ)
    → DevicesInv ctx
    → find_pxd_device ctx dev_id ≡ some p
    → Exports steps ctx p (pxd_export steps ctx dev_id)
export-Inv steps ctx dev_id p inv e =
    let l = found-Listed ctx dev_id p e in
    let run = export-runs steps ctx dev_id p e in
    elim (Bool-cases (ctx.devs p).exported) [
      | inl done ↦ Exports.returns (pos 0, ctx) (run ∙ simp done) (inv, inl (refl, l, done))
      | inr not_yet ↦ elim (Bool-cases (is_zero (export_error steps))) [
        | inr bad ↦
            Exports.returns (export_error steps, drop_device ctx p) (run ∙ simp (not_yet, bad))
              (
                drop-Inv ctx p l inv,
                inr (
                  bad,
                  (unfold drop_device in ground (arith, inv.once p, occurs-list_del p p ctx.list)),
                  (unfold drop_device in ground (arith, inv.counted, length-list_del p ctx.list l)),
                ),
              )
        | inl fine ↦ elim (Bool-cases (is_zero steps.device_add_disk)) [
          | inl added ↦
              Exports.returns (pos 0, set_dev ctx p (with_disk (ctx.devs p)))
                (run ∙ simp (not_yet, fine, added))
                (
                  set_dev-Inv ctx p (with_disk (ctx.devs p)) refl refl inv,
                  inl (refl, l, ground arith),
                )
          | inr bad ↦ Exports.freed_twice (run ∙ simp (not_yet, fine, bad)) not_yet bad
        ]
      ]
    ]

remove-runs :
    (remove : RemoveOut) (ctx : Context) (p : ℕ)
    → find_pxd_device ctx remove.dev_id ≡ some p
    → pxd_remove remove ctx ≡ (
        if not (ctx.devs p).exported
        then (enoent, none, ctx)
        else if not ((ctx.devs p).open_count == 0) && not remove.force
        then (ebusy, none, ctx)
        else if (ctx.devs p).removing
        then (pos 0, none, ctx)
        else (pos 0, some p, set_dev ctx p (record (ctx.devs p) { removing = true })))
unfolding pxd_remove remove_found
remove-runs remove ctx p e = ap (remove_found remove ctx) e

-- A device that is being removed is not scheduled again.
remove-again :
    (remove : RemoveOut) (ctx : Context) (p : ℕ)
    → find_pxd_device ctx remove.dev_id ≡ some p
    → (ctx.devs p).exported ≡ true
    → ((ctx.devs p).open_count == 0 || remove.force) ≡ true
    → (ctx.devs p).removing ≡ true
    → pxd_remove remove ctx ≡ (pos 0, none, ctx)
remove-again remove ctx p e exported closed removing =
    let may : (not ((ctx.devs p).open_count == 0) && not remove.force) ≡ false = ground arith in
    remove-runs remove ctx p e ∙ simp (exported, may, removing)

-- A removal of an exported device that is not open, or that is forced, and not already under way:
-- the device is marked and its removal is scheduled, once; the scheduled work then takes it off the
-- list. The devices stay different, counted, and with minors of their own. The minor of the device
-- stays taken if others hold references to the device, and is given back if nobody does.
pub remove-finished :
    (fp : FastpathOps) (held : ℕ) (remove : RemoveOut) (ctx : Context) (p : ℕ)
    → DevicesInv ctx
    → find_pxd_device ctx remove.dev_id ≡ some p
    → (ctx.devs p).exported ≡ true
    → ((ctx.devs p).open_count == 0 || remove.force) ≡ true
    → (ctx.devs p).removing ≡ false
    → (ctx' : Context) × (pxd_remove remove ctx ≡ (pos 0, some p, ctx'))
      × ((ctx'.devs p).removing ≡ true)
      × (pxd_remove remove ctx' ≡ (pos 0, none, ctx'))
      × DevicesInv (pxd_finish_remove fp held ctx' p)
      × (find_pxd_device (pxd_finish_remove fp held ctx' p) remove.dev_id ≡ none)
      × ((pxd_finish_remove fp held ctx' p).minors (ctx.devs p).minor ≡ ltb 0 held)
remove-finished fp held remove ctx p inv e exported closed idle =
    let (l, i) = (find_pxd_device_lem ctx remove.dev_id p inv).0 e in
    let d = record (ctx.devs p) { removing = true } in
    let ctx' = set_dev ctx p d in
    let inv' = set_dev-Inv ctx p d refl refl inv in
    let at : ctx'.devs p ≡ d = ground arith in
    let found =
      (find_pxd_device_lem ctx' remove.dev_id p inv').1 (l, ap (λ (d : Device). d.dev_id) at ∙ i) in
    let may : (not ((ctx.devs p).open_count == 0) && not remove.force) ≡ false = ground arith in
    (
      ctx',
      remove-runs remove ctx p e ∙ simp (exported, may, idle),
      ap (λ (d : Device). d.removing) at,
      remove-again remove ctx' p found (ap (λ (d : Device). d.exported) at ∙ exported)
          (ap (λ (d : Device). d.open_count == 0 || remove.force) at ∙ closed)
          (ap (λ (d : Device). d.removing) at),
      finish-Inv fp held ctx' p l inv',
      finish-gone fp held ctx' p remove.dev_id l (ap (λ (d : Device). d.dev_id) at ∙ i) inv',
      ap (λ (c : Context). c.minors (ctx.devs p).minor) (finish-runs fp held ctx' p)
          ∙ minors_left held ctx' p (ctx.devs p).minor (ap (λ (d : Device). d.minor) at)
              (inv.taken p l),
    )
