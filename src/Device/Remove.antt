-- ===== src/Device/Remove.antt =====
-- pxd.c: a device is exported as a disk, removed, and resized.
use pxmod.Common.{
  ℕ, ◌+◌, ◌-◌, ◌/◌, Bool, true, false, ◌&&◌, not, Option, none, some, List, [], ◌∷◌, ◌==◌, ltb,
  if◌then◌else◌, update, list_del,
}
use pxmod.Common.Int.{ℤ, pos, is_zero, einval, enoent, ebusy, enodev, eopnotsupp}
use pxmod.Conn.Source.Layout.{RemoveOut, UpdateSize}
use pxmod.Device.State.{Device, Context, set_dev, find_pxd_device}
use pxmod.Device.Ops.{FastpathOps, put_minor}

-- What the steps of an export return: try_module_get, pxd_init_disk, pxd_bus_add_dev and
-- device_add_disk, which is 0 on kernels where its result is not used.
pub record ExportSteps : Type 0 where
  pub try_module_get : Bool
  pub pxd_init_disk : ℤ
  pub pxd_bus_add_dev : ℤ
  pub device_add_disk : ℤ

-- The error of a step before device_add_disk.
unfoldable pub export_error : ExportSteps → ℤ
export_error s =
    if not s.try_module_get
    then enodev
    else if not (is_zero s.pxd_init_disk)
    then s.pxd_init_disk
    else s.pxd_bus_add_dev

-- An exported device has a disk of its size, in sectors.
abbrev pub with_disk : Device → Device
with_disk d = record d { disk = true; exported = true; capacity = d.size / 512 }

-- The device leaves the list and gives its minor back.
unfoldable pub drop_device : Context → ℕ → Context
drop_device ctx p = record ctx {
  list = list_del p ctx.list;
  num_devices = ctx.num_devices - 1;
  minors = update ctx.minors (ctx.devs p).minor false;
  devs = update ctx.devs p (record (ctx.devs p) { exported = false });
}

-- When device_add_disk fails, device_unregister gives up the only reference: the device is freed
-- and its minor given back, and both are then used, given back and freed again, which is `none`.
unfoldable pub export_found : ExportSteps → Context → Option ℕ → Option (ℤ × Context)
unfolding drop_device export_error
export_found steps ctx none = some (enoent, ctx)
export_found steps ctx (some p) =
    if (ctx.devs p).exported
    then some (pos 0, ctx)
    else if not (is_zero (export_error steps))
    then some (export_error steps, drop_device ctx p)
    else if is_zero steps.device_add_disk
    then some (pos 0, set_dev ctx p (with_disk (ctx.devs p)))
    else none

unfoldable pub pxd_export : ExportSteps → Context → ℕ → Option (ℤ × Context)
unfolding export_found
pxd_export steps ctx dev_id = export_found steps ctx (find_pxd_device ctx dev_id)

-- The device that work is scheduled for, if it is.
unfoldable pub remove_found : RemoveOut → Context → Option ℕ → ℤ × Option ℕ × Context
remove_found remove ctx none = (enoent, none, ctx)
remove_found remove ctx (some p) =
    if not (ctx.devs p).exported
    then (enoent, none, ctx)
    else if not ((ctx.devs p).open_count == 0) && not remove.force
    then (ebusy, none, ctx)
    else if (ctx.devs p).removing
    then (pos 0, none, ctx)
    else (pos 0, some p, set_dev ctx p (record (ctx.devs p) { removing = true }))

unfoldable pub pxd_remove : RemoveOut → Context → ℤ × Option ℕ × Context
unfolding remove_found
pxd_remove remove ctx = remove_found remove ctx (find_pxd_device ctx remove.dev_id)

-- When the last reference to the device goes, it gives its minor back.
unfoldable pub pxd_dev_device_release : Context → ℕ → Context
pxd_dev_device_release ctx p = put_minor ctx (ctx.devs p).minor

-- put_device, with `refs` references to the device: those that are left, and the context.
unfoldable pub put_ref : ℕ → Context → ℕ → ℕ × Context
put_ref refs ctx p = if refs == 1 then (0, pxd_dev_device_release ctx p) else (refs - 1, ctx)

module _ (fp : FastpathOps) where
  unfoldable pub pxd_free_disk : Device → Device
  pxd_free_disk d = if d.disk then record (fp.disable_fast_path false d) { disk = false } else d

  abbrev pub without_disk : Context → ℕ → Context
  without_disk ctx p = set_dev ctx p (pxd_free_disk (fp.pxd_fastpath_reset_device (ctx.devs p)))

  abbrev pub off_list : Context → ℕ → Context
  off_list ctx p = record (set_dev ctx p (record (ctx.devs p) { exported = false })) {
    list = list_del p ctx.list;
    num_devices = ctx.num_devices - 1;
  }

  -- The scheduled work: the fast path and the disk go, the registration gives up its reference, and
  -- the device leaves the list. `held` is how many references others have: the process that waits
  -- for the removal, and who holds the device open.
  unfoldable pub pxd_finish_remove : ℕ → Context → ℕ → Context
  unfolding pxd_free_disk
  pxd_finish_remove held ctx p =
      let (refs, ctx) = put_ref (held + 2) (without_disk ctx p) p in
      (put_ref refs (off_list ctx p) p).1

abbrev pub pxd_update_size : UpdateSize → Context → ℤ × Context
pxd_update_size u ctx = (eopnotsupp, ctx)

-- The first device of the list with the id that is not being removed.
unfoldable pub find_kept : ℕ → (ℕ → Device) → List ℕ → Option ℕ
find_kept dev_id devs [] = none
find_kept dev_id devs (p ∷ ps) =
    let rest = find_kept dev_id devs ps in
    if (devs p).dev_id == dev_id && not (devs p).removing then some p else rest

unfoldable pub pxd_ioc_update_size : UpdateSize → Context → ℤ × Context
pxd_ioc_update_size u ctx = elim (find_kept u.dev_id ctx.devs ctx.list) [
  | none ↦ (enoent, ctx)
  | some p ↦
      if ltb u.size (ctx.devs p).size
      then (einval, ctx)
      else (pos 0, set_dev ctx p (record (ctx.devs p) { capacity = u.size / 512 }))
]
