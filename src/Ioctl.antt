-- ===== src/Ioctl.antt =====
-- pxd.c: the ioctls of a control device, and the list of devices that PXD_IOC_INIT gives to a
-- process.
pub mod Init
pub mod Version
use pxmod.Common.{
  ℕ, zero, suc, ◌+◌, ◌-◌, ◌*◌, ◌/◌, ◌%◌, ◌^◌, min, Bool, true, false, not, Option, none, some, List,
  [], ◌∷◌, ◌++◌, ◌==◌, leb, length, get_elem?, if◌then◌else◌, ◌>>=◌,
}
use pxmod.Common.Int.{ℤ, pos, negsuc, efault}
use pxmod.Conn.Source.Layout.{UpdateSize}
use pxmod.Device.State.{Device, Context, set_dev, find_pxd_device}
use pxmod.Device.Remove.{pxd_ioc_update_size}
use pxmod.Fastpath.Paths.{pxd_fastpath_vol_cleanup}
use pxmod.Fastpath.Suspend.{pxd_request_resume}
use pxmod.Control.{Control, Module}
use pxmod.Sysfs.{take}

-- A number in `n` bytes, the lowest first.
unfoldable pub store : ℕ → ℕ → List ℕ
store zero x = []
store (suc n) x = x % 256 ∷ store n (x / 256)

abbrev pub pxd_version : ℕ
pxd_version = 12

-- struct pxd_init_in.
abbrev pub init_in : ℕ → List ℕ
init_in num_devices = store 4 pxd_version ++ store 4 num_devices

-- The byte with the bits fastpath, blkmq_device and suspend.
abbrev pub id_flags : Device → ℕ
id_flags d = if d.fp.fastpath then 3 else 2

-- struct pxd_dev_id.
unfoldable pub dev_id_bytes : Device → List ℕ
dev_id_bytes d = store 4 d.minor ++ (0 ∷ 0 ∷ 0 ∷ id_flags d ∷ (store 8 d.dev_id ++ store 8 0))

-- The loop over the devices; `ok` says which of the copies are complete, and `k` is the number of
-- the next one.
unfoldable pub read_ids : (ℕ → Bool) → ℕ → ℕ → List ℕ → Context → ℤ × List ℕ × Context
read_ids ok k copied [] ctx = (pos copied, [], ctx)
read_ids ok k copied (p ∷ ps) ctx =
    let d = (pxd_request_resume (ctx.devs p)).1 in
    let (err, bytes, after) = read_ids ok (suc k) (copied + 24) ps (set_dev ctx p d) in
    if ok k then (err, dev_id_bytes d ++ bytes, after) else (efault, [], set_dev ctx p d)

-- The result, the bytes that were copied, and the context.
unfoldable pub pxd_read_init : (ℕ → Bool) → Context → ℤ × List ℕ × Context
pxd_read_init ok ctx =
    let (err, bytes, after) = read_ids ok 1 8 ctx.list ctx in
    if ok 0 then (err, init_in ctx.num_devices ++ bytes, after) else (efault, [], ctx)

-- piv_len and piv_data of struct pxd_ioctl_version_args; `argp` is not NULL if it is true.
unfoldable pub pxd_ioctl_get_version : List ℕ → Bool → Bool → Bool → ℤ × Option ℕ × Option (List ℕ)
pxd_ioctl_get_version gitversion argp ok_len ok_data =
    let ver_len = min (length gitversion + 1) 64 in
    if not argp
    then (pos 0, none, none)
    else if not ok_len
    then (efault, none, none)
    else if not ok_data
    then (efault, some ver_len, none)
    else (pos 0, some ver_len, some (take (ver_len - 1) gitversion ++ 0 ∷ []))

-- An int in an unsigned.
abbrev pub as_unsigned : ℤ → ℕ
as_unsigned (pos n) = n
as_unsigned (negsuc n) = 2 ^ 32 - 1 - n

-- The context that a message names; the outer `none` is an access past the array of contexts.
abbrev pub named : Module → List Control → ℕ → Option (Option Control)
named m contexts i =
    if leb m.pxd_num_contexts_exported i
    then some none
    else (get_elem? contexts i >>= λ c.
        some (if leb m.pxd_num_contexts_exported c.id then none else some c))

-- The result, and the device context that is changed.
abbrev pub resize_in : UpdateSize → Option Control → ℤ × Option Context
resize_in u none = (efault, none)
resize_in u (some c) = let (err, ctx) = pxd_ioc_update_size u c.ctx in (err, some ctx)

unfoldable pub pxd_ioctl_resize :
    Module → List Control → Option UpdateSize → Option (ℤ × Option Context)
pxd_ioctl_resize m contexts none = some (efault, none)
pxd_ioctl_resize m contexts (some u) =
    named m contexts (as_unsigned u.context_id) >>= λ c. some (resize_in u c)

abbrev pub cleanup_at : Context → Option ℕ → ℤ × Option Context
cleanup_at ctx none = (pos 0, some ctx)
cleanup_at ctx (some p) =
    let (err, d) = pxd_fastpath_vol_cleanup (ctx.devs p) in (err, some (set_dev ctx p d))

abbrev pub cleanup_in : ℕ → Option Control → ℤ × Option Context
cleanup_in dev_id none = (efault, none)
cleanup_in dev_id (some c) = cleanup_at c.ctx (find_pxd_device c.ctx dev_id)

-- The message has the id of a device and of a context.
unfoldable pub pxd_ioctl_fp_cleanup :
    Module → List Control → Option (ℕ × ℤ) → Option (ℤ × Option Context)
pxd_ioctl_fp_cleanup m contexts none = some (efault, none)
pxd_ioctl_fp_cleanup m contexts (some (dev_id, context_id)) =
    named m contexts (as_unsigned context_id) >>= λ c. some (cleanup_in dev_id c)
