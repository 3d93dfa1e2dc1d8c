-- ===== src/Device/Ops.antt =====
-- pxd.c: open and release, and how a process adds a device.
use pxmod.Common.{
  ℕ, ◌≡◌, ◌+◌, ◌-◌, ◌^◌, Bool, true, false, ◌&&◌, not, Option, none, some, [], ◌∷◌, ◌==◌, ltb, leb,
  if◌then◌else◌, update,
}
use pxmod.Common.Int.{ℤ, pos, negsuc, is_zero, enomem, einval, eexist, ebusy, enxio}
use pxmod.Conn.State.{pxd_max_devices, pxd_max_qdepth}
use pxmod.Conn.Source.Layout.{AddExtOut, UpdatePathOut}
use pxmod.Device.State.{Device, Fastpath, Context, set_dev, find_pxd_device}

-- The error, and the device.
unfoldable pub pxd_open : Option Device → ℤ × Option Device
pxd_open none = (enxio, none)
pxd_open (some d) =
    if not d.connected
    then (enxio, some d)
    else if d.removing
    then (ebusy, some d)
    else (pos 0, some (record d { open_count = d.open_count + 1 }))

-- Only a device that is open is released.
unfoldable pub pxd_release : Device → Device
pxd_release d = record d { open_count = d.open_count - 1 }

-- What the fast path offers to pxd.c. It does not touch the identity of a device.
pub record FastpathOps : Type 0 where
  pub pxd_fastpath_init : Device → ℤ × Device
  pub pxd_init_fastpath_target : UpdatePathOut → Device → ℤ × Device
  pub pxd_update_path : UpdatePathOut → Device → Device
  pub disable_fast_path : Bool → Device → Device
  pub pxd_fastpath_reset_device : Device → Device
  pub init_same :
      (d : Device)
      → ((pxd_fastpath_init d).1.dev_id ≡ d.dev_id) × ((pxd_fastpath_init d).1.minor ≡ d.minor)
  pub target_same :
      (u : UpdatePathOut) (d : Device)
      → ((pxd_init_fastpath_target u d).1.dev_id ≡ d.dev_id)
        × ((pxd_init_fastpath_target u d).1.minor ≡ d.minor)
  pub path_same :
      (u : UpdatePathOut) (d : Device)
      → ((pxd_update_path u d).dev_id ≡ d.dev_id) × ((pxd_update_path u d).minor ≡ d.minor)
  pub disable_same :
      (skip : Bool) (d : Device)
      → ((disable_fast_path skip d).dev_id ≡ d.dev_id)
        × ((disable_fast_path skip d).minor ≡ d.minor)
  pub reset_same :
      (d : Device)
      → ((pxd_fastpath_reset_device d).dev_id ≡ d.dev_id)
        × ((pxd_fastpath_reset_device d).minor ≡ d.minor)

-- minor | (fastpath_active << MINORBITS); the minor is below the bit.
abbrev pub add_result : Device → ℤ
add_result d = pos (d.minor + (if d.fp.fastpath then 2 ^ 20 else 0))

-- What kzalloc leaves.
abbrev pub zero_fastpath : Fastpath
zero_fastpath = record {
  ioswitch_active = false;
  suspend = pos 0;
  app_suspend = false;
  blkmq_frozen = false;
  fastpath = false;
  nfd = 0;
  file = λ i. none;
  syncwi_rc = λ i. pos 0;
  sync_done = 0;
  switch_uid = 0;
  active_failover = false;
  force_fail = false;
  can_failover = false;
  fail_queue = [];
  device_path = λ i. [];
  nslow_path = 0;
  ncomplete = 0;
  nerror = 0;
  open_files = [];
}

-- The fields that pxd_add sets, after kzalloc.
unfoldable pub new_device : ℕ → AddExtOut → Device
new_device minor add = record {
  dev_id = add.dev_id;
  minor = minor;
  size = add.size;
  open_count = 0;
  removing = false;
  connected = true;
  mode = add.open_mode;
  fastpath = not (is_zero add.enable_fp);
  queue_depth = given add.queue_depth;
  discard_size = at_least add.discard_size;
  ncount = 0;
  qdepth = pxd_max_qdepth;
  congested = false;
  exported = false;
  nr_congestion_on = 0;
  nr_congestion_off = 0;
  fp = zero_fastpath;
  disk = false;
  quiesced = false;
  capacity = 0;
}
  where
    given : ℤ → ℕ
    given (pos n) = if n == 0 then pxd_max_qdepth else n
    given (negsuc n) = pxd_max_qdepth

    at_least : ℤ → ℕ
    at_least (pos n) = if ltb n 512 then 2 ^ 20 else n
    at_least (negsuc n) = 2 ^ 20

-- add->queue_depth < 0 || add->queue_depth > PXD_MAX_QDEPTH.
abbrev pub bad_depth : ℤ → Bool
bad_depth (pos n) = ltb pxd_max_qdepth n
bad_depth (negsuc n) = true

abbrev pub put_minor : Context → ℕ → Context
put_minor ctx minor = record ctx { minors = update ctx.minors minor false }

module _ (fp : FastpathOps) where
  -- A device that exists gets its paths, or loses its fast path.
  unfoldable pub add_again : Context → ℕ → AddExtOut → ℤ × Context
  add_again ctx p add =
      let d =
        if not (is_zero add.enable_fp) && ltb 0 add.paths.count
        then fp.pxd_update_path add.paths (ctx.devs p)
        else fp.disable_fast_path false (ctx.devs p) in
      (add_result d, set_dev ctx p d)

  -- pxd_fastpath_init, and pxd_init_fastpath_target for a device with a fast path.
  unfoldable pub start_fastpath : AddExtOut → Device → ℤ × Device
  start_fastpath add d =
      let (err, d) = fp.pxd_fastpath_init d in
      if not (is_zero err)
      then (err, d)
      else if d.fastpath
      then fp.pxd_init_fastpath_target add.paths d
      else (pos 0, d)

  -- The second half: the device at `p` is filled in, and enters the list if no other has its id.
  unfoldable pub add_new : Context → ℕ → ℕ → AddExtOut → ℤ × Context
  unfolding start_fastpath
  add_new ctx p minor add =
      let ctx = record ctx { minors = update ctx.minors minor true } in
      let (err, d) = start_fastpath add (new_device minor add) in
      if bad_depth add.queue_depth
      then (einval, ctx)
      else if not (is_zero err)
      then (err, put_minor ctx minor)
      else elim (find_pxd_device ctx add.dev_id) [
        | some q ↦ (eexist, put_minor ctx minor)
        | none ↦ (
          add_result d,
          record (set_dev ctx p d) { list = p ∷ ctx.list; num_devices = ctx.num_devices + 1 },
        )
      ]

  -- `alloc` is what kzalloc returns, `ida` what ida_simple_get does, and `meanwhile` what other
  -- threads do to the context between the first look for the device and the second.
  unfoldable pub pxd_add : Option ℕ → ℤ → (Context → Context) → AddExtOut → Context → ℤ × Context
  unfolding add_again add_new
  pxd_add alloc ida meanwhile add ctx =
      if leb pxd_max_devices ctx.num_devices
      then (enomem, ctx)
      else elim (find_pxd_device ctx add.dev_id) [
        | some p ↦ add_again ctx p add
        | none ↦ elim alloc [
          | none ↦ (enomem, meanwhile ctx)
          | some p ↦ elim ida [
            | negsuc e ↦ (negsuc e, meanwhile ctx)
            | pos minor ↦ add_new (meanwhile ctx) p minor add
          ]
        ]
      ]
