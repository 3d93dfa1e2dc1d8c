-- ===== src/Device/Congestion.antt =====
-- pxd.c: the limit on the requests in flight of a device, and the count of crossings of it.
use pxmod.Common.{
  ◌+◌, ◌-◌, ◌≡◌, arith, Bool, true, false, ◌||◌, ◌&&◌, not, ltb, one_if, if◌then◌else◌,
}
use pxmod.Common.Int.{is_zero}
use pxmod.Device.State.{Device}

-- atomic_cmpxchg on `congested`, and the count of the changes.
unfoldable pub pxd_device_qfull : Device → Bool × Device
pxd_device_qfull d =
    if ltb d.qdepth d.ncount
    then (
      true,
      if not d.congested
          then record d { congested = true; nr_congestion_on = d.nr_congestion_on + 1 }
          else d,
    )
    else (
      false,
      if d.congested
          then record d { congested = false; nr_congestion_off = d.nr_congestion_off + 1 }
          else d,
    )

-- A suspended device counts as congested, and is not looked at further.
unfoldable pub pxd_device_congested : Device → Bool × Device
pxd_device_congested d = if not (is_zero d.fp.suspend) then (true, d) else pxd_device_qfull d

-- Whether the waiters are woken.
unfoldable pub pxd_check_q_decongested : Device → Bool × Device
pxd_check_q_decongested d = let (full, d) = pxd_device_congested d in (not full, d)

-- A reply: one request less is in flight. The count is not below one then.
unfoldable pub pxd_request_complete : Device → Bool × Device
pxd_request_complete d = pxd_check_q_decongested (record d { ncount = d.ncount - 1 })

-- The crossings upwards are as many as those downwards, and one more while it is congested.
abbrev pub Balanced : Device → Type 0
Balanced d = d.nr_congestion_on ≡ d.nr_congestion_off + one_if d.congested

-- The check says whether the device is suspended or over its limit, keeps the two counts balanced,
-- and, when the device is not suspended, `congested` agrees with its answer afterwards.
pub congested-Balanced :
    (d : Device)
    → Balanced d
    → Balanced (pxd_device_congested d).1
      × ((pxd_device_congested d).0 ≡ (not (is_zero d.fp.suspend) || ltb d.qdepth d.ncount))
      × ((pxd_device_congested d).1.ncount ≡ d.ncount)
      × ((pxd_device_congested d).1.congested
          ≡ (if is_zero d.fp.suspend then (pxd_device_congested d).0 else d.congested))
unfolding pxd_device_congested pxd_device_qfull
congested-Balanced d h = (ground arith, ground arith, ground arith, ground arith)

-- A reply wakes the waiters exactly when the device is not suspended and the requests that are left
-- do not exceed the limit.
pub request_complete-wakes :
    (d : Device)
    → Balanced d
    → ((pxd_request_complete d).0 ≡ (is_zero d.fp.suspend && not (ltb d.qdepth (d.ncount - 1))))
      × Balanced (pxd_request_complete d).1
unfolding pxd_request_complete pxd_check_q_decongested pxd_device_congested pxd_device_qfull
request_complete-wakes d h = (ground arith, ground arith)
