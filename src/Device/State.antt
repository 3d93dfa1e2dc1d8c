-- ===== src/Device/State.antt =====
-- pxd_core.h: struct pxd_device and struct pxd_context, and the part of pxd.c that looks a device up.
use pxmod.Common.{ℕ, Bool, Option, none, some, List, [], ◌∷◌, ◌==◌, if◌then◌else◌, update}
use pxmod.Common.Int.{ℤ}

-- A buffer of a path, and the number of backing files, MAX_PXD_BACKING_DEVS.
abbrev pub max_pxd_backing_devs : ℕ
max_pxd_backing_devs = 3

-- pxd_fastpath.h: struct pxd_fastpath_extension. `syncwi_rc` is syncwi[i].rc, and fail_queue is
-- failQ, a list of requests. `open_files` are the files that filp_open has given to the device and
-- that have not been closed since.
pub record Fastpath : Type 0 where
  pub ioswitch_active : Bool
  pub suspend : ℤ
  pub app_suspend : Bool
  pub blkmq_frozen : Bool
  pub fastpath : Bool
  pub nfd : ℕ
  pub file : ℕ → Option ℕ
  pub syncwi_rc : ℕ → ℤ
  pub sync_done : ℕ
  pub switch_uid : ℕ
  pub active_failover : Bool
  pub force_fail : Bool
  pub can_failover : Bool
  pub fail_queue : List ℕ
  pub device_path : ℕ → List ℕ
  pub nslow_path : ℕ
  pub ncomplete : ℕ
  pub nerror : ℕ
  pub open_files : List ℕ

-- `disk` says whether there is a disk with a queue, and `quiesced` whether its queue is stopped.
pub record Device : Type 0 where
  pub dev_id : ℕ
  pub minor : ℕ
  pub size : ℕ
  pub open_count : ℕ
  pub removing : Bool
  pub connected : Bool
  pub mode : ℕ
  pub fastpath : Bool
  pub queue_depth : ℕ
  pub discard_size : ℕ
  pub ncount : ℕ
  pub qdepth : ℕ
  pub congested : Bool
  pub exported : Bool
  pub nr_congestion_on : ℕ
  pub nr_congestion_off : ℕ
  pub fp : Fastpath
  pub disk : Bool
  pub quiesced : Bool
  pub capacity : ℕ

-- `minors` is pxd_minor_ida: which minor numbers are taken.
pub record Context : Type 0 where
  pub list : List ℕ
  pub num_devices : ℕ
  pub devs : ℕ → Device
  pub minors : ℕ → Bool

abbrev pub set_dev : Context → ℕ → Device → Context
set_dev ctx p d = record ctx { devs = update ctx.devs p d }

unfoldable pub find_in : ℕ → (ℕ → Device) → List ℕ → Option ℕ
find_in dev_id devs [] = none
find_in dev_id devs (p ∷ ps) =
    let rest = find_in dev_id devs ps in if (devs p).dev_id == dev_id then some p else rest

unfoldable pub find_pxd_device : Context → ℕ → Option ℕ
unfolding find_in
find_pxd_device ctx dev_id = find_in dev_id ctx.devs ctx.list
