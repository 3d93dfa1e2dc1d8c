-- ===== src/Tests/Paths.antt =====
-- Suspends and the paths of a device, on concrete devices.
use pxmod.Common.{
  ◌≡◌, ◌⊎◌, ◌==◌, inl, refl, arith, true, false, none, some, [], ◌∷◌, if◌then◌else◌, occurs-nil,
  occurs-cons,
}
use pxmod.Common.Int.{ℤ, pos, is_zero}
use pxmod.Device.State.{Device}
use pxmod.Device.Ops.{zero_fastpath}
use pxmod.Fastpath.Suspend.{
  SyncRun, pxd_request_suspend_internal, pxd_sync, run_syncers, pxd_syncer, first_failure,
  pxd_suspend_io, pxd_sync_work_pending, any_busy, pxd_request_suspend,
}
use pxmod.Fastpath.Suspend.Laws.{Suspended, sync_result}
use pxmod.Fastpath.Suspend.Requests.{request_suspend_lem, request_suspend-synced}
use pxmod.Fastpath.Paths.{disable_fast_path, pxd_init_fastpath_target}
use pxmod.Fastpath.Paths.Held.{held}
use pxmod.Fastpath.Paths.Laws.{On, Off, disable_lem}
use pxmod.Fastpath.Paths.Target.{Targeted, init_target_lem}
use pxmod.Tests.Devices.{good_files, one_path, idle_device}

pub idle_device-Off : Off idle_device
idle_device-Off = record { inactive = refl; open_files = refl; file = λ j. refl }

pub idle_device-Suspended : Suspended 0 idle_device
idle_device-Suspended = record { count = refl; frozen = refl; quiesced = refl }

-- A device on its fast path, with the file 5.
abbrev pub fast_device : Device
fast_device = record idle_device {
  disk = true;
  fp = record zero_fastpath {
    fastpath = true;
    nfd = 1;
    file = λ i. if i == 0 then some 5 else none;
    open_files = 5 ∷ [];
  };
}

pub fast_device-On : On fast_device
unfolding held
fast_device-On = record {
  enabled = refl;
  active = refl;
  some_file = omega arith;
  fits = omega arith;
  opened = record {
    files = λ h. omega (arith, occurs-cons h 5 [], occurs-nil h);
    beyond = λ j p. ground arith;
    there = λ j p. ground arith;
  };
}

pub fast_device-Suspended : Suspended 0 fast_device
fast_device-Suspended = record { count = refl; frozen = refl; quiesced = refl }

-- Each work item is idle before, and done in time.
abbrev pub in_time : SyncRun
in_time = record { busy = λ i. false; in_time = λ i. true }

request_suspend_lem_example :
    (rc : ℤ) × (d' : Device) × (pxd_request_suspend good_files in_time false false fast_device
      ≡ some (rc, d'))
    × (((rc ≡ pos 0)
          × (fast_device.fastpath ≡ true)
          × (fast_device.fp.app_suspend ≡ false)
          × (d'.fp.app_suspend ≡ true)
          × Suspended 1 d')
        ⊎ ((is_zero rc ≡ false)
            × (d'.fp.app_suspend ≡ fast_device.fp.app_suspend)
            × Suspended 0 d'))
request_suspend_lem_example =
    request_suspend_lem good_files in_time false false 0 fast_device fast_device-Suspended

-- What that suspend leaves.
abbrev synced_device : Device
synced_device = elim (pxd_request_suspend good_files in_time false false fast_device) [
  | none ↦ fast_device
  | some r ↦ r.1
]

synced_device_run :
    pxd_request_suspend good_files in_time false false fast_device ≡ some (pos 0, synced_device)
unfolding pxd_request_suspend pxd_request_suspend_internal pxd_sync run_syncers pxd_syncer
    first_failure pxd_suspend_io pxd_sync_work_pending any_busy
synced_device_run = refl

request_suspend-synced_example : is_zero (sync_result good_files fast_device 0) ≡ true
request_suspend-synced_example =
    request_suspend-synced good_files in_time fast_device synced_device 0 synced_device_run refl
      (omega arith)

-- A device that a process has suspended.
abbrev pub suspended_device : Device
suspended_device = record fast_device {
  quiesced = true;
  fp = record (fast_device.fp) { suspend = pos 1; app_suspend = true; blkmq_frozen = true };
}

pub suspended_device-Suspended : Suspended 1 suspended_device
suspended_device-Suspended = record { count = refl; frozen = refl; quiesced = refl }

pub suspended_device-On : On suspended_device
suspended_device-On =
    let on = fast_device-On in
    record {
      enabled = on.enabled;
      active = on.active;
      some_file = on.some_file;
      fits = on.fits;
      opened = record {
        files = on.opened.files;
        beyond = on.opened.beyond;
        there = on.opened.there;
      };
    }

disable_lem_example :
    Off (disable_fast_path true suspended_device)
    × Suspended 1 (disable_fast_path true suspended_device)
disable_lem_example =
    disable_lem true 1 suspended_device (inl suspended_device-On) suspended_device-Suspended

init_target_lem_example :
    (d' : Device) × (pxd_init_fastpath_target good_files one_path idle_device ≡ (pos 0, d'))
    × Targeted good_files 0 one_path idle_device d'
init_target_lem_example =
    init_target_lem good_files one_path 0 idle_device idle_device-Off idle_device-Suspended
