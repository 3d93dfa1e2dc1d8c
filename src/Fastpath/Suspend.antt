-- ===== src/Fastpath/Suspend.antt =====
-- pxd_bio_blkmq.c: pxd_suspend_io and pxd_resume_io; pxd_fastpath.c: the requests of a process to
-- suspend and to resume a device.
pub mod Laws
pub mod Requests
use pxmod.Common.{
  ℕ, zero, suc, ◌-◌, Bool, true, false, ◌&&◌, ◌||◌, not, Option, none, some, ◌==◌, leb,
  if◌then◌else◌, update, ◌>>=◌, bug_on,
}
use pxmod.Common.Int.{ℤ, pos, negsuc, ◌+ℤ◌, is_zero, ebusy, einval}
use pxmod.Device.State.{Device, Fastpath, max_pxd_backing_devs}
use pxmod.Fastpath.Files.{FileOps}

abbrev pub set_fp : Device → Fastpath → Device
set_fp d fp = record d { fp = fp }

abbrev pub is_one : ℤ → Bool
is_one (pos n) = n == 1
is_one (negsuc n) = false

-- The count goes up; the first suspend stops the queue, if there is one.
unfoldable pub pxd_suspend_io : Device → Device
pxd_suspend_io d =
    let curr = d.fp.suspend +ℤ pos 1 in
    let stop = is_one curr && d.disk in
    record d {
      fp = record (d.fp) { suspend = curr; blkmq_frozen = stop || d.fp.blkmq_frozen };
      quiesced = stop || d.quiesced;
    }

-- The count goes down; when it comes to 0, a queue that was stopped runs again.
unfoldable pub pxd_resume_io : Device → Device
pxd_resume_io d =
    let curr = d.fp.suspend +ℤ negsuc 0 in
    let start = is_zero curr && d.fp.blkmq_frozen in
    record d {
      fp = record (d.fp) { suspend = curr; blkmq_frozen = not start && d.fp.blkmq_frozen };
      quiesced = not (start && d.disk) && d.quiesced;
    }

-- One work item of a sync: the sync of the file `i`, and the count of the items that are left.
unfoldable pub pxd_syncer : FileOps → ℕ → Device → Option Device
pxd_syncer files i d =
    let rc =
      if leb d.fp.nfd i
      then pos 0
      else elim (d.fp.file i) [ none ↦ pos 0 | some f ↦ files.vfs_fsync f ] in
    bug_on (d.fp.sync_done == 0) (
      some (
        set_fp d (record (d.fp) {
          syncwi_rc = update d.fp.syncwi_rc i rc;
          sync_done = d.fp.sync_done - 1;
        })))

-- What happens to the work items of a sync while it is waited for: which are still queued or run
-- from an earlier sync, and which are done within the timeout.
pub record SyncRun : Type 0 where
  pub busy : ℕ → Bool
  pub in_time : ℕ → Bool

-- The first `n` work items, as far as they are done in time.
unfoldable pub run_syncers : FileOps → SyncRun → ℕ → Device → Option Device
run_syncers files run zero d = some d
run_syncers files run (suc n) d =
    run_syncers files run n d >>= λ d. if run.in_time n then pxd_syncer files n d else some d

unfoldable pub any_busy : (ℕ → Bool) → ℕ → Bool
any_busy busy zero = false
any_busy busy (suc n) = any_busy busy n || busy n

unfoldable pub pxd_sync_work_pending : SyncRun → Device → Bool
unfolding any_busy
pxd_sync_work_pending run d = not (d.fp.sync_done == 0) || any_busy run.busy max_pxd_backing_devs

-- The first failure among the items `i`, `i` + 1, …, of which `n` are left.
unfoldable pub first_failure : (ℕ → ℤ) → ℕ → ℕ → ℤ
first_failure rc i zero = pos 0
first_failure rc i (suc n) =
    let rest = first_failure rc (suc i) n in if is_zero (rc i) then rest else rc i

-- The sync of all files: -EBUSY for a timeout, or the first failure.
unfoldable pub pxd_sync : FileOps → SyncRun → Device → Option (ℤ × Device)
pxd_sync files run d =
    run_syncers files run max_pxd_backing_devs
      (set_fp d (record (d.fp) { sync_done = max_pxd_backing_devs }))
    >>= λ d. some (
      if d.fp.sync_done == 0 then first_failure d.fp.syncwi_rc 0 max_pxd_backing_devs else ebusy,
      d,
    )

-- `none` is a BUG_ON of a work item.
unfoldable pub pxd_request_suspend_internal :
    FileOps → SyncRun → Bool → Bool → Device → Option (ℤ × Device)
pxd_request_suspend_internal files run skip_flush keep_on d =
    if not d.fastpath
    then some (einval, d)
    else if not skip_flush && pxd_sync_work_pending run d
    then some (ebusy, d)
    else (let d = pxd_suspend_io d in
        if skip_flush || not d.fp.fastpath
        then some (pos 0, d)
        else (pxd_sync files run d >>= λ (rc, d).
            if is_zero rc || keep_on then some (pos 0, d) else some (rc, pxd_resume_io d)))

unfoldable pub pxd_request_suspend : FileOps → SyncRun → Bool → Bool → Device → Option (ℤ × Device)
pxd_request_suspend files run skip_flush keep_on d =
    if d.fp.app_suspend
    then some (ebusy, d)
    else (pxd_request_suspend_internal files run skip_flush keep_on
          (set_fp d (record (d.fp) { app_suspend = true }))
        >>= λ (rc, d).
            some (rc, if is_zero rc then d else set_fp d (record (d.fp) { app_suspend = false })))

unfoldable pub pxd_request_resume_internal : Device → ℤ × Device
pxd_request_resume_internal d = if not d.fastpath then (einval, d) else (pos 0, pxd_resume_io d)

unfoldable pub pxd_request_resume : Device → ℤ × Device
pxd_request_resume d =
    if not d.fp.app_suspend
    then (einval, d)
    else (let (rc, d) =
          pxd_request_resume_internal (set_fp d (record (d.fp) { app_suspend = false })) in
        (rc, if is_zero rc then d else set_fp d (record (d.fp) { app_suspend = true })))
