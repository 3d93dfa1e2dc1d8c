-- ===== src/Tests/Switches.antt =====
-- Switches between the fast path and the native path, on concrete devices.
use pxmod.Common.{◌≡◌, inl, refl, ap, sym, ◌∙◌, arith, Bool, true, false, Option, none, some, []}
use pxmod.Common.Int.{pos, enomem}
use pxmod.Conn.Ids.Alloc.{fuse_get_unique, refill_ids, pop_id, next_generation, fill_free_ids}
use pxmod.Conn.Opcode.{pxd_failover_to_userspace}
use pxmod.Conn.Requests.{
  register, queue_request, fuse_request_send_nowait, fuse_get_req, len_args, request_find,
}
use pxmod.Conn.Lifecycle.{new_conn}
use pxmod.Device.State.{Device}
use pxmod.Device.Queue.{DevConn}
use pxmod.Fastpath.Suspend.{
  pxd_request_suspend_internal, pxd_sync, run_syncers, pxd_syncer, first_failure, pxd_suspend_io,
  pxd_sync_work_pending, any_busy,
}
use pxmod.Fastpath.Suspend.Laws.{Suspended}
use pxmod.Fastpath.Paths.Laws.{On, Off}
use pxmod.Fastpath.Switch.{
  pxd_process_ioswitch_complete, pxd_initiate_failover, pxd_io_failover, pxd_initiate_ioswitch,
  pxd_fastpath_reset_device,
}
use pxmod.Fastpath.Switch.Laws.{Waiting, Switched, failover_lem}
use pxmod.Fastpath.Switch.Undo.{failover-leaks}
use pxmod.Fastpath.Switch.Reset.{AtRest, reset-AtRest}
use pxmod.Fastpath.Switch.Failover.{Failed, io_failover_lem, failover-panics}
use pxmod.Tests.Devices.{good_files, connected_to, opened-Ready, write_rq}
use pxmod.Tests.Paths.{fast_device, fast_device-On, fast_device-Suspended, in_time}

-- A device that waits for the answer to the marker of a failover.
abbrev waiting_device : Device
waiting_device = record fast_device {
  quiesced = true;
  fp = record (fast_device.fp) { suspend = pos 1; blkmq_frozen = true; ioswitch_active = true };
}

waiting_device-On : On waiting_device
waiting_device-On =
    let on = fast_device-On in
    record {
      enabled = on.enabled;
      active = on.active;
      some_file = on.some_file;
      fits = on.fits;
      opened = record {
        files = on.opened.files;
        beyond = on.opened.beyond;
        there = on.opened.there;
      };
    }

waiting_device-Waiting : Waiting 0 waiting_device
waiting_device-Waiting = record {
  enabled = refl;
  active = refl;
  path = inl waiting_device-On;
  suspended = record { count = refl; frozen = refl; quiesced = refl };
}

failover_lem_example :
    (d : Device) × (pxd_process_ioswitch_complete true 0
        (λ r. write_rq)
        pxd_failover_to_userspace
        (pos 0)
        (connected_to waiting_device)
      ≡ some (true, record (connected_to waiting_device) { dev = d }))
    × Off d
    × Switched 0 waiting_device d
    × (d.fp.fail_queue ≡ [])
failover_lem_example =
    failover_lem true 0 (λ r. write_rq) 0 (pos 0) (connected_to waiting_device)
      waiting_device-Waiting refl

no_sync : pxd_sync_work_pending in_time fast_device ≡ false
unfolding pxd_sync_work_pending any_busy
no_sync = refl

failover-leaks_example :
    (w' : DevConn) × (pxd_initiate_failover good_files in_time 0 none (connected_to fast_device)
      ≡ some (enomem, w'))
    × (w'.dev.fp.ioswitch_active ≡ false)
    × (w'.fc ≡ (connected_to fast_device).fc)
    × Suspended 1 w'.dev
failover-leaks_example =
    failover-leaks good_files in_time 0 0 (connected_to fast_device) refl refl refl refl no_sync
      fast_device-Suspended

no_marker : request_find (connected_to waiting_device).fc 0 ≡ none
unfolding request_find new_conn
no_marker = refl

reset-AtRest_example :
    (d : Device) × (pxd_fastpath_reset_device 0 (λ r e w. some w) (connected_to waiting_device)
      ≡ some (record (connected_to waiting_device) { dev = d }))
    × AtRest d
reset-AtRest_example =
    reset-AtRest 0 (λ r e w. some w) 1 (connected_to waiting_device) refl (inl waiting_device-On)
      waiting_device-Waiting.suspended (omega arith) no_marker

io_failover_lem_example :
    (w' : DevConn) × (pxd_io_failover good_files in_time 0
        (some 7)
        true
        (λ r. write_rq)
        8
        (connected_to fast_device)
      ≡ some w')
    × Failed 1 8 0 (connected_to fast_device) w'
io_failover_lem_example =
    io_failover_lem good_files in_time 1 0 7 0 8 true (λ r. write_rq) (connected_to fast_device)
      opened-Ready fast_device-On fast_device-Suspended refl refl refl

-- The same, to be used.
failed_once :
    (w' : DevConn) × (pxd_io_failover good_files in_time 0
        (some 7)
        true
        (λ r. write_rq)
        8
        (connected_to fast_device)
      ≡ some w')
    × Failed 1 8 0 (connected_to fast_device) w'
failed_once =
    io_failover_lem good_files in_time 1 0 7 0 8 true (λ r. write_rq) (connected_to fast_device)
      opened-Ready fast_device-On fast_device-Suspended refl refl refl

-- Whether the switch is active after a request has failed.
abbrev now_active : Option DevConn → Bool
now_active none = false
now_active (some w) = w.dev.fp.ioswitch_active

failed_active :
    now_active (
      pxd_io_failover good_files in_time 0
        (some 7)
        true
        (λ r. write_rq)
        8
        (connected_to fast_device))
    ≡ true
unfolding pxd_io_failover pxd_initiate_failover pxd_request_suspend_internal pxd_sync run_syncers
    pxd_syncer first_failure pxd_suspend_io pxd_sync_work_pending any_busy pxd_initiate_ioswitch
    fuse_get_req new_conn fuse_request_send_nowait fuse_get_unique refill_ids pop_id next_generation
    fill_free_ids register queue_request len_args
failed_active = refl

-- The device after that failure.
abbrev after_failure : DevConn
after_failure = failed_once.0

failover-panics_example :
    pxd_process_ioswitch_complete true 0
      (λ r. write_rq)
      pxd_failover_to_userspace
      (pos 0)
      after_failure
    ≡ none
failover-panics_example =
    failover-panics good_files in_time 1 0 7 0 8 true (λ r. write_rq) (connected_to fast_device)
      opened-Ready fast_device-On fast_device-Suspended refl refl refl after_failure (pos 0)
      failed_once.1 (sym (ap now_active failed_once.1) ∙ failed_active)
