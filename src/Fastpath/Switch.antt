-- ===== src/Fastpath/Switch.antt =====
-- pxd.c: a device is switched between the fast path and the native path, with a marker request to
-- the process, and what happens when the marker is answered; pxd_fastpath.c: the switches that a
-- process asks for, and pxd_fastpath_reset_device; pxd_bio_blkmq.c: the queue of failed requests.
pub mod Laws
pub mod Reset
pub mod Start
pub mod Undo
pub mod Failover
use pxmod.Common.{
  ℕ, zero, suc, ◌+◌, Bool, true, false, not, ◌||◌, ◌==◌, Option, none, some, List, [], ◌∷◌, ◌++◌,
  is_empty, if◌then◌else◌, ◌>>=◌, bug_on, update,
}
use pxmod.Common.Int.{ℤ, pos, negsuc, is_zero, is_pos, einval, enomem, ebusy, eio}
use pxmod.Conn.State.{FuseConn, FuseReq}
use pxmod.Conn.Opcode.{pxd_failover_to_userspace, pxd_fallback_to_kernel}
use pxmod.Conn.Requests.{
  PtrResult, ptr, err_ptr, fuse_get_req, set_req, set_error, request_find, request_end,
  fuse_request_send_nowait,
}
use pxmod.Device.State.{Device, Fastpath}
use pxmod.Device.Requests.{pxd_req_misc}
use pxmod.Device.Queue.{DevConn, BlockRq, end_rq, count_slow, send_on, pxdmq_reroute_slowpath}
use pxmod.Fastpath.Files.{FileOps}
use pxmod.Fastpath.Suspend.{
  set_fp, SyncRun, pxd_resume_io, pxd_request_suspend_internal, pxd_request_resume,
  pxd_request_resume_internal,
}
use pxmod.Fastpath.Paths.{disable_fast_path}

abbrev pub set_dev_fp : DevConn → Fastpath → DevConn
set_dev_fp w fp = record w { dev = set_fp w.dev fp }

-- pxd_abortfailQ: every failed request ends with an error.
unfoldable pub pxd_abort_fail_queue : List ℕ → DevConn → DevConn
pxd_abort_fail_queue [] w = set_dev_fp w (record (w.dev.fp) { fail_queue = [] })
pxd_abort_fail_queue (r ∷ q) w = pxd_abort_fail_queue q (end_rq r eio w)

module _ (convert : Bool) (cpu : ℕ) (rqs : ℕ → BlockRq) where
  -- One failed request, which has left the queue.
  unfoldable pub reissue_one : ℤ → ℕ → DevConn → Option DevConn
  reissue_one status r w =
      if is_zero status
      then pxdmq_reroute_slowpath convert cpu (rqs r) r (record w { dev = count_slow w.dev })
      else some (end_rq r eio w)

  -- pxd_reissuefailQ: while `ios` is not empty, the first request of failQ is taken, which is the
  -- second argument. If failQ is empty, its head is read as a request, and the BUG_ON of the magic
  -- number is met.
  unfoldable pub pxd_reissue_fail_queue : List ℕ → List ℕ → ℤ → DevConn → Option DevConn
  pxd_reissue_fail_queue ios [] status w = bug_on (not (is_empty ios)) (some w)
  pxd_reissue_fail_queue ios (r ∷ q) status w =
      let next =
        reissue_one status r (set_dev_fp w (record (w.dev.fp) { fail_queue = q }))
        >>= pxd_reissue_fail_queue ios q status in
      if is_empty ios then some w else next

  -- The requests that a failover leaves to be sent again, and the device. `splice` takes failQ.
  unfoldable pub take_fail_queue : ℕ → DevConn → List ℕ × DevConn
  take_fail_queue opcode w =
      if opcode == pxd_failover_to_userspace
      then (let w = record w { dev = disable_fast_path true w.dev } in
          (
            w.dev.fp.fail_queue,
            set_dev_fp w (record (w.dev.fp) { fail_queue = []; active_failover = false }),
          ))
      else ([], w)

  -- The callback of the marker: whether the request is to be freed. `none` is a BUG_ON.
  unfoldable pub pxd_process_ioswitch_complete : ℕ → ℤ → DevConn → Option (Bool × DevConn)
  pxd_process_ioswitch_complete opcode status w =
      if not w.dev.fp.ioswitch_active
      then some (false, w)
      else (let w = set_dev_fp w (record (w.dev.fp) { ioswitch_active = false; switch_uid = 0 }) in
          let (ios, w) = take_fail_queue opcode w in
          let w = record w { dev = (pxd_request_resume_internal w.dev).1 } in
          pxd_reissue_fail_queue ios w.dev.fp.fail_queue status w >>= λ w. some (true, w))

-- The marker that is sent: PXD_FLAGS_SYNC has none of the bits of the block layer's flags.
abbrev pub switch_req : ℕ → FuseReq → Device → FuseReq
switch_req code req d =
    pxd_req_misc (record req { opcode = code; end = some (λ status. true) }) 0 0 d.minor
      (record { fua = false; preflush = false; meta = false })

-- pxd_fuse_req is fuse_get_req, which never fails with -EINTR, the only reason to ask again.
-- `alloc` is what kmem_cache_alloc returns. switch_uid is read before the request has its id. The
-- connection is open, since fuse_get_req has looked, so that the request is not ended at once.
unfoldable pub pxd_initiate_ioswitch : ℕ → Option ℕ → ℕ → DevConn → Option (ℤ × DevConn)
pxd_initiate_ioswitch cpu alloc code w =
    if not w.dev.fastpath
    then some (einval, w)
    else (let (res, fc) = fuse_get_req alloc w.fc in
        elim res [
          | err_ptr e ↦ some (enomem, record w { fc = fc })
          | ptr r ↦
              let d = set_fp w.dev (record (w.dev.fp) { switch_uid = (fc.reqs r).unique }) in
              send_on cpu (record w { fc = set_req fc r (switch_req code (fc.reqs r) d); dev = d })
                r
              >>= λ w. some (pos 0, w)
        ])

abbrev pub set_active : Bool → DevConn → DevConn
set_active active w = set_dev_fp w (record (w.dev.fp) { ioswitch_active = active })

module _ (files : FileOps) (run : SyncRun) (cpu : ℕ) (alloc : Option ℕ) where
  -- The suspend, and then the marker; `undo` is what is done if the marker cannot be sent.
  abbrev pub switch_to : ℕ → Bool → Bool → (Device → ℤ × Device) → DevConn → Option (ℤ × DevConn)
  switch_to code skip_flush keep_on undo w =
      pxd_request_suspend_internal files run skip_flush keep_on w.dev >>= λ (rc, d).
      (let w = record w { dev = d } in
        if not (is_zero rc)
        then some (rc, set_active false w)
        else (pxd_initiate_ioswitch cpu alloc code w >>= λ (rc, w).
            some
              (rc, if is_zero rc then w else set_active false (record w { dev = (undo w.dev).1 }))))

  unfoldable pub pxd_initiate_failover : DevConn → Option (ℤ × DevConn)
  pxd_initiate_failover w =
      if not w.dev.fp.fastpath
      then some (einval, w)
      else if w.dev.fp.ioswitch_active
      then some (pos 0, w)
      else switch_to pxd_failover_to_userspace false true pxd_request_resume (set_active true w)

  unfoldable pub pxd_initiate_fallback : DevConn → Option (ℤ × DevConn)
  pxd_initiate_fallback w =
      if w.dev.fp.fastpath
      then some (einval, w)
      else if w.dev.fp.ioswitch_active
      then some (ebusy, w)
      else switch_to pxd_fallback_to_kernel true false pxd_request_resume_internal
          (set_active true w)

  unfoldable pub pxd_request_ioswitch : ℕ → DevConn → Option (ℤ × DevConn)
  pxd_request_ioswitch code w =
      if not w.dev.fastpath
      then some (einval, w)
      else if code == pxd_failover_to_userspace
      then pxd_initiate_failover w
      else if code == pxd_fallback_to_kernel
      then pxd_initiate_fallback w
      else some (einval, w)

  -- pxd_io_failover: a request whose files failed waits in failQ for a failover, which it starts if
  -- it is the first, or is sent to the process if the device has left its fast path.
  unfoldable pub pxd_io_failover : Bool → (ℕ → BlockRq) → ℕ → DevConn → Option DevConn
  pxd_io_failover convert rqs r w =
      let queued = record (w.dev.fp) { fail_queue = w.dev.fp.fail_queue ++ r ∷ [] } in
      if w.dev.fp.active_failover
      then some (set_dev_fp w queued)
      else if w.dev.fp.fastpath
      then (pxd_initiate_failover (set_dev_fp w (record queued { active_failover = true }))
          >>= λ (rc, w). some (
              if is_zero rc
              then w
              else (let w = pxd_abort_fail_queue w.dev.fp.fail_queue w in
                  set_dev_fp w (record (w.dev.fp) { active_failover = false }))))
      else pxdmq_reroute_slowpath convert cpu (rqs r) r (record w { dev = count_slow w.dev })

-- `n` calls of pxd_resume_io at most, as long as the device is suspended.
unfoldable pub resume_all : ℕ → Device → Device
resume_all zero d = d
resume_all (suc n) d =
    let rest = resume_all n (pxd_resume_io d) in if is_pos d.fp.suspend then rest else d

-- How often the device is suspended.
abbrev pub times : ℤ → ℕ
times (pos n) = n
times (negsuc n) = 0

-- `callback` is what the callback of a request does to the device; the request that is found by
-- switch_uid is made a failed failover, and ended.
unfoldable pub end_switch : ℕ → (ℕ → ℤ → DevConn → Option DevConn) → DevConn → Option DevConn
end_switch cpu callback w = elim (request_find w.fc w.dev.fp.switch_uid) [
  | some r ↦
      let req = record (w.fc.reqs r) { opcode = pxd_failover_to_userspace; error = eio } in
      request_end cpu (set_req w.fc r req) r >>= λ fc. callback r eio (record w { fc = fc })
  | none ↦ some (set_dev_fp w (record (w.dev.fp) { switch_uid = 0; ioswitch_active = false }))
]

unfoldable pub pxd_fastpath_reset_device :
    ℕ → (ℕ → ℤ → DevConn → Option DevConn) → DevConn → Option DevConn
pxd_fastpath_reset_device cpu callback w =
    if not w.dev.fastpath
    then some w
    else (let w = record w { dev = disable_fast_path true w.dev } in
        (if w.dev.fp.ioswitch_active then end_switch cpu callback w else some w) >>= λ w.
        (let d = (pxd_request_resume w.dev).1 in
          some (record w { dev = resume_all (times d.fp.suspend) d })))
