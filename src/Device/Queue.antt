-- ===== src/Device/Queue.antt =====
-- pxd.c: a request of the block layer enters the driver, on the native path or the fast path, and is
-- sent to the process again after a failure of the fast path. `none` is a BUG_ON. The build is the
-- one with the multi-queue block layer, where the request's memory belongs to its queue.
pub mod Laws
use pxmod.Common.{
  ℕ, ◌*◌, ◌+◌, Bool, true, false, not, ◌||◌, Option, none, some, List, [], ◌∷◌, if◌then◌else◌,
  ◌>>=◌, bug_on,
}
use pxmod.Common.Int.{ℤ, pos, is_zero, eio}
use pxmod.Conn.State.{FuseConn, FuseReq}
use pxmod.Conn.Requests.{fuse_request_init, set_req, fuse_request_send_nowait}
use pxmod.Device.State.{Device}
use pxmod.Device.Requests.{BlockOp, BlockFlags, pxd_request}

-- struct request, as far as the driver reads it: `pos` counts sectors, and `segments` are the bytes
-- of its pages.
pub record BlockRq : Type 0 where
  pub op : BlockOp
  pub flags : BlockFlags
  pub bytes : ℕ
  pub sector : ℕ
  pub segments : List (List ℕ)
  pub passthrough : Bool

-- A device with the connection of its context. `ended_rqs` are the requests that the driver has
-- ended at the block layer, with a status, and `queued_work` those that wait for a worker of the
-- fast path, both latest first.
pub record DevConn : Type 0 where
  pub fc : FuseConn
  pub dev : Device
  pub ended_rqs : List (ℕ × ℤ)
  pub queued_work : List ℕ

abbrev pub end_rq : ℕ → ℤ → DevConn → DevConn
end_rq r status w = record w { ended_rqs = (r, status) ∷ w.ended_rqs }

-- nslowPath goes up.
abbrev pub count_slow : Device → Device
count_slow d = record d { fp = record (d.fp) { nslow_path = d.fp.nslow_path + 1 } }

-- BLK_STS_OK and BLK_STS_IOERR.
pub data BlkStatus : Type 0 where
  sts_ok : BlkStatus
  sts_ioerr : BlkStatus

-- pxd_request with the arguments from `rq`.
abbrev pub request_of : Bool → FuseReq → BlockRq → Device → ℤ × FuseReq × Device
request_of convert req rq d =
    pxd_request convert req rq.bytes (rq.sector * 512) d.minor rq.op rq.flags d

-- fuse_request_send_nowait in place of the connection.
abbrev pub send_on : ℕ → DevConn → ℕ → Option DevConn
send_on cpu w r = fuse_request_send_nowait cpu w.fc r >>= λ fc. some (record w { fc = fc })

module _ (convert : Bool) (cpu : ℕ) where
  unfoldable pub pxd_queue_rq : BlockRq → ℕ → DevConn → Option (BlkStatus × DevConn)
  pxd_queue_rq rq r w =
      if rq.passthrough || not w.fc.allow_disconnected
      then some (sts_ioerr, w)
      else (let req = record fuse_request_init { segments = rq.segments } in
          let w = record w { fc = set_req w.fc r req } in
          if w.dev.fp.fastpath
          then some (sts_ok, record w { queued_work = r ∷ w.queued_work })
          else (let (rc, req, d) = request_of convert req rq (count_slow w.dev) in
              let w = record w { fc = set_req w.fc r req; dev = d } in
              if not (is_zero rc)
              then some (sts_ioerr, w)
              else send_on cpu w r >>= λ w. some (sts_ok, w)))

  unfoldable pub pxdmq_reroute_slowpath : BlockRq → ℕ → DevConn → Option DevConn
  pxdmq_reroute_slowpath rq r w = bug_on w.dev.fp.fastpath (
      let (rc, req, d) = request_of convert (w.fc.reqs r) rq w.dev in
      let w = record w { fc = set_req w.fc r req; dev = d } in
      if not (is_zero rc) then some (end_rq r eio w) else send_on cpu w r)
