-- ===== src/Device/Queue/Laws.antt =====
-- A request of the block layer that enters the driver (pxd.c, pxd_queue_rq).
use pxmod.Common.{
  ℕ, ◌+◌, ◌*◌, ◌≡◌, ◌≢◌, ◌∙◌, sym, ap, refl, arith, Bool, true, false, not, ◌||◌, some, [], ◌∷◌,
  ◌++◌, inl, inr, ◌⊎◌, if◌then◌else◌, ◌>>=◌, Bool-cases,
}
use pxmod.Common.Int.{ℤ, is_zero}
use pxmod.Conn.State.{FuseReq}
use pxmod.Conn.Requests.{fuse_request_init, set_req, request_find}
use pxmod.Conn.Requests.Invariant.{ConnInv}
use pxmod.Conn.Requests.Laws.{send_queues}
use pxmod.Conn.Requests.Ready.{HasRoom, set_req-Inv}
use pxmod.Device.State.{Device}
use pxmod.Device.Requests.{
  pxd_request, BlockOp, BlockFlags, req_op_read, req_op_write, req_op_discard, req_op_write_zeroes,
  req_op_flush, req_op_other,
}
use pxmod.Device.Queue.{
  BlockRq, DevConn, BlkStatus, sts_ok, sts_ioerr, count_slow, request_of, send_on, pxd_queue_rq,
}

-- The request of the connection for `rq`, before it is filled in.
abbrev pub blank : BlockRq → FuseReq
blank rq = record fuse_request_init { segments = rq.segments }

-- Where a request goes.
pub data Queued (convert : Bool) (n : ℕ) (rq : BlockRq) (r : ℕ) (w : DevConn)
    : BlkStatus → DevConn → Type 0 where
  to_worker :
      (w' : DevConn)
      → w.dev.fp.fastpath ≡ true
      → w'.queued_work ≡ r ∷ w.queued_work
      → w'.dev ≡ w.dev
      → w'.fc.pending ≡ w.fc.pending
      → ConnInv n w'.fc
      → Queued convert n rq r w sts_ok w'
  to_process :
      (w' : DevConn)
      → w.dev.fp.fastpath ≡ false
      → ConnInv n w'.fc
      → w'.fc.pending ≡ w.fc.pending ++ r ∷ []
      → request_find w'.fc (w'.fc.reqs r).unique ≡ some r
      → (w'.fc.reqs r).unique ≢ 0
      → (w'.fc.reqs r).opcode ≡ (request_of convert (blank rq) rq w.dev).1.opcode
      → (w'.fc.reqs r).rdwr_in ≡ (request_of convert (blank rq) rq w.dev).1.rdwr_in
      → w'.dev.ncount ≡ w.dev.ncount + 1
      → w'.queued_work ≡ w.queued_work
      → Queued convert n rq r w sts_ok w'
  refused :
      (w' : DevConn)
      → ((rq.passthrough || not w.fc.allow_disconnected) ≡ true)
        ⊎ (is_zero (request_of convert (blank rq) rq w.dev).0 ≡ false)
      → w'.dev.ncount ≡ w.dev.ncount
      → w'.fc.pending ≡ w.fc.pending
      → w'.queued_work ≡ w.queued_work
      → Queued convert n rq r w sts_ioerr w'

-- The count of the native path has no part in the request that is made.
request-same :
    (convert : Bool) (req : FuseReq) (size off minor : ℕ) (op : BlockOp) (flags : BlockFlags)
    (d : Device)
    → ((pxd_request convert req size off minor op flags (count_slow d)).0
        ≡ (pxd_request convert req size off minor op flags d).0)
      × ((pxd_request convert req size off minor op flags (count_slow d)).1
          ≡ (pxd_request convert req size off minor op flags d).1)
unfolding pxd_request
request-same convert req size off minor req_op_read flags d = (refl, refl)
request-same convert req size off minor req_op_write flags d = (refl, refl)
request-same convert req size off minor req_op_discard flags d = (refl, refl)
request-same convert req size off minor req_op_write_zeroes flags d = (refl, refl)
request-same convert req size off minor req_op_flush flags d = (refl, refl)
request-same convert req size off minor req_op_other flags d = (refl, refl)

-- A request that is refused is not counted, and one that is made is counted once.
request-count :
    (convert : Bool) (req : FuseReq) (size off minor : ℕ) (op : BlockOp) (flags : BlockFlags)
    (d : Device)
    → (pxd_request convert req size off minor op flags d).2.ncount ≡ (
        if is_zero (pxd_request convert req size off minor op flags d).0
        then d.ncount + 1
        else d.ncount)
unfolding pxd_request
request-count convert req size off minor req_op_read flags d = refl
request-count convert req size off minor req_op_write flags d = refl
request-count convert req size off minor req_op_discard flags d = refl
request-count convert req size off minor req_op_write_zeroes flags d = refl
request-count convert req size off minor req_op_flush flags d = refl
request-count convert req size off minor req_op_other flags d = refl

-- Neither of two tests holds.
else_else {ℓ} :
    {A : Type ℓ} (a b : Bool) (x y z : A)
    → a ≡ false
    → b ≡ false
    → (if a then x else if b then y else z) ≡ z
else_else a b x y z p q = simp (p, q)

-- The first of two tests fails, and the second holds.
else_then {ℓ} :
    {A : Type ℓ} (a b : Bool) (x y z : A)
    → a ≡ false
    → b ≡ true
    → (if a then x else if b then y else z) ≡ y
else_then a b x y z p q = simp (p, q)

-- A request that is not refused is sent to a connection that takes it.
open_to_all : (pass on allow : Bool) → (pass || not allow) ≡ false → (on || allow) ≡ true
open_to_all pass on allow h = ground arith

module _ (convert : Bool) (n cpu r : ℕ) (rq : BlockRq) (w : DevConn)
    (ready : HasRoom n cpu r w.fc) where
  abbrev start : DevConn
  start = record w { fc = set_req w.fc r (blank rq) }

  start-Inv : ConnInv n start.fc
  start-Inv = set_req-Inv n r w.fc (blank rq) ready.inv ready.fresh

  abbrev made : ℤ × FuseReq × Device
  made = request_of convert (blank rq) rq (count_slow w.dev)

  made-rc : made.0 ≡ (request_of convert (blank rq) rq w.dev).0
  made-rc =
      (request-same convert (blank rq) rq.bytes (rq.sector * 512) w.dev.minor rq.op rq.flags
        w.dev).0

  made-same : made.1 ≡ (request_of convert (blank rq) rq w.dev).1
  made-same =
      (request-same convert (blank rq) rq.bytes (rq.sector * 512) w.dev.minor rq.op rq.flags
        w.dev).1

  -- The native path's request is filled in.
  abbrev filled : DevConn
  filled = record start { fc = set_req start.fc r made.1; dev = made.2 }

  filled-Inv : ConnInv n filled.fc
  filled-Inv = set_req-Inv n r start.fc made.1 start-Inv ready.fresh

  filled-at : filled.fc.reqs r ≡ made.1
  filled-at = ground arith

  queue-refuses :
      (rq.passthrough || not w.fc.allow_disconnected) ≡ true
      → pxd_queue_rq convert cpu rq r w ≡ some (sts_ioerr, w)
  unfolding pxd_queue_rq
  queue-refuses closed = simp closed

  queue-runs :
      (rq.passthrough || not w.fc.allow_disconnected) ≡ false
      → pxd_queue_rq convert cpu rq r w ≡ (
          if w.dev.fp.fastpath
          then some (sts_ok, record start { queued_work = r ∷ w.queued_work })
          else if not (is_zero made.0)
          then some (sts_ioerr, filled)
          else (send_on cpu filled r >>= λ w. some (sts_ok, w)))
  unfolding pxd_queue_rq
  queue-runs takes = simp takes

  -- In a well-formed connection with a free id, open or not, a request of the block layer whose own
  -- memory is not in use returns, and goes to one place: to a worker of the fast path, with the
  -- device and the pending requests as they were; or to the end of the pending requests, under an id
  -- of its own, counted once; or it is refused, and not counted, as every request is once the
  -- connection has been aborted.
  pub queue_rq-Queued :
      (status : BlkStatus) × (w' : DevConn) × (pxd_queue_rq convert cpu rq r w ≡ some (status, w'))
      × Queued convert n rq r w status w'
  queue_rq-Queued = elim (Bool-cases (rq.passthrough || not w.fc.allow_disconnected)) [
    | inl closed ↦
        (sts_ioerr, w, queue-refuses closed, Queued.refused w (inl closed) refl refl refl)
    | inr takes ↦ elim (Bool-cases w.dev.fp.fastpath) [
      | inl fast ↦ (
        sts_ok,
        record start { queued_work = r ∷ w.queued_work },
        queue-runs takes ∙ simp fast,
        Queued.to_worker _ fast refl refl refl start-Inv,
      )
      | inr native ↦ elim (Bool-cases (is_zero made.0)) [
        | inr bad ↦ (
          sts_ioerr,
          filled,
          queue-runs takes
              ∙ else_then w.dev.fp.fastpath (not (is_zero made.0)) _ _ _ native (ap not bad),
          Queued.refused filled (inr (ap is_zero (sym made-rc) ∙ bad))
              (request-count convert (blank rq) rq.bytes (rq.sector * 512) w.dev.minor rq.op
                  rq.flags (count_slow w.dev)
                ∙ simp bad)
              refl refl,
        )
        | inl good ↦
            let (fc, e, inv, pending, processing, found, numbered, same) =
              send_queues n cpu r filled.fc ready.here filled-Inv ready.fresh
                (open_to_all rq.passthrough w.fc.connected w.fc.allow_disconnected takes)
                ready.room in
            let at = filled-at ∙ made-same in
            (
              sts_ok,
              record filled { fc = fc },
              queue-runs takes
                  ∙ else_else w.dev.fp.fastpath (not (is_zero made.0)) _ _ _ native (ap not good)
                  ∙ ap
                      (λ o.
                        (o >>= λ fc. some (record filled { fc = fc })) >>= λ w. some (sts_ok, w))
                      e,
              Queued.to_process _ native inv pending found numbered
                  (ap (λ (q : FuseReq). q.opcode) same ∙ ap (λ (q : FuseReq). q.opcode) at)
                  (ap (λ (q : FuseReq). q.rdwr_in) same ∙ ap (λ (q : FuseReq). q.rdwr_in) at)
                  (request-count convert (blank rq) rq.bytes (rq.sector * 512) w.dev.minor rq.op
                      rq.flags (count_slow w.dev)
                    ∙ simp good)
                  refl,
            )
      ]
    ]
  ]
