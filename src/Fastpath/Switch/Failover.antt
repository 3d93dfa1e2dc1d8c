-- ===== src/Fastpath/Switch/Failover.antt =====
-- A request whose files have failed (pxd_bio_blkmq.c, pxd_io_failover).
use pxmod.Common.{
  ℕ, subst, ◌≡◌, refl, ◌∙◌, sym, ap, Bool, true, false, none, some, List, [], ◌∷◌, ◌++◌,
  if◌then◌else◌, ◌>>=◌,
}
use pxmod.Common.Int.{ℤ, pos, is_zero, eio}
use pxmod.Conn.Opcode.{pxd_failover_to_userspace}
use pxmod.Device.Queue.{DevConn, BlockRq, end_rq}
use pxmod.Fastpath.Files.{FileOps}
use pxmod.Fastpath.Suspend.{SyncRun}
use pxmod.Fastpath.Suspend.Laws.{Suspended, Suspended-same}
use pxmod.Fastpath.Paths.Laws.{On, On-same}
use pxmod.Fastpath.Switch.{
  set_dev_fp, pxd_abort_fail_queue, pxd_initiate_failover, pxd_io_failover,
  pxd_process_ioswitch_complete,
}
use pxmod.Fastpath.Switch.Laws.{Waiting, failover-stops}
use pxmod.Conn.Requests.Ready.{Ready}
use pxmod.Fastpath.Switch.Start.{Marked, Started, initiate_failover_lem}

-- The ended requests after those of `q` have ended with -EIO, in order.
abbrev pub ended_after : List ℕ → List (ℕ × ℤ) → List (ℕ × ℤ)
ended_after [] done = done
ended_after (r ∷ q) done = ended_after q ((r, eio) ∷ done)

-- The requests end with -EIO, in order, and nothing but the queue changes.
pub abort_lem :
    (q : List ℕ) (w : DevConn)
    → pxd_abort_fail_queue q w ≡ record (set_dev_fp w (record (w.dev.fp) { fail_queue = [] })) {
      ended_rqs = ended_after q w.ended_rqs;
    }
unfolding pxd_abort_fail_queue
abort_lem [] w = refl
abort_lem (r ∷ q) w = abort_lem q (end_rq r eio w)

-- How the first failed request leaves a device.
pub data Failed (n r m : ℕ) (w w' : DevConn) : Type 0 where
  waits :
      Waiting m w'.dev
      → w'.dev.fp.fail_queue ≡ r ∷ []
      → (marker : ℕ) → Marked n marker pxd_failover_to_userspace w.fc w'.fc
      → Failed n r m w w'
  aborted :
      w'.ended_rqs ≡ (r, eio) ∷ w.ended_rqs
      → w'.dev.fp.fail_queue ≡ []
      → w'.dev.fp.active_failover ≡ false
      → w'.dev.fp.ioswitch_active ≡ false
      → Suspended m w'.dev
      → On w'.dev
      → w'.fc ≡ w.fc
      → Failed n r m w w'

module _ (files : FileOps) (run : SyncRun) (n cpu marker m r : ℕ) (convert : Bool)
    (rqs : ℕ → BlockRq) (w : DevConn) (ready : Ready n cpu marker w.fc) (on : On w.dev)
    (s : Suspended m w.dev) (idle : w.dev.fp.ioswitch_active ≡ false)
    (calm : w.dev.fp.active_failover ≡ false) (none_failed : w.dev.fp.fail_queue ≡ []) where
  queued : DevConn
  queued =
      set_dev_fp w
        (record (w.dev.fp) { fail_queue = w.dev.fp.fail_queue ++ r ∷ []; active_failover = true })

  queued-one : queued.dev.fp.fail_queue ≡ r ∷ []
  unfolding queued
  queued-one = ap (λ q. q ++ r ∷ []) none_failed

  queued-fc : queued.fc ≡ w.fc
  unfolding queued
  queued-fc = refl

  queued-ended : queued.ended_rqs ≡ w.ended_rqs
  unfolding queued
  queued-ended = refl

  -- The end of a failover that was asked for.
  abbrev answered : ℤ → DevConn → DevConn
  answered rc w' =
      if is_zero rc
      then w'
      else (let w = pxd_abort_fail_queue w'.dev.fp.fail_queue w' in
          set_dev_fp w (record (w.dev.fp) { active_failover = false }))

  failover-calls : pxd_io_failover files run cpu (some marker) convert rqs r w ≡ (
      pxd_initiate_failover files run cpu (some marker) queued >>= λ (rc, w').
      some (answered rc w'))
  unfolding pxd_io_failover queued
  failover-calls = simp (calm, on.active)

  failover-starts :
      (rc : ℤ) (w' : DevConn)
      → pxd_initiate_failover files run cpu (some marker) queued ≡ some (rc, w')
      → pxd_io_failover files run cpu (some marker) convert rqs r w ≡ some (answered rc w')
  failover-starts rc w' e = failover-calls ∙ rw e

  failover-ends :
      (rc : ℤ) (w' : DevConn)
      → pxd_initiate_failover files run cpu (some marker) queued ≡ some (rc, w')
      → Started n marker m queued rc w'
      → (w' : DevConn) × (pxd_io_failover files run cpu (some marker) convert rqs r w ≡ some w')
        × Failed n r m w w'
  failover-ends _ _ e (Started.marker w' waiting _ _ queue marked) = (
    w',
    failover-starts (pos 0) w' e,
    Failed.waits waiting (queue ∙ queued-one) marker (unfold queued in marked),
  )
  failover-ends _ _ e (Started.given_up rc w' bad same on' off queue conn ended) =
      let w₁ = pxd_abort_fail_queue w'.dev.fp.fail_queue w' in
      let done = abort_lem w'.dev.fp.fail_queue w' in
      (
        set_dev_fp w₁ (record (w₁.dev.fp) { active_failover = false }),
        failover-starts rc w' e ∙ simp bad,
        rw done (
            Failed.aborted
              (ap (λ q. ended_after q w'.ended_rqs) (queue ∙ queued-one)
                ∙ ap (λ l. (r, eio) ∷ l) (ended ∙ queued-ended))
              refl refl off (Suspended-same m w'.dev _ same refl refl refl refl)
              (On-same w'.dev _ on' refl refl refl refl refl) (conn ∙ queued-fc)),
      )

  -- The first request that fails on a device that is on its fast path and not switching, with memory
  -- for the marker, on a well-formed connection that takes requests and has a free id: it waits for
  -- the failover that it has started; or, if the files could not be synced and the failover is not
  -- started for that, it ends with -EIO, and the device stays on its fast path, suspended as often as
  -- before, with no failover active.
  pub io_failover_lem :
      (w' : DevConn) × (pxd_io_failover files run cpu (some marker) convert rqs r w ≡ some w')
      × Failed n r m w w'
  io_failover_lem =
      let (rc, w', e, started) =
        initiate_failover_lem files run n cpu marker m queued (unfold queued in ready)
          (On-same w.dev queued.dev on (unfold queued in refl) (unfold queued in refl)
            (unfold queued in refl) (unfold queued in refl) (unfold queued in refl))
          (Suspended-same m w.dev queued.dev s (unfold queued in refl) (unfold queued in refl)
            (unfold queued in refl) (unfold queued in refl))
          (unfold queued in idle) in
      failover-ends rc w' e started

  -- A request has failed, and its failover has been started: whatever the process answers to the
  -- marker, the answer meets a BUG_ON.
  pub failover-panics :
      (w' : DevConn) (status : ℤ)
      → pxd_io_failover files run cpu (some marker) convert rqs r w ≡ some w'
      → w'.dev.fp.ioswitch_active ≡ true
      → pxd_process_ioswitch_complete convert cpu rqs pxd_failover_to_userspace status w' ≡ none
  failover-panics w' status e active =
      let (w₁, e₁, failed) = io_failover_lem in
      let same : w₁ ≡ w' = cc in
      elim failed [
        | Failed.waits waiting queue _ _ ↦
            failover-stops convert cpu rqs m status w' r []
              (subst (λ x. Waiting m x.dev) same waiting)
              (ap (λ (x : DevConn). x.dev.fp.fail_queue) (sym same) ∙ queue)
        | Failed.aborted _ _ _ off _ _ _ ↦
            absurd (cc (ap (λ (x : DevConn). x.dev.fp.ioswitch_active) same, off, active))
      ]
