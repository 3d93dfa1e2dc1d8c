-- ===== src/Fastpath/Switch/Start.antt =====
-- The start of a switch (pxd.c, pxd_initiate_failover).
use pxmod.Common.{
  ℕ, suc, ◌≡◌, ◌≢◌, inl, inr, refl, ◌∙◌, ap, arith, true, false, not, ◌&&◌, Option, some, [], ◌∷◌,
  ◌++◌,
}
use pxmod.Common.Int.{ℤ, pos, is_zero}
use pxmod.Conn.State.{FuseConn, FuseReq}
use pxmod.Conn.Opcode.{pxd_failover_to_userspace}
use pxmod.Conn.Requests.{fuse_get_req, fuse_request_init, set_req, request_find}
use pxmod.Conn.Requests.Invariant.{ConnInv}
use pxmod.Conn.Requests.Ready.{Ready, set_req-Inv}
use pxmod.Conn.Requests.Laws.{send_queues}
use pxmod.Device.State.{Device}
use pxmod.Device.Requests.{pxd_req_misc}
use pxmod.Device.Queue.{DevConn}
use pxmod.Fastpath.Files.{FileOps}
use pxmod.Fastpath.Suspend.{set_fp, SyncRun, pxd_request_resume}
use pxmod.Fastpath.Suspend.Laws.{Suspended, Suspended-same}
use pxmod.Fastpath.Suspend.Requests.{suspend_internal_lem}
use pxmod.Fastpath.Paths.Laws.{On, On-same, Paused-On}
use pxmod.Fastpath.Switch.Laws.{Waiting}
use pxmod.Fastpath.Switch.{
  set_active, switch_to, switch_req, pxd_initiate_ioswitch, pxd_initiate_failover,
}

-- The marker is the last pending request, under an id of its own.
pub record Marked (n r code : ℕ) (fc fc' : FuseConn) : Type 0 where
  pub inv : ConnInv n fc'
  pub pending : fc'.pending ≡ fc.pending ++ r ∷ []
  pub processing : fc'.processing ≡ fc.processing
  pub found : request_find fc' (fc'.reqs r).unique ≡ some r
  pub numbered : (fc'.reqs r).unique ≢ 0
  pub opcode : (fc'.reqs r).opcode ≡ code

initiate_ioswitch_lem :
    (n cpu r code : ℕ) (w : DevConn)
    → Ready n cpu r w.fc
    → w.dev.fastpath ≡ true
    → (fc : FuseConn) × (pxd_initiate_ioswitch cpu (some r) code w
        ≡ some (
          pos 0,
          record w { fc = fc; dev = set_fp w.dev (record (w.dev.fp) { switch_uid = 0 }) },
        ))
      × Marked n r code w.fc fc
unfolding pxd_initiate_ioswitch fuse_get_req
initiate_ioswitch_lem n cpu r code w ready on =
    let fc₁ = set_req w.fc r fuse_request_init in
    let at : fc₁.reqs r ≡ fuse_request_init = ground arith in
    let d = set_fp w.dev (record (w.dev.fp) { switch_uid = 0 }) in
    let req = switch_req code fuse_request_init d in
    let fc₂ = set_req fc₁ r req in
    let at₂ : fc₂.reqs r ≡ req = ground arith in
    let inv₂ =
      set_req-Inv n r fc₁ req (set_req-Inv n r w.fc fuse_request_init ready.inv ready.fresh)
        ready.fresh in
    let (fc, e, inv, pending, processing, found, numbered, same) =
      send_queues n cpu r fc₂ ready.here inv₂ ready.fresh ready.takes ready.room in
    (
      fc,
      simp (on, is_ready, at, e),
      record {
        inv = inv;
        pending = pending;
        processing = processing;
        found = found;
        numbered = numbered;
        opcode =
            ap (λ (q : FuseReq). q.opcode) same
            ∙ ap (λ (q : FuseReq). q.opcode) at₂
            ∙ (unfold pxd_req_misc in refl);
      },
    )
  where
    is_ready : (not w.fc.connected && not w.fc.allow_disconnected) ≡ false
    is_ready = ground (arith, ready.takes)

-- The device of a switch that is about to start.
abbrev pub starting : Device → Device
starting d = set_fp d (record (d.fp) { ioswitch_active = true })

-- How a failover starts: the device is suspended and waits for the answer to a marker, or the
-- suspend fails, and the device and the connection are as before.
pub data Started (n r m : ℕ) (w : DevConn) : ℤ → DevConn → Type 0 where
  marker :
      (w' : DevConn)
      → Waiting m w'.dev
      → On w'.dev
      → w'.dev.fp.switch_uid ≡ 0
      → w'.dev.fp.fail_queue ≡ w.dev.fp.fail_queue
      → Marked n r pxd_failover_to_userspace w.fc w'.fc
      → Started n r m w (pos 0) w'
  given_up :
      (rc : ℤ) (w' : DevConn)
      → is_zero rc ≡ false
      → Suspended m w'.dev
      → On w'.dev
      → w'.dev.fp.ioswitch_active ≡ false
      → w'.dev.fp.fail_queue ≡ w.dev.fp.fail_queue
      → w'.fc ≡ w.fc
      → w'.ended_rqs ≡ w.ended_rqs
      → Started n r m w rc w'

pub failover-runs :
    (files : FileOps) (run : SyncRun) (cpu : ℕ) (alloc : Option ℕ) (w : DevConn)
    → w.dev.fp.fastpath ≡ true
    → w.dev.fp.ioswitch_active ≡ false
    → pxd_initiate_failover files run cpu alloc w
      ≡ switch_to files run cpu alloc pxd_failover_to_userspace false true pxd_request_resume
          (set_active true w)
unfolding pxd_initiate_failover
failover-runs files run cpu alloc w active idle = simp (active, idle)

pub initiate_failover_lem :
    (files : FileOps) (run : SyncRun) (n cpu r m : ℕ) (w : DevConn)
    → Ready n cpu r w.fc
    → On w.dev
    → Suspended m w.dev
    → w.dev.fp.ioswitch_active ≡ false
    → (rc : ℤ) × (w' : DevConn) × (pxd_initiate_failover files run cpu (some r) w ≡ some (rc, w'))
      × Started n r m w rc w'
initiate_failover_lem files run n cpu r m w ready on s idle =
    let on₁ = On-same w.dev (starting w.dev) on refl refl refl refl refl in
    let (rc, d, e, paused, result) =
      suspend_internal_lem files run false true m (starting w.dev)
        (Suspended-same m w.dev (starting w.dev) s refl refl refl refl) in
    elim result [
      | inr (bad, same) ↦ (
        rc,
        set_active false (record w { dev = d }),
        failover-runs files run cpu (some r) w on.active idle ∙ simp (e, bad),
        Started.given_up rc _ bad (Suspended-same m d _ same refl refl refl refl)
            (On-same d _ (Paused-On on₁ paused) refl refl refl refl refl) refl paused.fail_queue
            refl refl,
      )
      | inl (zero_rc, enabled, up) ↦
          let (fc, run_switch, marked) =
            initiate_ioswitch_lem n cpu r pxd_failover_to_userspace (record w { dev = d }) ready
              (paused.enabled ∙ enabled) in
          let on' =
            On-same d (set_fp d (record (d.fp) { switch_uid = 0 })) (Paused-On on₁ paused) refl refl
              refl refl refl in
          (
            pos 0,
            record w { fc = fc; dev = set_fp d (record (d.fp) { switch_uid = 0 }) },
            failover-runs files run cpu (some r) w on.active idle ∙ simp (e, zero_rc, run_switch),
            Started.marker _
                (record {
                  enabled = on'.enabled;
                  active = paused.ioswitch_active;
                  path = inl on';
                  suspended = Suspended-same (suc m) d _ up refl refl refl refl;
                })
                on' refl paused.fail_queue marked,
          )
    ]
