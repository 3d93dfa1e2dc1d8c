-- ===== src/Fastpath/Switch/Undo.antt =====
-- A switch whose marker cannot be sent (pxd.c, pxd_initiate_failover and pxd_initiate_fallback).
use pxmod.Common.{
  ℕ, suc, ◌≡◌, inl, inr, refl, ◌∙◌, arith, true, false, not, ◌&&◌, none, some, Bool-cases,
}
use pxmod.Common.Int.{pos, enomem}
use pxmod.Conn.Opcode.{pxd_failover_to_userspace, pxd_fallback_to_kernel}
use pxmod.Conn.Requests.{fuse_get_req}
use pxmod.Device.State.{Device}
use pxmod.Device.Queue.{DevConn}
use pxmod.Fastpath.Files.{FileOps}
use pxmod.Fastpath.Suspend.{
  SyncRun, pxd_sync_work_pending, pxd_suspend_io, pxd_resume_io, pxd_request_suspend_internal,
  pxd_request_resume_internal,
}
use pxmod.Fastpath.Suspend.Laws.{
  Suspended, Suspended-same, suspend-Suspended, suspend-Paused, resume-Suspended,
}
use pxmod.Fastpath.Suspend.Requests.{
  request_resume-refused, suspend_internal_lem, suspend_internal-keep_on,
}
use pxmod.Fastpath.Switch.{
  set_active, switch_to, pxd_initiate_ioswitch, pxd_initiate_failover, pxd_initiate_fallback,
}
use pxmod.Fastpath.Switch.Laws.{resume_internal-on}
use pxmod.Fastpath.Switch.Start.{failover-runs, starting}

-- Without memory for a request no marker is sent.
ioswitch-enomem :
    (cpu code : ℕ) (w : DevConn)
    → w.dev.fastpath ≡ true
    → pxd_initiate_ioswitch cpu none code w ≡ some (enomem, w)
unfolding pxd_initiate_ioswitch fuse_get_req
ioswitch-enomem cpu code w on =
    elim (Bool-cases (not w.fc.connected && not w.fc.allow_disconnected)) [
      | inl closed ↦ simp (on, closed)
      | inr open_conn ↦ simp (on, open_conn)
    ]

suspend_internal-skip :
    (files : FileOps) (run : SyncRun) (d : Device)
    → d.fastpath ≡ true
    → pxd_request_suspend_internal files run true false d ≡ some (pos 0, pxd_suspend_io d)
unfolding pxd_request_suspend_internal
suspend_internal-skip files run d on = simp on

fallback-runs :
    (files : FileOps) (run : SyncRun) (cpu : ℕ) (w : DevConn)
    → w.dev.fp.fastpath ≡ false
    → w.dev.fp.ioswitch_active ≡ false
    → pxd_initiate_fallback files run cpu none w
      ≡ switch_to files run cpu none pxd_fallback_to_kernel true false pxd_request_resume_internal
          (set_active true w)
unfolding pxd_initiate_fallback
fallback-runs files run cpu w inactive idle = simp (inactive, idle)

module _ (files : FileOps) (run : SyncRun) (cpu m : ℕ) (w : DevConn) where
  -- A failover of an idle device that is on its fast path and that the process has not suspended
  -- itself, without memory for the marker: it returns -ENOMEM and leaves the device suspended once
  -- more than before, since the resume that it calls is the one for the suspends of the process.
  pub failover-leaks :
      w.dev.fastpath ≡ true
      → w.dev.fp.fastpath ≡ true
      → w.dev.fp.ioswitch_active ≡ false
      → w.dev.fp.app_suspend ≡ false
      → pxd_sync_work_pending run w.dev ≡ false
      → Suspended m w.dev
      → (w' : DevConn) × (pxd_initiate_failover files run cpu none w ≡ some (enomem, w'))
        × (w'.dev.fp.ioswitch_active ≡ false)
        × (w'.fc ≡ w.fc)
        × Suspended (suc m) w'.dev
  unfolding pxd_sync_work_pending
  failover-leaks enabled active idle free no_sync s =
      let s' = Suspended-same m w.dev (starting w.dev) s refl refl refl refl in
      let (d₁, e₁) =
        suspend_internal-keep_on files run false true (starting w.dev) refl enabled no_sync in
      let (rc, d, e, paused, result) =
        suspend_internal_lem files run false true m (starting w.dev) s' in
      elim result [
        | inr (bad, same) ↦ absurd (ground (arith, e₁, e, bad))
        | inl (zero_rc, on, up) ↦ (
          set_active false (record w { dev = d }),
          failover-runs files run cpu none w active idle
              ∙ simp (
                e,
                zero_rc,
                ioswitch-enomem cpu pxd_failover_to_userspace (record w { dev = d })
                    (paused.enabled ∙ on),
                request_resume-refused d (paused.app_suspend ∙ free),
              ),
          refl,
          refl,
          Suspended-same (suc m) d _ up refl refl refl refl,
        )
      ]

  -- A fallback of an idle device that is off its fast path, without memory for the marker: it returns
  -- -ENOMEM, and the device is as often suspended as before.
  pub fallback-undone :
      w.dev.fastpath ≡ true
      → w.dev.fp.fastpath ≡ false
      → w.dev.fp.ioswitch_active ≡ false
      → Suspended m w.dev
      → (w' : DevConn) × (pxd_initiate_fallback files run cpu none w ≡ some (enomem, w'))
        × (w'.dev.fp.ioswitch_active ≡ false)
        × (w'.fc ≡ w.fc)
        × Suspended m w'.dev
  fallback-undone enabled inactive idle s =
      let d = pxd_suspend_io (starting w.dev) in
      let up =
        suspend-Suspended m (starting w.dev)
          (Suspended-same m w.dev (starting w.dev) s refl refl refl refl) in
      let on = (suspend-Paused (starting w.dev)).enabled ∙ enabled in
      let down = resume-Suspended m d up in
      (
        set_active false (record w { dev = pxd_resume_io d }),
        fallback-runs files run cpu w inactive idle
            ∙ simp (
              suspend_internal-skip files run (starting w.dev) enabled,
              ioswitch-enomem cpu pxd_fallback_to_kernel (record w { dev = d }) on,
              resume_internal-on d on,
            ),
        refl,
        refl,
        Suspended-same m (pxd_resume_io d) _ down refl refl refl refl,
      )
