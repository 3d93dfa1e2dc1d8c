-- ===== src/Fastpath/Switch/Laws.antt =====
-- The answer to the marker of a switch (pxd.c, pxd_process_ioswitch_complete).
use pxmod.Common.{
  ℕ, suc, ◌≡◌, ◌⊎◌, inl, inr, refl, ◌∙◌, Bool, true, false, none, some, List, [], ◌∷◌, ◌>>=◌,
}
use pxmod.Common.Int.{ℤ, pos}
use pxmod.Conn.Opcode.{pxd_failover_to_userspace}
use pxmod.Device.State.{Device}
use pxmod.Device.Queue.{DevConn, BlockRq}
use pxmod.Fastpath.Suspend.{set_fp, pxd_resume_io, pxd_request_resume_internal}
use pxmod.Fastpath.Suspend.Laws.{Suspended, Suspended-same, resume-Suspended}
use pxmod.Fastpath.Paths.{disable_fast_path}
use pxmod.Fastpath.Paths.Laws.{On, Off, On-same, resume-Kept, resume-Off, disable_lem, disable-Kept}
use pxmod.Fastpath.Switch.{pxd_reissue_fail_queue, take_fail_queue, pxd_process_ioswitch_complete}

-- The device waits for the answer to a marker, and is suspended for it.
pub record Waiting (n : ℕ) (d : Device) : Type 0 where
  pub enabled : d.fastpath ≡ true
  pub active : d.fp.ioswitch_active ≡ true
  pub path : (On d) ⊎ (Off d)
  pub suspended : Suspended (suc n) d

-- The switch is over.
pub record Switched (n : ℕ) (d d' : Device) : Type 0 where
  pub idle : d'.fp.ioswitch_active ≡ false
  pub uid : d'.fp.switch_uid ≡ 0
  pub suspended : Suspended n d'
  pub app_suspend : d'.fp.app_suspend ≡ d.fp.app_suspend
  pub ncount : d'.ncount ≡ d.ncount

-- The device as the callback leaves it before its queue is looked at.
abbrev unmarked : Device → Device
unmarked d = set_fp d (record (d.fp) { ioswitch_active = false; switch_uid = 0 })

unmarked-path : (d : Device) → (On d) ⊎ (Off d) → (On (unmarked d)) ⊎ (Off (unmarked d))
unmarked-path d (inl on) = inl (On-same d (unmarked d) on refl refl refl refl refl)
unmarked-path d (inr off) =
    inr (record { inactive = off.inactive; open_files = off.open_files; file = off.file })

pub resume_internal-on :
    (d : Device) → d.fastpath ≡ true → pxd_request_resume_internal d ≡ (pos 0, pxd_resume_io d)
unfolding pxd_request_resume_internal
resume_internal-on d on = simp on

-- The device off its fast path, with no failed requests.
drained : Device → Device
drained d =
    let d' = disable_fast_path true (unmarked d) in
    set_fp d' (record (d'.fp) { fail_queue = []; active_failover = false })

module _ (convert : Bool) (cpu : ℕ) (rqs : ℕ → BlockRq) (n : ℕ) (status : ℤ) (w : DevConn) where
  failover-run :
      Waiting n w.dev
      → pxd_process_ioswitch_complete convert cpu rqs pxd_failover_to_userspace status w ≡ (
          pxd_reissue_fail_queue convert cpu rqs w.dev.fp.fail_queue [] status
            (record w { dev = pxd_resume_io (drained w.dev) })
          >>= λ w. some (true, w))
  unfolding pxd_process_ioswitch_complete take_fail_queue drained
  failover-run h =
      let kept = disable-Kept true (unmarked w.dev) (unmarked-path w.dev h.path) in
      simp (
        h.active,
        resume_internal-on (drained w.dev) (kept.enabled ∙ h.enabled),
        (resume-Kept (drained w.dev)).fail_queue,
        kept.fail_queue,
      )

  failover-Switched :
      Waiting n w.dev
      → Off (pxd_resume_io (drained w.dev))
        × Switched n w.dev (pxd_resume_io (drained w.dev))
        × ((pxd_resume_io (drained w.dev)).fp.fail_queue ≡ [])
  unfolding drained
  failover-Switched h =
      let path = unmarked-path w.dev h.path in
      let kept = disable-Kept true (unmarked w.dev) path in
      let still = resume-Kept (drained w.dev) in
      let (off, same) =
        disable_lem true (suc n) (unmarked w.dev) path
          (Suspended-same (suc n) w.dev (unmarked w.dev) h.suspended refl refl refl refl) in
      (
        resume-Off (drained w.dev)
            (record { inactive = off.inactive; open_files = off.open_files; file = off.file }),
        record {
          idle = still.ioswitch_active ∙ kept.ioswitch_active;
          uid = still.switch_uid ∙ kept.switch_uid;
          suspended = resume-Suspended n (drained w.dev) (
              Suspended-same (suc n) (disable_fast_path true (unmarked w.dev)) (drained w.dev) same
                refl refl refl refl);
          app_suspend = still.app_suspend ∙ kept.app_suspend;
          ncount = still.ncount ∙ kept.ncount;
        },
        still.fail_queue,
      )

  -- The answer to a failover of a device on which no request has failed, whatever its status: the
  -- device is off its fast path with all files closed, the suspend of the switch is undone, no
  -- switch is active, and the connection is left alone.
  pub failover_lem :
      Waiting n w.dev
      → w.dev.fp.fail_queue ≡ []
      → (d : Device) × (pxd_process_ioswitch_complete convert cpu rqs pxd_failover_to_userspace
            status w
          ≡ some (true, record w { dev = d }))
        × Off d
        × Switched n w.dev d
        × (d.fp.fail_queue ≡ [])
  unfolding pxd_reissue_fail_queue
  failover_lem h empty =
      let (off, switched, none_failed) = failover-Switched h in
      (pxd_resume_io (drained w.dev), failover-run h ∙ rw empty refl, off, switched, none_failed)

  -- The answer to a failover of a device on which a request has failed meets a BUG_ON, whatever its
  -- status: the requests were moved to a local list, and the first one is then looked for in failQ,
  -- which is empty.
  pub failover-stops :
      (r : ℕ) (q : List ℕ)
      → Waiting n w.dev
      → w.dev.fp.fail_queue ≡ r ∷ q
      → pxd_process_ioswitch_complete convert cpu rqs pxd_failover_to_userspace status w ≡ none
  unfolding pxd_reissue_fail_queue
  failover-stops r q h failed = failover-run h ∙ rw failed refl
