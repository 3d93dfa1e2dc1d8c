-- ===== src/Fastpath/Switch/Reset.antt =====
-- pxd_fastpath_reset_device (pxd_fastpath.c).
use pxmod.Common.{
  ℕ, zero, suc, ◌-◌, ◌≤◌, ◌≡◌, ◌⊎◌, inl, inr, refl, ◌∙◌, sym, subst, ap, arith, not, true, false,
  Option, none, some, if◌then◌else◌, ◌>>=◌, Bool-cases, one_if,
}
use pxmod.Common.Int.{ℤ, is_pos}
use pxmod.Conn.Requests.{request_find}
use pxmod.Device.State.{Device}
use pxmod.Device.Queue.{DevConn}
use pxmod.Fastpath.Suspend.{set_fp, pxd_resume_io, pxd_request_resume}
use pxmod.Fastpath.Suspend.Laws.{
  Suspended, Suspended-same, resume-Suspended, Paused, Paused-refl, Paused-trans, resume-Paused,
}
use pxmod.Fastpath.Suspend.Requests.{request_resume-run, request_resume-refused}
use pxmod.Fastpath.Paths.{disable_fast_path}
use pxmod.Fastpath.Paths.Laws.{On, Off, Paused-Off, disable_lem, disable-Kept}
use pxmod.Fastpath.Switch.{set_dev_fp, end_switch, resume_all, times, pxd_fastpath_reset_device}

-- Off the fast path, not suspended, and with no switch and no suspend of a process.
pub record AtRest (d : Device) : Type 0 where
  pub off : Off d
  pub running : Suspended 0 d
  pub idle : d.fp.ioswitch_active ≡ false
  pub free : d.fp.app_suspend ≡ false

resume_all_lem :
    (n : ℕ) (d : Device) → Suspended n d → Suspended 0 (resume_all n d) × Paused d (resume_all n d)
unfolding resume_all
resume_all_lem zero d s = (s, Paused-refl d)
resume_all_lem (suc n) d s =
    let up : is_pos d.fp.suspend ≡ true = ground (arith, s.count) in
    let (rest, same) = resume_all_lem n (pxd_resume_io d) (resume-Suspended n d s) in
    simp up (rest, Paused-trans (resume-Paused d) same)

-- A device that a process has resumed, if it had suspended it.
record Freed (d : Device) : Type 0 where
  times_left : ℕ
  suspended : Suspended times_left d
  off : Off d
  idle : d.fp.ioswitch_active ≡ false
  free : d.fp.app_suspend ≡ false

request_resume-Freed :
    (n : ℕ) (d : Device)
    → d.fastpath ≡ true
    → one_if d.fp.app_suspend ≤ n
    → Suspended n d
    → Off d
    → d.fp.ioswitch_active ≡ false
    → Freed (pxd_request_resume d).1
request_resume-Freed n d on le s off idle = elim (Bool-cases d.fp.app_suspend) [
  | inr free ↦
      rw (request_resume-refused d free)
        (record { times_left = n; suspended = s; off = off; idle = idle; free = free })
  | inl mine ↦
      let d' = set_fp d (record (d.fp) { app_suspend = false }) in
      let still = resume-Paused d' in
      let once_more : n ≡ suc (n - 1) = ground arith in
      let s' =
        Suspended-same (suc (n - 1)) d d' (subst (λ k. Suspended k d) once_more s) refl refl refl
          refl in
      let off' : Off d' = record {
        inactive = off.inactive;
        open_files = off.open_files;
        file = off.file;
      } in
      rw (request_resume-run d on mine) (record {
        times_left = n - 1;
        suspended = resume-Suspended (n - 1) d' s';
        off = Paused-Off off' still;
        idle = still.ioswitch_active ∙ idle;
        free = still.app_suspend;
      })
]

Freed-AtRest : (d : Device) → Freed d → AtRest (resume_all (times d.fp.suspend) d)
Freed-AtRest d h =
    let (running, same) = resume_all_lem h.times_left d h.suspended in
    subst (λ k. AtRest (resume_all k d)) (sym (ap times h.suspended.count))
      (record {
        off = Paused-Off h.off same;
        running = running;
        idle = same.ioswitch_active ∙ h.idle;
        free = same.app_suspend ∙ h.free;
      })

end_switch-missing :
    (cpu : ℕ) (callback : ℕ → ℤ → DevConn → Option DevConn) (w : DevConn)
    → request_find w.fc w.dev.fp.switch_uid ≡ none
    → end_switch cpu callback w
      ≡ some (set_dev_fp w (record (w.dev.fp) { switch_uid = 0; ioswitch_active = false }))
unfolding end_switch
end_switch-missing cpu callback w e = rw (e, end_switch) refl

-- The device before the suspends are undone, when no request is found by switch_uid.
abbrev pub unswitched : Device → Device
unswitched d =
    if d.fp.ioswitch_active
    then set_fp d (record (d.fp) { switch_uid = 0; ioswitch_active = false })
    else d

-- The reset of a device whose switch_uid leads to no request.
unfoldable pub reset_missing : Device → Device
reset_missing d =
    if not d.fastpath
    then d
    else (let d = (pxd_request_resume (unswitched (disable_fast_path true d))).1 in
        resume_all (times d.fp.suspend) d)

module _ (cpu : ℕ) (callback : ℕ → ℤ → DevConn → Option DevConn) (n : ℕ) (w : DevConn)
    (enabled : w.dev.fastpath ≡ true) (path : (On w.dev) ⊎ (Off w.dev))
    (suspended : Suspended n w.dev) (le : one_if w.dev.fp.app_suspend ≤ n)
    (not_found : request_find w.fc w.dev.fp.switch_uid ≡ none) where
  reset-starts : pxd_fastpath_reset_device cpu callback w ≡ (
      (if (disable_fast_path true w.dev).fp.ioswitch_active
        then end_switch cpu callback (record w { dev = disable_fast_path true w.dev })
        else some (record w { dev = disable_fast_path true w.dev }))
      >>= λ w.
          (let d = (pxd_request_resume w.dev).1 in
            some (record w { dev = resume_all (times d.fp.suspend) d })))
  unfolding pxd_fastpath_reset_device
  reset-starts = simp enabled

  reset-run : pxd_fastpath_reset_device cpu callback w ≡ (
      let d = (pxd_request_resume (unswitched (disable_fast_path true w.dev))).1 in
      some (record w { dev = resume_all (times d.fp.suspend) d }))
  reset-run =
      let kept = disable-Kept true w.dev path in
      let missing =
        end_switch-missing cpu callback (record w { dev = disable_fast_path true w.dev })
          (ap (request_find w.fc) kept.switch_uid ∙ not_found) in
      elim (Bool-cases (disable_fast_path true w.dev).fp.ioswitch_active) [
        | inl active ↦ reset-starts ∙ simp (active, missing)
        | inr idle ↦ reset-starts ∙ simp idle
      ]

  pub reset-missing :
      pxd_fastpath_reset_device cpu callback w ≡ some (record w { dev = reset_missing w.dev })
  unfolding reset_missing
  reset-missing = reset-run ∙ simp enabled

  -- A reset returns, on a device of a fast path whose switch_uid leads to no request: all its files
  -- are closed, every suspend is undone, those of a process included, no switch is active, and the
  -- connection is left alone.
  pub reset-AtRest :
      (d : Device) × (pxd_fastpath_reset_device cpu callback w ≡ some (record w { dev = d }))
      × AtRest d
  reset-AtRest =
      let kept = disable-Kept true w.dev path in
      let (off, same) = disable_lem true n w.dev path suspended in
      let d = disable_fast_path true w.dev in
      let le' = subst (λ b. one_if b ≤ n) (sym kept.app_suspend) le in
      let on = kept.enabled ∙ enabled in
      (
        _,
        reset-run,
        Freed-AtRest _ (elim (Bool-cases d.fp.ioswitch_active) [
          | inl active ↦
              let d' = set_fp d (record (d.fp) { switch_uid = 0; ioswitch_active = false }) in
              subst (λ x. Freed (pxd_request_resume x).1) (sym (simp active))
                (request_resume-Freed n d' on le' (Suspended-same n d d' same refl refl refl refl)
                  (record { inactive = off.inactive; open_files = off.open_files; file = off.file })
                  refl)
          | inr idle ↦
              subst (λ x. Freed (pxd_request_resume x).1) (sym (simp idle))
                (request_resume-Freed n d on le' same off idle)
        ]),
      )
