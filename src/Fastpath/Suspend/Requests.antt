-- ===== src/Fastpath/Suspend/Requests.antt =====
-- pxd_request_suspend and pxd_request_resume (pxd_fastpath.c).
use native.Mathlib.Decide.{ℕ_discrete as dec_eq}
use pxmod.Common.{
  subst, ℕ, zero, suc, ◌+◌, ◌≡◌, ◌<◌, ◌≤◌, ◌⊎◌, inl, inr, ap, refl, arith, Bool, true, false, ◌&&◌,
  ◌||◌, not, some, ◌==◌, if◌then◌else◌, Bool-cases,
}
use pxmod.Common.Int.{ℤ, pos, is_zero, ebusy, einval}
use pxmod.Device.State.{Device, max_pxd_backing_devs}
use pxmod.Fastpath.Files.{FileOps}
use pxmod.Fastpath.Suspend.{
  set_fp, SyncRun, pxd_sync, pxd_sync_work_pending, first_failure, pxd_suspend_io, pxd_resume_io,
  pxd_request_suspend, pxd_request_resume, pxd_request_suspend_internal,
  pxd_request_resume_internal,
}
use pxmod.Fastpath.Suspend.Laws.{
  Suspended, suspend-Suspended, Paused, Paused-refl, Paused-trans, suspend-Paused, resume-Paused,
  synced-Paused, resume-Suspended, sync_result, synced, run_syncers_lem,
}

first_failure-zero :
    (rc : ℕ → ℤ) (i n j : ℕ)
    → is_zero (first_failure rc i n) ≡ true
    → i ≤ j
    → j < i + n
    → is_zero (rc j) ≡ true
unfolding first_failure
first_failure-zero rc i zero j h p q = absurd (omega arith)
first_failure-zero rc i (suc n) j h p q = elim (dec_eq i j) [
  | yes e ↦ ground (arith, ap (λ x. is_zero (rc x)) e)
  | no e ↦ first_failure-zero rc (suc i) n j (ground arith) (omega arith) (omega arith)
]

-- A sync ends, with 0 only if each file was synced without an error, and changes nothing but its
-- own results.
record Synced (files : FileOps) (run : SyncRun) (d : Device) : Type 0 where
  err : ℤ
  rc : ℕ → ℤ
  left : ℕ
  runs : pxd_sync files run d ≡ some (err, synced d rc left)
  all :
      is_zero err ≡ true
      → (i : ℕ) → i < max_pxd_backing_devs
      → is_zero (sync_result files d i) ≡ true

pxd_sync_lem : (files : FileOps) (run : SyncRun) (d : Device) → Synced files run d
unfolding pxd_sync
pxd_sync_lem files run d =
    let three = set_fp d (record (d.fp) { sync_done = max_pxd_backing_devs }) in
    let (rc, left, e, ran) = run_syncers_lem files run max_pxd_backing_devs three (omega arith) in
    record {
      err = if left == 0 then first_failure rc 0 max_pxd_backing_devs else ebusy;
      rc = rc;
      left = left;
      runs = rw e refl;
      all = λ zero_err i p.
          let none_left : left ≡ 0 = ground arith in
          subst (λ x. is_zero x ≡ true) (ran.results (omega arith) i p)
            (first_failure-zero rc 0 max_pxd_backing_devs i (ground arith) (omega arith)
              (omega arith));
    }

suspend-fp : (d : Device) → (pxd_suspend_io d).fp.fastpath ≡ d.fp.fastpath
unfolding pxd_suspend_io
suspend-fp d = refl

synced-Suspended :
    (n : ℕ) (d : Device) (rc : ℕ → ℤ) (left : ℕ) → Suspended n d → Suspended n (synced d rc left)
synced-Suspended n d rc left s = record {
  count = s.count;
  frozen = s.frozen;
  quiesced = s.quiesced;
}

module _ (files : FileOps) (run : SyncRun) (skip_flush keep_on : Bool) where
  -- pxd_request_suspend_internal on every branch: with 0 the device is suspended once more, and
  -- with an error it is as often suspended as before.
  pub suspend_internal_lem :
      (n : ℕ) (d : Device)
      → Suspended n d
      → (rc : ℤ) × (d' : Device) × (pxd_request_suspend_internal files run skip_flush keep_on d
          ≡ some (rc, d'))
        × Paused d d'
        × (((rc ≡ pos 0) × (d.fastpath ≡ true) × Suspended (suc n) d')
            ⊎ ((is_zero rc ≡ false) × Suspended n d'))
  unfolding pxd_request_suspend_internal
  suspend_internal_lem n d s = elim (Bool-cases d.fastpath) [
    | inr off ↦ (einval, d, rw off refl, Paused-refl d, inr (refl, s))
    | inl on ↦ elim (Bool-cases (not skip_flush && pxd_sync_work_pending run d)) [
      | inl busy ↦ (ebusy, d, simp (on, busy) refl, Paused-refl d, inr (refl, s))
      | inr idle ↦ elim (Bool-cases (skip_flush || not d.fp.fastpath)) [
        | inl skip ↦ (
          pos 0,
          pxd_suspend_io d,
          simp (on, idle, suspend-fp d, skip) refl,
          suspend-Paused d,
          inl (refl, on, suspend-Suspended n d s),
        )
        | inr sync ↦
            let up = suspend-Suspended n d s in
            let run_sync = pxd_sync_lem files run (pxd_suspend_io d) in
            let d' = synced (pxd_suspend_io d) run_sync.rc run_sync.left in
            let up' = synced-Suspended (suc n) (pxd_suspend_io d) run_sync.rc run_sync.left up in
            let paused =
              Paused-trans (suspend-Paused d)
                (synced-Paused (pxd_suspend_io d) run_sync.rc run_sync.left) in
            elim (Bool-cases (is_zero run_sync.err || keep_on)) [
              | inl kept ↦ (
                pos 0,
                d',
                simp (on, idle, suspend-fp d, sync, run_sync.runs, kept) refl,
                paused,
                inl (refl, on, up'),
              )
              | inr failed ↦ (
                run_sync.err,
                pxd_resume_io d',
                simp (on, idle, suspend-fp d, sync, run_sync.runs, failed) refl,
                Paused-trans paused (resume-Paused d'),
                inr (ground arith, resume-Suspended n d' up'),
              )
            ]
      ]
    ]
  ]

  -- The error of a suspend, if there is one, when no sync is still at work and errors are ignored.
  pub suspend_internal-keep_on :
      (d : Device)
      → keep_on ≡ true
      → d.fastpath ≡ true
      → (not skip_flush && pxd_sync_work_pending run d) ≡ false
      → (d' : Device) × (pxd_request_suspend_internal files run skip_flush keep_on d
          ≡ some (pos 0, d'))
  unfolding pxd_request_suspend_internal
  suspend_internal-keep_on d keep on idle =
      elim (Bool-cases (skip_flush || not (pxd_suspend_io d).fp.fastpath)) [
        | inl skip ↦ (pxd_suspend_io d, simp (on, idle, skip))
        | inr sync ↦
            let run_sync = pxd_sync_lem files run (pxd_suspend_io d) in
            let kept : (is_zero run_sync.err || keep_on) ≡ true = ground arith in
            (
              synced (pxd_suspend_io d) run_sync.rc run_sync.left,
              simp (on, idle, sync, run_sync.runs, kept),
            )
      ]

  -- A request to suspend returns, on a device that is suspended `n` times: with 0 it is suspended
  -- once more, and the process has it suspended; with an error the count, the queue and the
  -- process's own mark are as they were.
  pub request_suspend_lem :
      (n : ℕ) (d : Device)
      → Suspended n d
      → (rc : ℤ) × (d' : Device) × (pxd_request_suspend files run skip_flush keep_on d
          ≡ some (rc, d'))
        × (((rc ≡ pos 0)
              × (d.fastpath ≡ true)
              × (d.fp.app_suspend ≡ false)
              × (d'.fp.app_suspend ≡ true)
              × Suspended (suc n) d')
            ⊎ ((is_zero rc ≡ false) × (d'.fp.app_suspend ≡ d.fp.app_suspend) × Suspended n d'))
  unfolding pxd_request_suspend
  request_suspend_lem n d s = elim (Bool-cases d.fp.app_suspend) [
    | inl mine ↦ (ebusy, d, simp mine, inr (refl, refl, s))
    | inr free ↦
        let marked = set_fp d (record (d.fp) { app_suspend = true }) in
        let s' : Suspended n marked = record {
          count = s.count;
          frozen = s.frozen;
          quiesced = s.quiesced;
        } in
        let (rc, d', e, paused, result) = suspend_internal_lem n marked s' in
        elim result [
          | inl (zero_rc, on, up) ↦
              (rc, d', simp (free, e, zero_rc), inl (zero_rc, on, free, paused.app_suspend, up))
          | inr (bad, same) ↦ (
            rc,
            set_fp d' (record (d'.fp) { app_suspend = false }),
            simp (free, e, bad),
            inr (
              bad,
              ground arith,
              record { count = same.count; frozen = same.frozen; quiesced = same.quiesced },
            ),
          )
        ]
  ]

-- The device that a process has suspended, resumed.
pub request_resume-run :
    (d : Device)
    → d.fastpath ≡ true
    → d.fp.app_suspend ≡ true
    → pxd_request_resume d
      ≡ (pos 0, pxd_resume_io (set_fp d (record (d.fp) { app_suspend = false })))
unfolding pxd_request_resume pxd_request_resume_internal
request_resume-run d on mine = simp (on, mine)

pub request_resume-refused :
    (d : Device) → d.fp.app_suspend ≡ false → pxd_request_resume d ≡ (einval, d)
unfolding pxd_request_resume
request_resume-refused d free = simp free

-- A request to resume, of a device that a process has suspended: it is suspended once less, the
-- process no longer has it suspended, and the queue runs again exactly if nobody else has it
-- suspended.
pub request_resume_lem :
    (n : ℕ) (d : Device)
    → Suspended (suc n) d
    → d.fastpath ≡ true
    → d.fp.app_suspend ≡ true
    → (d' : Device) × (pxd_request_resume d ≡ (pos 0, d'))
      × Suspended n d'
      × (d'.fp.app_suspend ≡ false)
request_resume_lem n d s on mine =
    let marked = set_fp d (record (d.fp) { app_suspend = false }) in
    let s' : Suspended (suc n) marked = record {
      count = s.count;
      frozen = s.frozen;
      quiesced = s.quiesced;
    } in
    (
      pxd_resume_io marked,
      request_resume-run d on mine,
      resume-Suspended n marked s',
      (resume-Paused marked).app_suspend,
    )

-- A suspend with a sync that returns 0 on a device that is on its fast path, and that does not
-- go on after an error: every file was synced without an error.
pub request_suspend-synced :
    (files : FileOps) (run : SyncRun) (d d' : Device) (i : ℕ)
    → pxd_request_suspend files run false false d ≡ some (pos 0, d')
    → d.fp.fastpath ≡ true
    → i < max_pxd_backing_devs
    → is_zero (sync_result files d i) ≡ true
unfolding pxd_request_suspend pxd_request_suspend_internal pxd_suspend_io
request_suspend-synced files run d d' i h active p =
    let marked = set_fp d (record (d.fp) { app_suspend = true }) in
    let run_sync = pxd_sync_lem files run (pxd_suspend_io marked) in
    run_sync.all (ground (arith, run_sync.runs)) i p
