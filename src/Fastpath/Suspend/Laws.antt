-- ===== src/Fastpath/Suspend/Laws.antt =====
-- The count of suspends of a device (pxd_bio_blkmq.c), and the work items of a sync.
use native.Mathlib.Decide.{ℕ_discrete as dec_eq}
use pxmod.Common.{
  ℕ, zero, suc, ◌-◌, ◌+◌, ◌≡◌, ◌<◌, ◌≤◌, inl, inr, ◌∙◌, refl, arith, false, ◌&&◌, none, some, ◌==◌,
  leb, ltb, if◌then◌else◌, update, Bool-cases,
}
use pxmod.Common.Int.{ℤ, pos}
use pxmod.Device.State.{Device}
use pxmod.Fastpath.Files.{FileOps}
use pxmod.Fastpath.Suspend.{pxd_suspend_io, pxd_resume_io, set_fp, SyncRun, run_syncers, pxd_syncer}

-- The device is suspended `n` times, and its queue, if it has one, is stopped exactly if `n` is
-- not 0.
pub record Suspended (n : ℕ) (d : Device) : Type 0 where
  pub count : d.fp.suspend ≡ pos n
  pub frozen : d.fp.blkmq_frozen ≡ (d.disk && ltb 0 n)
  pub quiesced : d.quiesced ≡ (d.disk && ltb 0 n)

pub suspend-Suspended : (n : ℕ) (d : Device) → Suspended n d → Suspended (suc n) (pxd_suspend_io d)
unfolding pxd_suspend_io
suspend-Suspended n d s = ground arith

pub resume-Suspended : (n : ℕ) (d : Device) → Suspended (suc n) d → Suspended n (pxd_resume_io d)
unfolding pxd_resume_io
resume-Suspended n d s = ground arith

-- A resume undoes a suspend.
pub resume-suspend : (n : ℕ) (d : Device) → Suspended n d → pxd_resume_io (pxd_suspend_io d) ≡ d
unfolding pxd_resume_io pxd_suspend_io
resume-suspend n d s = ground arith

-- What a work item finds at the file `i`.
abbrev pub sync_result : FileOps → Device → ℕ → ℤ
sync_result files d i =
    if leb d.fp.nfd i
    then pos 0
    else elim (d.fp.file i) [ none ↦ pos 0 | some f ↦ files.vfs_fsync f ]

-- A device of which only the results of a sync have changed.
abbrev pub synced : Device → (ℕ → ℤ) → ℕ → Device
synced d rc left = set_fp d (record (d.fp) { syncwi_rc = rc; sync_done = left })

-- The work items meet no BUG_ON; if none is left, each of them was done in time, and its result is
-- there.
pub record Ran (files : FileOps) (run : SyncRun) (n : ℕ) (d : Device) (rc : ℕ → ℤ) (left : ℕ)
    : Type 0 where
  pub more : d.fp.sync_done ≤ left + n
  pub results : left + n ≡ d.fp.sync_done → (i : ℕ) → i < n → rc i ≡ sync_result files d i

pub run_syncers_lem :
    (files : FileOps) (run : SyncRun) (n : ℕ) (d : Device)
    → n ≤ d.fp.sync_done
    → (rc : ℕ → ℤ) × (left : ℕ) × (run_syncers files run n d ≡ some (synced d rc left))
      × Ran files run n d rc left
unfolding run_syncers pxd_syncer
run_syncers_lem files run zero d h = (
  d.fp.syncwi_rc,
  d.fp.sync_done,
  refl,
  record { more = omega arith; results = λ e i p. absurd (omega arith) },
)
run_syncers_lem files run (suc n) d h =
    let (rc, left, e, ran) = run_syncers_lem files run n d (omega arith) in
    let nonzero : (left == 0) ≡ false = ground (arith, ran.more) in
    elim (Bool-cases (run.in_time n)) [
      | inl now ↦ (
        update rc n (sync_result files d n),
        left - 1,
        rw (e, now, nonzero) refl,
        record {
          more = omega (arith, ran.more);
          results = λ all i p. elim (dec_eq n i) [
            | yes last ↦ ground arith
            | no other ↦
                ground (arith, ran.more, ran.results (omega (arith, ran.more)) i (omega arith))
          ];
        },
      )
      | inr late ↦ (
        rc,
        left,
        rw (e, late) refl,
        record {
          more = omega (arith, ran.more);
          results = λ all i p. absurd (omega (arith, ran.more));
        },
      )
    ]

-- Another device with the same count, disk and queue.
pub Suspended-same :
    (n : ℕ) (d d' : Device)
    → Suspended n d
    → d'.fp.suspend ≡ d.fp.suspend
    → d'.fp.blkmq_frozen ≡ d.fp.blkmq_frozen
    → d'.disk ≡ d.disk
    → d'.quiesced ≡ d.quiesced
    → Suspended n d'
Suspended-same n d d' s a b c e = ground arith

-- What suspends, resumes and syncs leave alone.
pub record Paused (d d' : Device) : Type 0 where
  pub dev_id : d'.dev_id ≡ d.dev_id
  pub minor : d'.minor ≡ d.minor
  pub enabled : d'.fastpath ≡ d.fastpath
  pub ncount : d'.ncount ≡ d.ncount
  pub active : d'.fp.fastpath ≡ d.fp.fastpath
  pub nfd : d'.fp.nfd ≡ d.fp.nfd
  pub file : d'.fp.file ≡ d.fp.file
  pub open_files : d'.fp.open_files ≡ d.fp.open_files
  pub ioswitch_active : d'.fp.ioswitch_active ≡ d.fp.ioswitch_active
  pub active_failover : d'.fp.active_failover ≡ d.fp.active_failover
  pub app_suspend : d'.fp.app_suspend ≡ d.fp.app_suspend
  pub fail_queue : d'.fp.fail_queue ≡ d.fp.fail_queue

pub Paused-refl : (d : Device) → Paused d d
Paused-refl d = record {
  dev_id = refl;
  minor = refl;
  enabled = refl;
  ncount = refl;
  active = refl;
  nfd = refl;
  file = refl;
  open_files = refl;
  ioswitch_active = refl;
  active_failover = refl;
  app_suspend = refl;
  fail_queue = refl;
}

pub Paused-trans : {a b c : Device} → Paused a b → Paused b c → Paused a c
Paused-trans p q = record {
  dev_id = q.dev_id ∙ p.dev_id;
  minor = q.minor ∙ p.minor;
  enabled = q.enabled ∙ p.enabled;
  ncount = q.ncount ∙ p.ncount;
  active = q.active ∙ p.active;
  nfd = q.nfd ∙ p.nfd;
  file = q.file ∙ p.file;
  open_files = q.open_files ∙ p.open_files;
  ioswitch_active = q.ioswitch_active ∙ p.ioswitch_active;
  active_failover = q.active_failover ∙ p.active_failover;
  app_suspend = q.app_suspend ∙ p.app_suspend;
  fail_queue = q.fail_queue ∙ p.fail_queue;
}

pub suspend-Paused : (d : Device) → Paused d (pxd_suspend_io d)
unfolding pxd_suspend_io
suspend-Paused d = record {
  dev_id = refl;
  minor = refl;
  enabled = refl;
  ncount = refl;
  active = refl;
  nfd = refl;
  file = refl;
  open_files = refl;
  ioswitch_active = refl;
  active_failover = refl;
  app_suspend = refl;
  fail_queue = refl;
}

pub resume-Paused : (d : Device) → Paused d (pxd_resume_io d)
unfolding pxd_resume_io
resume-Paused d = record {
  dev_id = refl;
  minor = refl;
  enabled = refl;
  ncount = refl;
  active = refl;
  nfd = refl;
  file = refl;
  open_files = refl;
  ioswitch_active = refl;
  active_failover = refl;
  app_suspend = refl;
  fail_queue = refl;
}

pub synced-Paused : (d : Device) (rc : ℕ → ℤ) (left : ℕ) → Paused d (synced d rc left)
synced-Paused d rc left = record {
  dev_id = refl;
  minor = refl;
  enabled = refl;
  ncount = refl;
  active = refl;
  nfd = refl;
  file = refl;
  open_files = refl;
  ioswitch_active = refl;
  active_failover = refl;
  app_suspend = refl;
  fail_queue = refl;
}
