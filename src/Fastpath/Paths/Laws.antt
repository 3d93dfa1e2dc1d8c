-- ===== src/Fastpath/Paths/Laws.antt =====
-- A device on its fast path and off it, and disableFastPath (pxd_fastpath.c).
use pxmod.Common.{
  subst, sym, ℕ, zero, suc, ◌≤◌, ◌<◌, ◌≡◌, refl, ◌∙◌, ap, arith, ◌==◌, Bool, true, false, not, ◌||◌,
  none, [], occurs, inl, inr, ◌⊎◌,
}
use pxmod.Common.Int.{pos, is_zero, einval}
use pxmod.Device.State.{Device, max_pxd_backing_devs}
use pxmod.Fastpath.Suspend.{set_fp, pxd_suspend_io, pxd_resume_io}
use pxmod.Fastpath.Suspend.Laws.{
  Suspended, suspend-Suspended, resume-Suspended, Suspended-same, Paused,
}
use pxmod.Fastpath.Paths.{disable_fast_path, pxd_fastpath_vol_cleanup}
use pxmod.Fastpath.Paths.Held.{Opened, held, drop_files_lem, reopened}

-- Off the fast path: no file is open, and no pointer to one is left.
pub record Off (d : Device) : Type 0 where
  pub inactive : d.fp.fastpath ≡ false
  pub open_files : d.fp.open_files ≡ []
  pub file : (j : ℕ) → d.fp.file j ≡ none

-- On the fast path: the pointers to the nfd files are the open files.
pub record On (d : Device) : Type 0 where
  pub enabled : d.fastpath ≡ true
  pub active : d.fp.fastpath ≡ true
  pub some_file : 0 < d.fp.nfd
  pub fits : d.fp.nfd ≤ max_pxd_backing_devs
  pub opened : Opened d.fp.nfd d.fp

-- What suspend and resume leave alone.
suspend-files :
    (d : Device)
    → ((pxd_suspend_io d).fp.file ≡ d.fp.file)
      × ((pxd_suspend_io d).fp.open_files ≡ d.fp.open_files)
      × ((pxd_suspend_io d).fp.nfd ≡ d.fp.nfd)
      × ((pxd_suspend_io d).fp.fastpath ≡ d.fp.fastpath)
      × ((pxd_suspend_io d).fastpath ≡ d.fastpath)
unfolding pxd_suspend_io
suspend-files d = (refl, refl, refl, refl, refl)

pub resume-Off : (d : Device) → Off d → Off (pxd_resume_io d)
unfolding pxd_resume_io
resume-Off d o = record { inactive = o.inactive; open_files = o.open_files; file = o.file }

-- disableFastPath off the fast path, and on it.
pub disable-Off :
    (skipsync : Bool) (d : Device)
    → d.fp.fastpath ≡ false
    → disable_fast_path skipsync d
      ≡ set_fp d (record (d.fp) { active_failover = false; fastpath = false })
unfolding disable_fast_path
disable-Off skipsync d h =
    let skip : (not d.fastpath || d.fp.nfd == 0 || not d.fp.fastpath) ≡ true = ground arith in
    simp skip

pub disable-On :
    (skipsync : Bool) (d : Device)
    → On d
    → disable_fast_path skipsync d
      ≡ pxd_resume_io (
          set_fp (pxd_suspend_io d) (record (reopened (pxd_suspend_io d).fp (λ j. none) []) {
            nfd = 0;
            fastpath = false;
            can_failover = false;
          }))
unfolding disable_fast_path
disable-On skipsync d on =
    let go_on : (not d.fastpath || d.fp.nfd == 0 || not d.fp.fastpath) ≡ false =
      ground (arith, on.enabled, on.active, on.some_file) in
    let run =
      drop_files_lem 0 d.fp.nfd (pxd_suspend_io d).fp
        (λ h. unfold pxd_suspend_io in on.opened.files h) (λ j p. absurd (omega arith))
        (λ j p. unfold pxd_suspend_io in on.opened.beyond j (omega arith)) in
    simp (go_on, (suspend-files d).2, run)

-- disableFastPath from any state: all files are closed, the device is off its fast path, and it is
-- as often suspended as before.
pub disable_lem :
    (skipsync : Bool) (n : ℕ) (d : Device)
    → (On d) ⊎ (Off d)
    → Suspended n d
    → Off (disable_fast_path skipsync d) × Suspended n (disable_fast_path skipsync d)
disable_lem skipsync n d (inr off) s = rw (disable-Off skipsync d off.inactive) (
  record { inactive = refl; open_files = off.open_files; file = off.file },
  Suspended-same n d _ s refl refl refl refl,
)
disable_lem skipsync n d (inl on) s =
    let up = suspend-Suspended n d s in
    rw (disable-On skipsync d on) (
      resume-Off _ (record { inactive = refl; open_files = refl; file = λ j. refl }),
      resume-Suspended n _ (Suspended-same (suc n) (pxd_suspend_io d) _ up refl refl refl refl),
    )

-- What opening and closing files, suspend and resume leave alone.
pub record Kept (d d' : Device) : Type 0 where
  pub dev_id : d'.dev_id ≡ d.dev_id
  pub minor : d'.minor ≡ d.minor
  pub enabled : d'.fastpath ≡ d.fastpath
  pub ncount : d'.ncount ≡ d.ncount
  pub ioswitch_active : d'.fp.ioswitch_active ≡ d.fp.ioswitch_active
  pub switch_uid : d'.fp.switch_uid ≡ d.fp.switch_uid
  pub app_suspend : d'.fp.app_suspend ≡ d.fp.app_suspend
  pub fail_queue : d'.fp.fail_queue ≡ d.fp.fail_queue

pub resume-Kept : (d : Device) → Kept d (pxd_resume_io d)
unfolding pxd_resume_io
resume-Kept d = record {
  dev_id = refl;
  minor = refl;
  enabled = refl;
  ncount = refl;
  ioswitch_active = refl;
  switch_uid = refl;
  app_suspend = refl;
  fail_queue = refl;
}

pub disable-Kept :
    (skipsync : Bool) (d : Device) → (On d) ⊎ (Off d) → Kept d (disable_fast_path skipsync d)
unfolding pxd_suspend_io pxd_resume_io
disable-Kept skipsync d (inl on) = rw (disable-On skipsync d on) (record {
  dev_id = refl;
  minor = refl;
  enabled = refl;
  ncount = refl;
  ioswitch_active = refl;
  switch_uid = refl;
  app_suspend = refl;
  fail_queue = refl;
})
disable-Kept skipsync d (inr off) = rw (disable-Off skipsync d off.inactive) (record {
  dev_id = refl;
  minor = refl;
  enabled = refl;
  ncount = refl;
  ioswitch_active = refl;
  switch_uid = refl;
  app_suspend = refl;
  fail_queue = refl;
})

-- PXD_IOC_FPCLEANUP on a device that is suspended takes it off its fast path and resumes it once;
-- a device that is not suspended is refused, and stays as it is.
pub vol_cleanup_lem :
    (n : ℕ) (d : Device)
    → (On d) ⊎ (Off d)
    → Suspended n d
    → ((n ≡ 0) × (pxd_fastpath_vol_cleanup d ≡ (einval, d)))
      ⊎ ((m : ℕ) × (d' : Device) × (n ≡ suc m)
          × (pxd_fastpath_vol_cleanup d ≡ (pos 0, d'))
          × Off d'
          × Suspended m d')
unfolding pxd_fastpath_vol_cleanup
vol_cleanup_lem zero d path s =
    let up : is_zero d.fp.suspend ≡ true = ground (arith, s.count) in inl (refl, simp up)
vol_cleanup_lem (suc n) d path s =
    let down : is_zero d.fp.suspend ≡ false = ground (arith, s.count) in
    let (off, s') = disable_lem false (suc n) d path s in
    inr (
      n,
      pxd_resume_io (disable_fast_path false d),
      refl,
      simp down,
      resume-Off (disable_fast_path false d) off,
      resume-Suspended n (disable_fast_path false d) s',
    )

-- Another device with the same files.
pub On-same :
    (d d' : Device)
    → On d
    → d'.fastpath ≡ d.fastpath
    → d'.fp.fastpath ≡ d.fp.fastpath
    → d'.fp.nfd ≡ d.fp.nfd
    → d'.fp.file ≡ d.fp.file
    → d'.fp.open_files ≡ d.fp.open_files
    → On d'
On-same d d' on enabled active nfd file open_files = record {
  enabled = enabled ∙ on.enabled;
  active = active ∙ on.active;
  some_file = subst (λ k. 0 < k) (sym nfd) on.some_file;
  fits = subst (λ k. k ≤ max_pxd_backing_devs) (sym nfd) on.fits;
  opened =
      let o = subst (λ k. Opened k d.fp) (sym nfd) on.opened in
      record {
        files =
            λ h. ap (occurs h) open_files ∙ o.files h ∙ ap (λ f. held f 0 d'.fp.nfd h) (sym file);
        beyond = λ j q. ap (λ f. f j) file ∙ o.beyond j q;
        there = λ j q e. o.there j q (ap (λ f. f j) (sym file) ∙ e);
      };
}

pub resume-On : (d : Device) → On d → On (pxd_resume_io d)
unfolding pxd_resume_io
resume-On d o = On-same d (pxd_resume_io d) o refl refl refl refl refl

pub Paused-On : {d d' : Device} → On d → Paused d d' → On d'
Paused-On {d} {d'} on p = On-same d d' on p.enabled p.active p.nfd p.file p.open_files

pub Paused-Off : {d d' : Device} → Off d → Paused d d' → Off d'
Paused-Off off p = record {
  inactive = p.active ∙ off.inactive;
  open_files = p.open_files ∙ off.open_files;
  file = λ j. ap (λ f. f j) p.file ∙ off.file j;
}
