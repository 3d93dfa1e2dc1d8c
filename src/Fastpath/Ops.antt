-- ===== src/Fastpath/Ops.antt =====
-- What the fast path offers to the operations on devices, FastpathOps, filled in.
use pxmod.Common.{
  ℕ, zero, suc, ◌≡◌, refl, ◌∙◌, arith, Bool, true, false, not, ◌||◌, ◌==◌, inl, inr, Bool-cases,
  ltb,
}
use pxmod.Common.Int.{is_pos}
use pxmod.Conn.Source.Layout.{UpdatePathOut}
use pxmod.Device.State.{Device, max_pxd_backing_devs}
use pxmod.Device.Ops.{FastpathOps}
use pxmod.Fastpath.Files.{FileOps}
use pxmod.Fastpath.Suspend.{
  set_fp, pxd_suspend_io, pxd_resume_io, pxd_request_resume, pxd_request_resume_internal,
}
use pxmod.Fastpath.Paths.{
  pxd_fastpath_init, enable_fast_path, disable_fast_path, fall_back, copy_paths,
  pxd_init_fastpath_target, pxd_update_path,
}
use pxmod.Fastpath.Switch.{resume_all, times}
use pxmod.Fastpath.Switch.Reset.{reset_missing, unswitched}

-- The same device, to a process and to the block layer.
pub record Same (d d' : Device) : Type 0 where
  pub dev_id : d'.dev_id ≡ d.dev_id
  pub minor : d'.minor ≡ d.minor
  pub connected : d'.connected ≡ d.connected

Same-trans : {a b c : Device} → Same a b → Same b c → Same a c
Same-trans p q = record {
  dev_id = q.dev_id ∙ p.dev_id;
  minor = q.minor ∙ p.minor;
  connected = q.connected ∙ p.connected;
}

resume-Same : (d : Device) → Same d (pxd_resume_io d)
unfolding pxd_resume_io
resume-Same d = record { dev_id = refl; minor = refl; connected = refl }

pub disable-Same : (skip : Bool) (d : Device) → Same d (disable_fast_path skip d)
unfolding disable_fast_path pxd_suspend_io pxd_resume_io
disable-Same skip d = elim (Bool-cases (not d.fastpath || d.fp.nfd == 0 || not d.fp.fastpath)) [
  | inl off ↦ simp off (record { dev_id = refl; minor = refl; connected = refl })
  | inr on ↦ simp on (record { dev_id = refl; minor = refl; connected = refl })
]

enable-Same :
    (files : FileOps) (force : Bool) (d : Device) → Same d (enable_fast_path files force d)
unfolding enable_fast_path pxd_suspend_io pxd_resume_io
enable-Same files force d = record {
  dev_id = ground arith;
  minor = ground arith;
  connected = ground arith;
}

fall_back-Same : (d : Device) → Same d (fall_back d)
unfolding fall_back
fall_back-Same d =
    let s = disable-Same false d in
    record { dev_id = s.dev_id; minor = s.minor; connected = s.connected }

pub target-Same :
    (files : FileOps) (u : UpdatePathOut) (d : Device)
    → Same d (pxd_init_fastpath_target files u d).1
unfolding pxd_init_fastpath_target pxd_suspend_io
target-Same files u d = elim (Bool-cases (ltb max_pxd_backing_devs u.count)) [
  | inl many ↦ simp many (fall_back-Same d)
  | inr few ↦
      let fp = record (pxd_suspend_io d).fp {
        device_path = copy_paths u.devpath u.count d.fp.device_path;
        nfd = u.count;
        can_failover = u.can_failover;
      } in
      let d₁ = set_fp (pxd_suspend_io d) fp in
      let d₂ = enable_fast_path files true d₁ in
      let e = enable-Same files true d₁ in
      let s = resume-Same d₂ in
      let same : Same d (pxd_resume_io d₂) = record {
        dev_id = s.dev_id ∙ e.dev_id;
        minor = s.minor ∙ e.minor;
        connected = s.connected ∙ e.connected;
      } in
      elim (Bool-cases (pxd_resume_io d₂).fp.fastpath) [
        | inl active ↦ simp (few, active) same
        | inr failed ↦ simp (few, failed) (Same-trans same (fall_back-Same (pxd_resume_io d₂)))
      ]
]

resume_all-Same : (n : ℕ) (d : Device) → Same d (resume_all n d)
unfolding resume_all
resume_all-Same zero d = record { dev_id = refl; minor = refl; connected = refl }
resume_all-Same (suc n) d =
    let rest = resume_all-Same n (pxd_resume_io d) in
    elim (Bool-cases (is_pos d.fp.suspend)) [
      | inl up ↦ simp up (Same-trans (resume-Same d) rest)
      | inr down ↦ simp down (record { dev_id = refl; minor = refl; connected = refl })
    ]

pub update_path-Same :
    (files : FileOps) (u : UpdatePathOut) (d : Device) → Same d (pxd_update_path files u d).1
unfolding pxd_update_path
update_path-Same files u d =
    let s = target-Same files u d in
    elim (Bool-cases (not d.fastpath)) [
      | inl off ↦ simp off (record { dev_id = refl; minor = refl; connected = refl })
      | inr on ↦ elim (Bool-cases d.fp.fastpath) [
        | inl active ↦ simp (on, active) (record { dev_id = refl; minor = refl; connected = refl })
        | inr inactive ↦ simp (on, inactive) s
      ]
    ]

request_resume-Same : (d : Device) → Same d (pxd_request_resume d).1
unfolding pxd_request_resume pxd_request_resume_internal pxd_resume_io
request_resume-Same d = record {
  dev_id = ground arith;
  minor = ground arith;
  connected = ground arith;
}

pub reset-Same : (d : Device) → Same d (reset_missing d)
unfolding reset_missing
reset-Same d = elim (Bool-cases (not d.fastpath)) [
  | inl off ↦ simp off (record { dev_id = refl; minor = refl; connected = refl })
  | inr on ↦
      let u = unswitched (disable_fast_path true d) in
      let e = disable-Same true d in
      let f : Same (disable_fast_path true d) u = record {
        dev_id = ground arith;
        minor = ground arith;
        connected = ground arith;
      } in
      let r = request_resume-Same u in
      simp on (
        Same-trans (Same-trans (Same-trans e f) r)
          (resume_all-Same (times (pxd_request_resume u).1.fp.suspend) (pxd_request_resume u).1))
]

abbrev pub fastpath_ops : FileOps → FastpathOps
unfolding pxd_fastpath_init
fastpath_ops files = record {
  pxd_fastpath_init = pxd_fastpath_init;
  pxd_init_fastpath_target = pxd_init_fastpath_target files;
  pxd_update_path = λ u d. (pxd_update_path files u d).1;
  disable_fast_path = disable_fast_path;
  pxd_fastpath_reset_device = reset_missing;
  init_same = λ d. (refl, refl);
  target_same = λ u d. let s = target-Same files u d in (s.dev_id, s.minor);
  path_same = λ u d. let s = update_path-Same files u d in (s.dev_id, s.minor);
  disable_same = λ skip d. let s = disable-Same skip d in (s.dev_id, s.minor);
  reset_same = λ d. let s = reset-Same d in (s.dev_id, s.minor);
}
