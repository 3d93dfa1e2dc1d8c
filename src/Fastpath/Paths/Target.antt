-- ===== src/Fastpath/Paths/Target.antt =====
-- pxd_init_fastpath_target and enableFastPath (pxd_fastpath.c).
use package.native.Mathlib.Decide.{ℕ_discrete as dec_eq}
use pxmod.Common.{
  ℕ, zero, suc, ap, sym, ◌≢◌, Option, some, List, ◌∷◌, get_or, Option-cases, ◌≤◌, ◌<◌, ◌≡◌, refl,
  ◌∙◌, subst, arith, ◌==◌, Bool, true, false, not, ◌||◌, [], ltb, Bool-cases, inl, inr, ◌⊎◌,
}
use pxmod.Common.Int.{pos}
use pxmod.Conn.Source.Layout.{UpdatePathOut}
use pxmod.Device.State.{Device, max_pxd_backing_devs}
use pxmod.Fastpath.Files.{FileOps}
use pxmod.Fastpath.Suspend.{set_fp, pxd_suspend_io, pxd_resume_io}
use pxmod.Fastpath.Suspend.Laws.{Suspended, suspend-Suspended, resume-Suspended, Suspended-same}
use pxmod.Fastpath.Paths.{
  max_pxd_devpath_len, strncpy, open_mode, enable_fast_path, fall_back, copy_paths,
  pxd_init_fastpath_target,
}
use pxmod.Fastpath.Paths.Held.{
  Opened, Off-Opened, Opened-held, close_all_lem, open_all_lem, reopened,
}
use pxmod.Fastpath.Paths.Laws.{Off, On, resume-Off, resume-On, disable-Off}

-- The two ends of enableFastPath: on the fast path, suspended as often as before, or off it, with
-- the paths forgotten and suspended once more.
data Enabled (files : FileOps) (n : ℕ) (d₀ d : Device) : Type 0 where
  on :
      On d
      → d.fp.nfd ≡ d₀.fp.nfd
      → Suspended n d
      → d.fp.device_path ≡ d₀.fp.device_path
      → ((i : ℕ)
          → i < d₀.fp.nfd
          → files.filp_open (d₀.fp.device_path i) (open_mode d₀.mode) ≡ d.fp.file i)
      → Enabled files n d₀ d
  failed : Off d → d.fp.nfd ≡ 0 → Suspended (suc n) d → Enabled files n d₀ d

enable_lem :
    (files : FileOps) (force : Bool) (n : ℕ) (d : Device)
    → Off d
    → d.fastpath ≡ true
    → 0 < d.fp.nfd
    → d.fp.nfd ≤ max_pxd_backing_devs
    → Suspended n d
    → Enabled files n d (enable_fast_path files force d)
unfolding enable_fast_path pxd_suspend_io pxd_resume_io
enable_lem files force n d off enabled some_file fits s =
    let go_on : (not d.fastpath || d.fp.nfd == 0) ≡ false = ground arith in
    let d' = pxd_suspend_io d in
    let up = suspend-Suspended n d s in
    let run =
      open_all_lem files (open_mode d.mode) force 0 d.fp.nfd d'.fp
        (Off-Opened d'.fp off.open_files off.file) in
    elim (Bool-cases run.good) [
      | inl good ↦
          let all : run.upto ≡ d.fp.nfd = ground (arith, run.all) in
          simp (go_on, run.runs, good)
            (Enabled.on
              (resume-On _ (record {
                enabled = enabled;
                active = refl;
                some_file = some_file;
                fits = fits;
                opened =
                    let o =
                      subst (λ k. Opened k (reopened d'.fp run.file run.open_files)) all
                        run.opened in
                    record { files = o.files; beyond = o.beyond; there = o.there };
              }))
              refl (resume-Suspended n _ (Suspended-same (suc n) d' _ up refl refl refl refl)) refl
              (elim run.from_paths [
                | inl b ↦ cc
                | inr at ↦ λ i p. at i (omega arith) (omega arith)
              ]))
      | inr bad ↦
          let fp = reopened d'.fp run.file run.open_files in
          let closed =
            close_all_lem 0 d.fp.nfd (record fp { nfd = 0 })
              (Opened-held run.upto d.fp.nfd fp (omega (arith, run.within)) run.opened) in
          simp (go_on, run.runs, bad, closed)
            (Enabled.failed (record { inactive = refl; open_files = refl; file = λ j. refl }) refl
              (Suspended-same (suc n) d' _ up refl refl refl refl))
    ]

-- With no path, or without a registration for the fast path, nothing is opened.
enable-none :
    (files : FileOps) (force : Bool) (d : Device)
    → (d.fastpath ≡ false) ⊎ (d.fp.nfd ≡ 0)
    → enable_fast_path files force d ≡ set_fp d (record (d.fp) { fastpath = false })
unfolding enable_fast_path
enable-none files force d why =
    let skip : (not d.fastpath || d.fp.nfd == 0) ≡ true = ground arith in simp skip

-- The native path: no file is open and no path is left.
pub record Native (d : Device) : Type 0 where
  pub off : Off d
  pub no_files : d.fp.nfd ≡ 0
  pub no_paths : (i : ℕ) → d.fp.device_path i ≡ []

fall_back_lem :
    (n : ℕ) (d : Device) → Off d → Suspended n d → Native (fall_back d) × Suspended n (fall_back d)
unfolding fall_back
fall_back_lem n d off s =
    let d' = set_fp d (record (d.fp) { active_failover = false; fastpath = false }) in
    let closed =
      close_all_lem 0 d.fp.nfd d'.fp
        (Opened-held 0 d.fp.nfd d'.fp (omega arith) (Off-Opened d'.fp off.open_files off.file)) in
    simp (disable-Off false d off.inactive, closed)
      (
        record {
          off = record { inactive = refl; open_files = refl; file = λ j. refl };
          no_files = refl;
          no_paths = λ i. refl;
        },
        Suspended-same n d _ s refl refl refl refl,
      )

resume-nfd : (d : Device) → (pxd_resume_io d).fp.nfd ≡ d.fp.nfd
unfolding pxd_resume_io
resume-nfd d = refl

resume-files :
    (d : Device)
    → ((pxd_resume_io d).fp.file ≡ d.fp.file)
      × ((pxd_resume_io d).fp.device_path ≡ d.fp.device_path)
unfolding pxd_resume_io
resume-files d = (refl, refl)

-- What is kept of a path in `n` characters: what stands before its first 0.
pub data Cut : ℕ → List ℕ → List ℕ → Type 0 where
  no_room : {s : List ℕ} → Cut 0 s []
  at_end : {n : ℕ} → Cut (suc n) [] []
  at_zero : {n : ℕ} {s : List ℕ} → Cut (suc n) (0 ∷ s) []
  keeps : {n c : ℕ} {s t : List ℕ} → c ≢ 0 → Cut n s t → Cut (suc n) (c ∷ s) (c ∷ t)

strncpy-Cut : (n : ℕ) (s : List ℕ) → Cut n s (strncpy n s)
unfolding strncpy
strncpy-Cut zero s = Cut.no_room
strncpy-Cut (suc n) [] = Cut.at_end
strncpy-Cut (suc n) (c ∷ s) = elim (dec_eq c 0) [
  | yes e ↦ rw e Cut.at_zero
  | no other ↦
      let skip : (c == 0) ≡ false = ground arith in rw skip (Cut.keeps other (strncpy-Cut n s))
]

copy_paths-at :
    (devpath : List (List ℕ)) (n : ℕ) (paths : ℕ → List ℕ) (i : ℕ)
    → i < n
    → copy_paths devpath n paths i ≡ strncpy max_pxd_devpath_len (get_or devpath i [])
unfolding copy_paths
copy_paths-at devpath zero paths i p = absurd (omega arith)
copy_paths-at devpath (suc n) paths i p = elim (dec_eq n i) [
  | yes here ↦ ground arith
  | no other ↦ ground (arith, copy_paths-at devpath n paths i (omega arith))
]

-- The device keeps the path of each file that it was given, and has the file open that is found
-- there.
pub record PathsOpen (files : FileOps) (u : UpdatePathOut) (d d' : Device) : Type 0 where
  pub paths :
      (i : ℕ) → i < u.count → Cut max_pxd_devpath_len (get_or u.devpath i []) (d'.fp.device_path i)
  pub files_open :
      (i : ℕ)
      → i < u.count
      → (f : ℕ) × (files.filp_open (d'.fp.device_path i) (open_mode d.mode) ≡ some f)
        × (d'.fp.file i ≡ some f)

-- The paths are there, and one file at least is to be opened.
abbrev pub HasTarget : UpdatePathOut → Device → Type 0
HasTarget u d = (d.fastpath ≡ true) × (0 < u.count) × (u.count ≤ max_pxd_backing_devs)

-- How pxd_init_fastpath_target leaves a device that was suspended `n` times.
pub data Targeted (files : FileOps) (n : ℕ) (u : UpdatePathOut) (d d' : Device) : Type 0 where
  on_files :
      On d'
      → d'.fp.nfd ≡ u.count
      → PathsOpen files u d d'
      → Suspended n d'
      → Targeted files n u d d'
  native : Native d' → ¬ HasTarget u d → Suspended n d' → Targeted files n u d d'
  stuck : Native d' → HasTarget u d → Suspended (suc n) d' → Targeted files n u d d'

paths-open :
    (files : FileOps) (u : UpdatePathOut) (d d₁ d' : Device) (paths : ℕ → List ℕ)
    → ((i : ℕ) → i < u.count → paths i ≡ strncpy max_pxd_devpath_len (get_or u.devpath i []))
    → d'.fp.file ≡ d₁.fp.file
    → d'.fp.device_path ≡ paths
    → ((i : ℕ) → i < u.count → files.filp_open (paths i) (open_mode d.mode) ≡ d₁.fp.file i)
    → d₁.fp.nfd ≡ u.count
    → On d₁
    → PathsOpen files u d d'
paths-open files u d d₁ d' paths copied file path opens nfd active = record {
  paths = λ i p.
      subst (Cut max_pxd_devpath_len (get_or u.devpath i []))
        (sym (ap (λ (g : ℕ → List ℕ). g i) path ∙ copied i p))
        (strncpy-Cut max_pxd_devpath_len (get_or u.devpath i []));
  files_open = λ i p. elim (Option-cases (d₁.fp.file i)) [
    | inl e ↦ absurd (active.opened.there i (omega arith) e)
    | inr (f, e) ↦ (
      f,
      ap (λ (g : ℕ → List ℕ). files.filp_open (g i) (open_mode d.mode)) path ∙ opens i p ∙ e,
      ap (λ (g : ℕ → Option ℕ). g i) file ∙ e,
    )
  ];
}

-- From off the fast path, pxd_init_fastpath_target always returns 0. The device is then on its fast
-- path, suspended as often as before: it keeps each path that it was given, cut at the first 0 and
-- after 127 characters, and has the file open that was found at the path; or there was nothing to open, and it
-- uses the native path, suspended as often as before; or a file could not be used, and it uses the
-- native path with all files closed, but suspended once more than before.
pub init_target_lem :
    (files : FileOps) (u : UpdatePathOut) (n : ℕ) (d : Device)
    → Off d
    → Suspended n d
    → (d' : Device) × (pxd_init_fastpath_target files u d ≡ (pos 0, d')) × Targeted files n u d d'
unfolding pxd_init_fastpath_target pxd_suspend_io
init_target_lem files u n d off s = elim (Bool-cases (ltb max_pxd_backing_devs u.count)) [
  | inl many ↦
      let (closed, same) = fall_back_lem n d off s in
      (fall_back d, simp many, Targeted.native closed (λ (e, p, q). ground arith) same)
  | inr few ↦
      let fp = record (pxd_suspend_io d).fp {
        device_path = copy_paths u.devpath u.count d.fp.device_path;
        nfd = u.count;
        can_failover = u.can_failover;
      } in
      let d₁ = set_fp (pxd_suspend_io d) fp in
      let up =
        Suspended-same (suc n) (pxd_suspend_io d) d₁ (suspend-Suspended n d s) refl refl refl
          refl in
      let off₁ : Off d₁ = record {
        inactive = off.inactive;
        open_files = off.open_files;
        file = off.file;
      } in
      elim (Bool-cases (not d.fastpath || u.count == 0)) [
        | inl nothing ↦
            let d₂ = pxd_resume_io (set_fp d₁ (record fp { fastpath = false })) in
            let off₂ =
              resume-Off (set_fp d₁ (record fp { fastpath = false }))
                (record { inactive = refl; open_files = off.open_files; file = off.file }) in
            let down =
              resume-Suspended n (set_fp d₁ (record fp { fastpath = false }))
                (Suspended-same (suc n) d₁ _ up refl refl refl refl) in
            let (closed, same) = fall_back_lem n d₂ off₂ down in
            let none_to_open = enable-none files true d₁ (ground arith) in
            (
              fall_back d₂,
              simp (few, none_to_open, off₂.inactive),
              Targeted.native closed (λ (e, p, q). ground arith) same,
            )
        | inr something ↦
            elim (enable_lem files true (suc n) d₁ off₁ (ground arith) (ground arith) (ground arith)
              up) [
                | Enabled.on active nfd same paths opens ↦
                    let on₂ = resume-On (enable_fast_path files true d₁) active in
                    (
                      pxd_resume_io (enable_fast_path files true d₁),
                      simp (few, on₂.active),
                      Targeted.on_files on₂ (resume-nfd _ ∙ nfd)
                          (paths-open files u d (enable_fast_path files true d₁)
                            (pxd_resume_io (enable_fast_path files true d₁)) fp.device_path
                            (λ i p. copy_paths-at u.devpath u.count d.fp.device_path i p)
                            (resume-files _).0 ((resume-files _).1 ∙ paths) opens nfd active)
                          (resume-Suspended n _ same),
                    )
                | Enabled.failed off₂ nfd same ↦
                    let off₃ = resume-Off (enable_fast_path files true d₁) off₂ in
                    let (closed, down) =
                      fall_back_lem (suc n) (pxd_resume_io (enable_fast_path files true d₁)) off₃
                        (resume-Suspended (suc n) _ same) in
                    (
                      fall_back (pxd_resume_io (enable_fast_path files true d₁)),
                      simp (few, off₃.inactive),
                      Targeted.stuck closed (ground arith, ground arith, ground arith) down,
                    )
              ]
      ]
]
