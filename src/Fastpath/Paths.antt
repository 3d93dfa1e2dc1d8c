-- ===== src/Fastpath/Paths.antt =====
-- pxd_fastpath.c: the backing files of a device are opened and closed, and the device goes on and off
-- its fast path. Work of other threads that fastpath_flush_work waits for is no part of these steps.
pub mod Held
pub mod Laws
pub mod Target
use Prim.Native.Nat.{bit_and, bit_or}
use pxmod.Common.{
  ℕ, zero, suc, ◌+◌, ◌==◌, Bool, true, false, not, ◌||◌, Option, none, some, List, [], ◌∷◌, ltb,
  leb, if◌then◌else◌, update, list_del, get_or,
}
use pxmod.Common.Int.{ℤ, pos, is_zero, einval}
use pxmod.Conn.Source.Layout.{UpdatePathOut}
use pxmod.Device.State.{Device, Fastpath, max_pxd_backing_devs}
use pxmod.Device.Ops.{zero_fastpath}
use pxmod.Fastpath.Files.{FileOps}
use pxmod.Fastpath.Suspend.{set_fp, pxd_suspend_io, pxd_resume_io}

-- MAX_PXD_DEVPATH_LEN.
abbrev pub max_pxd_devpath_len : ℕ
max_pxd_devpath_len = 127

abbrev pub o_rdwr : ℕ
o_rdwr = 2

abbrev pub o_direct : ℕ
o_direct = 16384

abbrev pub o_sync : ℕ
o_sync = 1052672

abbrev keep_bits : ℕ → ℕ → ℕ
keep_bits bits mode = if bit_and mode bits == 0 then 0 else bits

-- O_LARGEFILE | O_NOATIME, and the bits that are kept of the mode.
unfoldable pub open_mode : ℕ → ℕ
open_mode mode =
    bit_or (bit_or (bit_or (32768 + 262144) (keep_bits o_rdwr mode)) (keep_bits o_sync mode))
      (keep_bits o_direct mode)

abbrev pub close_file : ℕ → Fastpath → Fastpath
close_file f fp = record fp { open_files = list_del f fp.open_files }

-- strncpy: the characters before the first 0, `n` at most.
unfoldable pub strncpy : ℕ → List ℕ → List ℕ
strncpy zero s = []
strncpy (suc n) [] = []
strncpy (suc n) (c ∷ s) = let rest = strncpy n s in if c == 0 then [] else c ∷ rest

-- filp_open of the path `i`; false leads to out_file_failed.
unfoldable pub open_path : FileOps → ℕ → ℕ → Fastpath → Bool × Fastpath
open_path files mode i fp = elim (files.filp_open (fp.device_path i) mode) [
  | none ↦ (false, fp)
  | some f ↦ (
    files.is_backing f,
    record fp { file = update fp.file i (some f); open_files = f ∷ fp.open_files },
  )
]

unfoldable pub open_one : FileOps → ℕ → Bool → ℕ → Fastpath → Bool × Fastpath
open_one files mode force i fp = elim (fp.file i) [
  | none ↦ open_path files mode i fp
  | some f ↦ if force then open_path files mode i (close_file f fp) else (files.is_backing f, fp)
]

-- The loop over the files `i`, `i` + 1, …, of which `n` are left.
unfoldable pub open_all : FileOps → ℕ → Bool → ℕ → ℕ → Fastpath → Bool × Fastpath
open_all files mode force i zero fp = (true, fp)
open_all files mode force i (suc n) fp =
    let one = open_one files mode force i fp in
    let rest = open_all files mode force (suc i) n one.1 in if one.0 then rest else (false, one.1)

-- The loop that closes the files of out_file_failed.
unfoldable pub close_all : ℕ → ℕ → Fastpath → Fastpath
close_all i zero fp = fp
close_all i (suc n) fp =
    close_all (suc i) n (elim (fp.file i) [ none ↦ fp | some f ↦ close_file f fp ])

-- memset of the files and of their paths.
abbrev pub forget_files : Fastpath → Fastpath
forget_files fp = record fp { file = λ i. none; device_path = λ i. [] }

-- On a failure the device stays suspended.
unfoldable pub enable_fast_path : FileOps → Bool → Device → Device
enable_fast_path files force d =
    if not d.fastpath || d.fp.nfd == 0
    then set_fp d (record (d.fp) { fastpath = false })
    else (let d = pxd_suspend_io d in
        let nfd = d.fp.nfd in
        let (good, fp) = open_all files (open_mode d.mode) force 0 nfd d.fp in
        if good
        then pxd_resume_io (set_fp d (record fp { fastpath = true }))
        else set_fp d
            (record (forget_files (close_all 0 nfd (record fp { nfd = 0 }))) { fastpath = false }))

-- The loop of disableFastPath, which also clears the pointers. The result of vfs_fsync is printed.
unfoldable pub drop_files : ℕ → ℕ → Fastpath → Fastpath
drop_files i zero fp = fp
drop_files i (suc n) fp = drop_files (suc i) n (elim (fp.file i) [
  | none ↦ fp
  | some f ↦ record (close_file f fp) { file = update fp.file i none }
])

-- `skipsync` only says whether the files are synced first.
unfoldable pub disable_fast_path : Bool → Device → Device
disable_fast_path skipsync d =
    if not d.fastpath || d.fp.nfd == 0 || not d.fp.fastpath
    then set_fp d (record (d.fp) { active_failover = false; fastpath = false })
    else (let d = pxd_suspend_io d in
        let fp = drop_files 0 d.fp.nfd d.fp in
        pxd_resume_io (set_fp d (record fp { nfd = 0; fastpath = false; can_failover = false })))

-- memset of the whole structure.
unfoldable pub pxd_fastpath_init : Device → ℤ × Device
pxd_fastpath_init d = (pos 0, set_fp d zero_fastpath)

unfoldable pub pxd_fastpath_vol_cleanup : Device → ℤ × Device
pxd_fastpath_vol_cleanup d =
    if is_zero d.fp.suspend then (einval, d) else (pos 0, pxd_resume_io (disable_fast_path false d))

unfoldable pub pxd_fastpath_cleanup : Device → Device
pxd_fastpath_cleanup d = disable_fast_path false d

-- The paths 0, …, `n` - 1, in buffers that end with a 0.
unfoldable pub copy_paths : List (List ℕ) → ℕ → (ℕ → List ℕ) → ℕ → List ℕ
copy_paths devpath zero paths = paths
copy_paths devpath (suc n) paths =
    update (copy_paths devpath n paths) n (strncpy max_pxd_devpath_len (get_or devpath n []))

-- out_file_failed: the device is to use the native path.
unfoldable pub fall_back : Device → Device
fall_back d =
    let d = disable_fast_path false d in
    set_fp d (forget_files (record (close_all 0 d.fp.nfd d.fp) { nfd = 0 }))

unfoldable pub pxd_init_fastpath_target : FileOps → UpdatePathOut → Device → ℤ × Device
pxd_init_fastpath_target files u d =
    if ltb max_pxd_backing_devs u.count
    then (pos 0, fall_back d)
    else (let d = pxd_suspend_io d in
        let d = set_fp d (record (d.fp) {
          device_path = copy_paths u.devpath u.count d.fp.device_path;
          nfd = u.count;
          can_failover = u.can_failover;
        }) in
        let d = pxd_resume_io (enable_fast_path files true d) in
        (pos 0, if d.fp.fastpath then d else fall_back d))

-- __pxd_update_path: only a device that is registered for the fast path and that is not on it.
unfoldable pub pxd_update_path : FileOps → UpdatePathOut → Device → ℤ × Device
pxd_update_path files u d =
    if not d.fastpath
    then (einval, d)
    else if d.fp.fastpath
    then (einval, d)
    else pxd_init_fastpath_target files u d

unfoldable pub pxd_debug_switch_nativepath : Device → Device
pxd_debug_switch_nativepath d =
    if d.fp.fastpath
    then disable_fast_path false (set_fp d (record (d.fp) { force_fail = true }))
    else d
