-- ===== src/Sysfs.antt =====
-- pxd.c: what a process writes to the sysfs files of a device: __strtok_r and __strip_nl,
-- pxd_fastpath_update, pxd_debug_store, pxd_congestion_set, and pxd_release_store.
pub mod Strip
pub mod Paths
use pxmod.Common.{
  ℕ, zero, suc, ◌+◌, ◌-◌, Bool, true, false, ◌&&◌, ◌||◌, not, Option, none, some, List, [], ◌∷◌,
  ◌==◌, ltb, leb, length, if◌then◌else◌, ◌>>=◌,
}
use pxmod.Common.Int.{ℤ, pos, negsuc, ◌+ℤ◌}
use pxmod.Conn.Source.Layout.{UpdatePathOut}
use pxmod.Device.State.{Device, max_pxd_backing_devs}
use pxmod.Device.Queue.{DevConn}
use pxmod.Fastpath.Files.{FileOps}
use pxmod.Fastpath.Paths.{pxd_update_path, pxd_debug_switch_nativepath}
use pxmod.Fastpath.Suspend.{
  SyncRun, set_fp, pxd_suspend_io, pxd_resume_io, pxd_request_suspend, pxd_request_resume,
}
use pxmod.Control.{Control, wipe_all, same_string}

-- A pointer into a buffer is the rest of the buffer from there. Its characters up to the delimiter
-- or to the end of the string, and what comes after the delimiter, if it was found; `none` is a
-- read past the buffer.
unfoldable pub scan : ℕ → List ℕ → Option (List ℕ × Option (List ℕ))
scan delim [] = none
scan delim (c ∷ cs) =
    let rest = scan delim cs in
    if c == 0
    then some ([], none)
    else if c == delim
    then some ([], some cs)
    else (rest >>= λ (token, after). some (c ∷ token, after))

abbrev pub or_else : Option (List ℕ) → Option (List ℕ) → Option (List ℕ)
or_else none b = b
or_else (some a) b = some a

-- The token that starts at `start`, and *saveptr.
abbrev pub token_at :
    ℕ → Option (List ℕ) → Option (List ℕ) → Option (Option (List ℕ) × Option (List ℕ))
token_at delim none saveptr = some (none, saveptr)
token_at delim (some start) saveptr =
    scan delim start >>= λ (token, after). some (some token, or_else after saveptr)

unfoldable pub strtok_r :
    Option (List ℕ) → ℕ → Option (List ℕ) → Option (Option (List ℕ) × Option (List ℕ))
strtok_r (some src) delim saveptr = token_at delim (some src) none
strtok_r none delim saveptr = token_at delim saveptr saveptr

-- isspace and iscntrl of the kernel.
pub record Ctype : Type 0 where
  pub isspace : ℕ → Bool
  pub iscntrl : ℕ → Bool

abbrev pub blank : Ctype → ℕ → Bool
blank ctype c = ctype.isspace c || ctype.iscntrl c

abbrev pub take : ℕ → List ℕ → List ℕ
take zero xs = []
take (suc n) [] = []
take (suc n) (x ∷ xs) = x ∷ take n xs

abbrev pub all_blank : Ctype → List ℕ → Bool
all_blank ctype [] = true
all_blank ctype (c ∷ cs) = blank ctype c && all_blank ctype cs

-- The string without the blanks at its end.
unfoldable pub strip_end : Ctype → List ℕ → List ℕ
strip_end ctype [] = []
strip_end ctype (c ∷ cs) =
    let rest = strip_end ctype cs in if blank ctype c && all_blank ctype cs then [] else c ∷ rest

-- From the first character that is no blank, `len` characters are copied; `none` is a copy with a
-- negative length, or a read before the buffer if there is no such character.
unfoldable pub strip_front : Ctype → List ℕ → ℤ → Option (List ℕ)
strip_front ctype [] (pos len) = some []
strip_front ctype [] (negsuc len) = none
strip_front ctype (c ∷ cs) len =
    let rest = strip_front ctype cs (len +ℤ negsuc 0) in
    if blank ctype c
    then rest
    else elim len [ pos len ↦ some (strip_end ctype (take len (c ∷ cs))) | negsuc len ↦ none ]

-- The string that __strip_nl leaves in a buffer of `maxlen` characters.
unfoldable pub strip_nl : Ctype → ℕ → List ℕ → Option (List ℕ)
strip_nl ctype maxlen [] = some []
strip_nl ctype maxlen (c ∷ cs) =
    let len = length (c ∷ cs) in
    strip_front ctype (c ∷ cs) (pos (if leb maxlen len then maxlen - 1 else len))

-- The loop of pxd_fastpath_update, with `n` paths to go.
unfoldable pub tokens : Ctype → ℕ → Option (List ℕ) → Option (List ℕ) → Option (List (List ℕ))
tokens ctype zero token saveptr = some []
tokens ctype (suc n) none saveptr = some []
tokens ctype (suc n) (some token) saveptr = strip_nl ctype 256 token >>= λ trimtoken.
    strtok_r none 44 saveptr >>= λ (token, saveptr).
    tokens ctype n token saveptr >>= λ rest. some (trimtoken ∷ rest)

-- The paths of a text; `none` is an access outside a buffer.
unfoldable pub paths_of : Ctype → List ℕ → Option (List (List ℕ))
paths_of ctype tmp = strtok_r (some tmp) 44 none >>= λ (token, saveptr).
    tokens ctype max_pxd_backing_devs token saveptr

-- `alloc` is whether kzalloc returns memory.
unfoldable pub pxd_fastpath_update : FileOps → Ctype → Bool → List ℕ → Device → Option (ℕ × Device)
pxd_fastpath_update files ctype alloc buf d =
    if not alloc
    then some (length buf, d)
    else (paths_of ctype buf >>= λ paths. some (
      length buf,
      (pxd_update_path files
          (record {
            dev_id = d.dev_id;
            can_failover = false;
            count = length paths;
            devpath = paths;
          })
          d).1,
    ))

-- pxd_request_suspend, whose result is not used.
abbrev pub app_suspend : FileOps → SyncRun → Device → Option Device
app_suspend files run d = pxd_request_suspend files run false true d >>= λ (rc, d). some d

-- The characters Y, X, s, r, x, S and R; `none` is a BUG_ON of a sync. pxd_debug_switch_fastpath, for
-- x, does nothing.
unfoldable pub pxd_debug_store : FileOps → SyncRun → ℕ → Device → Option Device
pxd_debug_store files run c d =
    if c == 89
    then some (set_fp d (record (d.fp) { force_fail = true }))
    else if c == 88
    then some (pxd_debug_switch_nativepath d)
    else if c == 115
    then some (pxd_suspend_io d)
    else if c == 114
    then some (pxd_resume_io d)
    else if c == 83
    then app_suspend files run d
    else if c == 82
    then some (pxd_request_resume d).1
    else some d

abbrev pub max_congestion_threshold : ℕ
max_congestion_threshold = 1024

-- `thresh` is what sscanf reads.
unfoldable pub pxd_congestion_set : ℤ → Device → Device
pxd_congestion_set (pos n) d = record d {
  qdepth = if ltb max_congestion_threshold n then max_congestion_threshold else n;
}
pxd_congestion_set (negsuc n) d = record d {
  qdepth = if ltb max_congestion_threshold d.qdepth then max_congestion_threshold else d.qdepth;
}

-- "P0RXR3l3@53".
abbrev pub wipemagic : List ℕ
wipemagic = 80 ∷ 48 ∷ 82 ∷ 88 ∷ 82 ∷ 51 ∷ 108 ∷ 51 ∷ 64 ∷ 53 ∷ 51 ∷ []

-- The contexts of the module after a write of the string `buf`.
unfoldable pub pxd_release_store :
    ℕ → (ℕ → ℤ → DevConn → Option DevConn) → List ℕ → List Control → Option (List Control)
pxd_release_store cpu callback buf contexts =
    if same_string wipemagic buf then wipe_all cpu callback contexts else some contexts
