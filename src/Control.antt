-- ===== src/Control.antt =====
-- pxd.c: the control device of a context: open, release, and the work that aborts all requests some
-- time after the process has gone; the settings that touch that work; and the module's start.
pub mod Abort
pub mod Laws
pub mod Open
pub mod System
use pxmod.Common.{
  ℕ, zero, suc, ◌+◌, ◌-◌, ◌*◌, ◌%◌, ◌^◌, Bool, true, false, ◌&&◌, ◌||◌, not, Option, none, some,
  List, [], ◌∷◌, ◌++◌, ◌==◌, ltb, leb, if◌then◌else◌, ◌>>=◌, bug_on, is_empty,
}
use pxmod.Common.Int.{ℤ, pos, negsuc, einval, enxio, econnaborted}
use pxmod.Conn.Opcode.{pxd_failover_to_userspace, pxd_fallback_to_kernel}
use pxmod.Conn.State.{FuseConn, FuseReq}
use pxmod.Conn.Lifecycle.{
  fuse_end_queued_requests, fuse_restart_requests, fuse_abort_conn, fuse_conn_put, fuse_conn_init,
  Allocs,
}
use pxmod.Device.State.{Device, Context, set_dev}
use pxmod.Device.Queue.{DevConn}
use pxmod.Fastpath.Switch.{pxd_fastpath_reset_device}

-- EACCES.
abbrev pub eacces : ℤ
eacces = negsuc 12

-- struct pxd_context, with what its devices show to the block layer. `abort_work` is how many
-- jiffies the scheduled work is to wait, if it is scheduled. `timeout_secs` is pxd_timeout_secs, of
-- the module.
pub record Control : Type 0 where
  pub id : ℕ
  pub open_seq : ℕ
  pub fc : FuseConn
  pub ctx : Context
  pub ended_rqs : List (ℕ × ℤ)
  pub queued_work : List ℕ
  pub abort_work : Option ℕ
  pub timeout_secs : ℕ

-- The settings of the module, the address of its array of contexts and the size of one of them, and
-- the jiffies of a second.
pub record Module : Type 0 where
  pub pxd_contexts : ℕ
  pub context_size : ℕ
  pub pxd_num_contexts : ℕ
  pub pxd_num_contexts_exported : ℕ
  pub hz : ℕ

abbrev pub pxd_timer_secs_min : ℕ
pxd_timer_secs_min = 30

abbrev pub pxd_timer_secs_default : ℕ
pxd_timer_secs_default = 600

abbrev pub pxd_timer_secs_max : ℕ
pxd_timer_secs_max = 2 ^ 32 - 1

-- The characters of "px-storage", "px", "t" and "pxd".
abbrev pub proc_px_storage : List ℕ
proc_px_storage = 112 ∷ 120 ∷ 45 ∷ 115 ∷ 116 ∷ 111 ∷ 114 ∷ 97 ∷ 103 ∷ 101 ∷ []

abbrev pub proc_px_control : List ℕ
proc_px_control = 112 ∷ 120 ∷ []

abbrev pub proc_px_ut : List ℕ
proc_px_ut = 116 ∷ []

abbrev pub proc_px_tool : List ℕ
proc_px_tool = 112 ∷ 120 ∷ 100 ∷ []

-- strcmp (a, b) == 0.
abbrev pub same_string : List ℕ → List ℕ → Bool
same_string [] bs = is_empty bs
same_string (a ∷ xs) [] = false
same_string (a ∷ xs) (b ∷ bs) = a == b && same_string xs bs

abbrev pub is_px : List ℕ → Bool
is_px comm =
    same_string comm proc_px_storage
    || same_string comm proc_px_control
    || same_string comm proc_px_ut
    || same_string comm proc_px_tool

-- schedule_delayed_work: work that is scheduled already stays as it is. The delay is computed in an
-- unsigned of 32 bits.
unfoldable pub schedule_abort : Module → Control → Control
schedule_abort m c = elim c.abort_work [
  | none ↦ record c { abort_work = some ((c.timeout_secs * m.hz) % 2 ^ 32) }
  | some delay ↦ c
]

-- cancel_delayed_work_sync.
abbrev pub cancel_abort : Control → Control
cancel_abort c = record c { abort_work = none }

abbrev pub set_connected : Control → Bool → Control
set_connected c on = record c { fc = record (c.fc) { connected = on } }

-- The device at `p` with the connection, and back.
abbrev pub device_of : Control → ℕ → DevConn
device_of c p = record {
  fc = c.fc;
  dev = c.ctx.devs p;
  ended_rqs = c.ended_rqs;
  queued_work = c.queued_work;
}

abbrev pub put_device : Control → ℕ → DevConn → Control
put_device c p w = record c {
  fc = w.fc;
  ctx = set_dev c.ctx p w.dev;
  ended_rqs = w.ended_rqs;
  queued_work = w.queued_work;
}

-- The opcode of the request that says that a device changes its path.
abbrev pub is_marker : ℕ → Bool
is_marker opcode = opcode == pxd_failover_to_userspace || opcode == pxd_fallback_to_kernel

-- The device with the minor.
unfoldable pub find_minor : ℕ → (ℕ → Device) → List ℕ → Option ℕ
find_minor minor devs [] = none
find_minor minor devs (p ∷ ps) =
    let rest = find_minor minor devs ps in if (devs p).minor == minor then some p else rest

-- list_for_each over the devices.
unfoldable pub for_each : (ℕ → Control → Option Control) → List ℕ → Control → Option Control
for_each f [] c = some c
for_each f (p ∷ ps) c = f p c >>= for_each f ps

-- What a variable that starts with 0 holds after a sscanf.
abbrev pub or_zero : Option ℕ → ℕ
or_zero none = 0
or_zero (some n) = n

-- `new_timeout_secs` is what sscanf reads as an unsigned, if it reads a number.
unfoldable pub set_timeout : Module → ℕ → Option ℕ → Control → ℤ × Control
set_timeout m count read c =
    let new_timeout_secs = or_zero read in
    if ltb new_timeout_secs pxd_timer_secs_min || ltb pxd_timer_secs_max new_timeout_secs
    then (einval, c)
    else (let c = if not c.fc.connected then cancel_abort c else c in
        let c = record c { timeout_secs = new_timeout_secs } in
        (pos count, if not c.fc.connected then schedule_abort m c else c))

-- The device has a context, or none.
unfoldable pub pxd_timeout_store : Module → ℕ → Option ℕ → Option Control → ℤ × Option Control
pxd_timeout_store m count read none = (enxio, none)
pxd_timeout_store m count read (some c) = let (err, c) = set_timeout m count read c in (err, some c)

unfoldable pub pxd_control_release : Module → Control → Control
pxd_control_release m c =
    if leb m.pxd_num_contexts_exported c.id then c else schedule_abort m (set_connected c false)

-- Only a context that is exported has a connection.
unfoldable pub pxd_context_destroy : ℕ → Module → Control → Option Control
pxd_context_destroy cpu m c =
    let c = cancel_abort c in
    if ltb c.id m.pxd_num_contexts_exported
    then (fuse_abort_conn cpu c.fc >>= λ fc. some (record c { fc = fuse_conn_put fc }))
    else some c

module _ (cpu : ℕ) (callback : ℕ → ℤ → DevConn → Option DevConn) where
  unfoldable pub reset_at : ℕ → Control → Option Control
  reset_at p c =
      pxd_fastpath_reset_device cpu callback (device_of c p) >>= λ w. some (put_device c p w)

  -- _pxd_setup.
  unfoldable pub pxd_setup : Bool → ℕ → Control → Option Control
  pxd_setup enable p c =
      let w = record (device_of c p) { dev = record (c.ctx.devs p) { connected = enable } } in
      if enable
      then some (put_device c p w)
      else (pxd_fastpath_reset_device cpu callback w >>= λ w. some (put_device c p w))

  unfoldable pub pxdctx_set_connected : Bool → Control → Option Control
  pxdctx_set_connected enable c = for_each (pxd_setup enable) c.ctx.list c

  -- `comm` is the name of the process, and `f_op` the address of the operations of the file, which
  -- are a part of this context. `meanwhile` is what other threads do before the lock is taken.
  unfoldable pub pxd_control_open :
      Module → List ℕ → ℕ → (Control → Control) → Control → Option (ℤ × Control)
  pxd_control_open m comm f_op meanwhile c =
      if not (is_px comm)
      then some (eacces, c)
      else if not (
          leb m.pxd_contexts f_op
          && ltb f_op (m.pxd_contexts + m.pxd_num_contexts * m.context_size))
      then some (einval, c)
      else if leb m.pxd_num_contexts_exported c.id
      then some (pos 0, c)
      else if c.fc.connected
      then some (einval, c)
      else (let c = meanwhile (record (cancel_abort c) { fc = fuse_restart_requests c.fc }) in
          pxdctx_set_connected true (record c {
            timeout_secs = pxd_timer_secs_default;
            fc = record (c.fc) { connected = true; allow_disconnected = true };
          })
          >>= λ c. some (pos 0, record c { open_seq = (c.open_seq + 1) % 2 ^ 64 }))

  -- The callback of a marker works on the device that it names.
  unfoldable pub end_marker : ℕ → FuseReq → Control → Option Control
  end_marker r req c = elim (find_minor req.rdwr_in.dev_minor c.ctx.devs c.ctx.list) [
    | none ↦ some c
    | some p ↦ callback r econnaborted (device_of c p) >>= λ w. some (put_device c p w)
  ]

  -- The callbacks of the markers among the requests, which were as `reqs` says.
  unfoldable pub end_markers : (ℕ → FuseReq) → List ℕ → Control → Option Control
  end_markers reqs [] c = some c
  end_markers reqs (r ∷ rs) c =
      (if is_marker (reqs r).opcode then end_marker r (reqs r) c else some c)
      >>= end_markers reqs rs

  -- The work itself, when its time has come; `none` is a BUG_ON. What the callbacks of markers do
  -- to their devices stands after the loops that end the requests.
  unfoldable pub pxd_abort_context : Control → Option Control
  pxd_abort_context c = bug_on c.fc.connected (
      fuse_end_queued_requests cpu (record (c.fc) { allow_disconnected = false }) >>= λ fc.
      end_markers c.fc.reqs (c.fc.pending ++ c.fc.processing) (record c { fc = fc }) >>= λ c.
      pxdctx_set_connected false c)

  unfoldable pub pxd_nodewipe_cleanup : Control → Option (ℤ × Control)
  pxd_nodewipe_cleanup c =
      if c.fc.connected
      then some (einval, c)
      else if c.ctx.num_devices == 0
      then some (pos 0, c)
      else (for_each reset_at c.ctx.list c >>= λ c. some (pos 0, c))

  -- The contexts, up to the first that has a process.
  unfoldable pub wipe_all : List Control → Option (List Control)
  wipe_all [] = some []
  wipe_all (c ∷ cs) =
      let rest = wipe_all cs in
      if c.fc.connected
      then some (c ∷ cs)
      else (pxd_nodewipe_cleanup c >>= λ (err, c). rest >>= λ cs. some (c ∷ cs))
