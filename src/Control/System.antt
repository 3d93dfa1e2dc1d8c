-- ===== src/Control/System.antt =====
-- Runs of a context: a process that opens and closes its control device, reads and replies, the
-- driver that sends requests, and the work that aborts them (pxd.c, dev.c).
pub mod Runs
pub mod Laws
use pxmod.Common.{
  ℕ, ap, sym, subst, ◌∙◌, ◌+◌, ◌≤◌, ◌<◌, ◌≡◌, ◌≢◌, ◌⊎◌, refl, arith, Bool, true, false, ◌||◌, none,
  some, Option, List, [], ◌∷◌, ◌++◌, occurs,
}
use pxmod.Common.Int.{ℤ, pos}
use pxmod.Conn.State.{FuseConn, FuseReq}
use pxmod.Conn.Requests.{set_req, fuse_request_send_nowait}
use pxmod.Conn.Requests.Invariant.{ConnInv, Mapped, Fresh}
use pxmod.Conn.Account.{has_end}
use pxmod.Conn.Iter.{IovIter}
use pxmod.Conn.Read.{fuse_dev_do_read}
use pxmod.Conn.Source.{UserSource}
use pxmod.Conn.Source.Layout.{OutHeader}
use pxmod.Conn.Notify.{DeviceOps}
use pxmod.Conn.Notify.ReadData.{UserDest}
use pxmod.Conn.Write.{World, fuse_dev_do_write, bad_error, copy_pages}
use pxmod.Conn.Write.Reply.{GoodHeader, carries_data}
use pxmod.Device.State.{Context}
use pxmod.Device.Queue.{DevConn}
use pxmod.Control.{
  Control, Module, cancel_abort, pxd_control_open, pxd_control_release, set_timeout,
  pxd_abort_context,
}
use pxmod.Control.Abort.{NoMarker, InOrder}
use pxmod.Control.Open.{Allowed}

-- The environment of a run: the CPUs, the module, the callback of a marker, and the memory of the
-- process.
pub record Env : Type 1 where
  pub cpus : ℕ
  pub settings : Module
  pub callback : ℕ → ℤ → DevConn → Option DevConn
  pub io : IovIter
  pub source : UserSource
  pub dest : UserDest
  pub ops : DeviceOps Context

abbrev pub with_fc : Control → FuseConn → Control
with_fc c fc = record c { fc = fc }

-- No device is listed twice.
abbrev pub Once : Control → Type 0
Once c = (p : ℕ) → occurs p c.ctx.list ≤ 1

module _ (env : Env) where
  -- One step: the requests that it sends, and the states before it and after it.
  pub data Step (c : Control) : List ℕ → Control → Type 1 where
    opened :
        (cpu : ℕ) (comm : List ℕ) (f_op : ℕ) {c' : Control}
        → Allowed env.settings comm f_op c
        → c.fc.connected ≡ false
        → Once c
        → pxd_control_open cpu env.callback env.settings comm f_op (λ c. c) c ≡ some (pos 0, c')
        → Step c [] c'
    released : Step c [] (pxd_control_release env.settings c)
    timeout_set : (count secs : ℕ) → Step c [] (set_timeout env.settings count (some secs) c).1
    fired :
        (cpu delay : ℕ) {c' : Control}
        → cpu < env.cpus
        → c.abort_work ≡ some delay
        → NoMarker c.fc
        → Once c
        → ((p : ℕ) → 0 < occurs p c.ctx.list → InOrder c.fc (c.ctx.devs p))
        → pxd_abort_context cpu env.callback (cancel_abort c) ≡ some c'
        → Step c [] c'
    prepared : (r : ℕ) (req : FuseReq) → Fresh c.fc r → Step c [] (with_fc c (set_req c.fc r req))
    sent :
        (cpu r : ℕ) {fc : FuseConn}
        → cpu < env.cpus
        → Fresh c.fc r
        → has_end (c.fc.reqs r) ≡ 1
        → fuse_request_send_nowait cpu c.fc r ≡ some fc
        → Step c (r ∷ []) (with_fc c fc)
    read :
        (cpu : ℕ) (detect nonblock : Bool) {result : ℤ} (it : env.io.Iter) {it' : env.io.Iter}
        {fc : FuseConn}
        → cpu < env.cpus
        → fuse_dev_do_read env.io detect cpu nonblock (λ fc. fc) [] it c.fc ≡ some (result, it', fc)
        → Step c [] (with_fc c fc)
    replied :
        (cpu r : ℕ) {result : ℤ} (it rest : env.source.Src) (oh : OutHeader)
        (w : World env.source env.dest env.ops) {w' : World env.source env.dest env.ops}
        (here : cpu < env.cpus)
        → w.fc ≡ c.fc
        → Mapped w.fc r
        → w.fc.connected ≡ true
        → GoodHeader env.source env.cpus cpu here env.dest env.ops it oh rest
        → oh.unique ≡ (w.fc.reqs r).unique
        → bad_error oh.error ≡ false
        → (carries_data env.source env.cpus cpu here (w.fc.reqs r) rest ≡ true
            → (copy_pages env.source (w.fc.reqs r).segments rest).0 ≡ true)
        → fuse_dev_do_write env.source env.dest env.ops cpu it w ≡ some (result, w')
        → Step c [] (with_fc c w'.fc)
    devices : (ctx : Context) → Step c [] (record c { ctx = ctx })

  -- A run from `s`, with the requests that were sent, latest first.
  pub data Reach (s : Control) : List ℕ → Control → Type 1 where
    start : Reach s [] s
    next :
        {sends more : List ℕ} {c c' : Control}
        → Reach s sends c
        → Step c more c'
        → Reach s (more ++ sends) c'
