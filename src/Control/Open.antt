-- ===== src/Control/Open.antt =====
-- pxd_control_open, pxd_control_release and pxd_timeout_store (pxd.c).
use pxmod.Common.{
  ℕ, ap, sym, subst, ◌∙◌, ◌+◌, ◌*◌, ◌%◌, ◌^◌, ◌≤◌, ◌<◌, ◌≡◌, ◌⊎◌, inl, inr, refl, arith, true,
  false, ◌||◌, ◌&&◌, none, some, List, [], ◌++◌, occurs, ◌>>=◌, Option, leb, ltb, Bool-cases,
}
use native.Mathlib.Decide.{dec_lt}
use pxmod.Common.Int.{ℤ, pos, einval}
use pxmod.Conn.State.{FuseConn}
use pxmod.Conn.Requests.Invariant.{ConnInv, IdsInv-cong}
use pxmod.Conn.Lifecycle.{fuse_restart_requests}
use pxmod.Conn.Lifecycle.Laws.{restart-Inv}
use pxmod.Device.Queue.{DevConn}
use pxmod.Control.{
  Control, Module, is_px, cancel_abort, schedule_abort, pxd_control_open, set_timeout,
  pxdctx_set_connected, pxd_timer_secs_default, pxd_timer_secs_min, pxd_timer_secs_max,
  pxd_abort_context,
}
use pxmod.Control.Laws.{all_connected}

-- The file is one of a context that is exported, and the process may open it.
pub record Allowed (m : Module) (comm : List ℕ) (f_op : ℕ) (c : Control) : Type 0 where
  pub px : is_px comm ≡ true
  pub ours :
      (leb m.pxd_contexts f_op && ltb f_op (m.pxd_contexts + m.pxd_num_contexts * m.context_size))
      ≡ true
  pub exported : leb m.pxd_num_contexts_exported c.id ≡ false

-- The connection that a process serves again.
abbrev pub reopened : FuseConn → FuseConn
reopened fc = record (fuse_restart_requests fc) { connected = true; allow_disconnected = true }

-- What an open leaves.
pub record Opened (n : ℕ) (c c' : Control) : Type 0 where
  pub inv : ConnInv n c'.fc
  pub fc : c'.fc ≡ reopened c.fc
  pub connected : c'.fc.connected ≡ true
  pub allow_disconnected : c'.fc.allow_disconnected ≡ true
  pub pending : c'.fc.pending ≡ c.fc.processing ++ c.fc.pending
  pub processing : c'.fc.processing ≡ []
  pub devices : (p : ℕ) → 0 < occurs p c.ctx.list → (c'.ctx.devs p).connected ≡ true
  pub list : c'.ctx.list ≡ c.ctx.list
  pub cancelled : c'.abort_work ≡ none
  pub timeout_secs : c'.timeout_secs ≡ pxd_timer_secs_default
  pub open_seq : c'.open_seq ≡ (c.open_seq + 1) % 2 ^ 64

pub reopened-Inv : (n : ℕ) (fc : FuseConn) → ConnInv n fc → ConnInv n (reopened fc)
reopened-Inv n fc inv =
    let (kept, p, q) = restart-Inv n fc inv in
    record {
      ids = IdsInv-cong n (fuse_restart_requests fc) (reopened fc) refl refl refl refl kept.ids;
      own_slot = kept.own_slot;
      listed = kept.listed;
    }

-- The context before its devices are connected.
abbrev restarted : Control → Control
restarted c = record (cancel_abort c) { fc = fuse_restart_requests c.fc }

abbrev ready : Control → Control
ready c = record c {
  timeout_secs = pxd_timer_secs_default;
  fc = record (c.fc) { connected = true; allow_disconnected = true };
}

-- The last act of an open.
abbrev finished : Control → Option (ℤ × Control)
finished c = some (pos 0, record c { open_seq = (c.open_seq + 1) % 2 ^ 64 })

-- The work scheduled anew.
abbrev pub rescheduled : Module → ℕ → Control → Control
rescheduled m secs c = record c { timeout_secs = secs; abort_work = some ((secs * m.hz) % 2 ^ 32) }

set_timeout-runs :
    (m : Module) (count secs : ℕ) (c : Control)
    → pxd_timer_secs_min ≤ secs
    → secs < 2 ^ 32
    → c.fc.connected ≡ false
    → set_timeout m count (some secs) c ≡ (pos count, rescheduled m secs c)
unfolding set_timeout schedule_abort
set_timeout-runs m count secs c low high off =
    let good : (ltb secs pxd_timer_secs_min || ltb pxd_timer_secs_max secs) ≡ false =
      ground arith in
    simp (good, off)

-- A timeout out of its bounds is refused, and changes nothing. A good one on a context that a
-- process has open is only stored. On any other the work is scheduled anew, and waits that many
-- seconds, counted in jiffies modulo 2 ^ 32.
pub set_timeout_lem :
    (m : Module) (count secs : ℕ) (c : Control)
    → (((secs < pxd_timer_secs_min) ⊎ (2 ^ 32 ≤ secs))
        × (set_timeout m count (some secs) c ≡ (einval, c)))
      ⊎ ((c.fc.connected ≡ true)
          × (set_timeout m count (some secs) c ≡ (pos count, record c { timeout_secs = secs })))
      ⊎ ((c.fc.connected ≡ false)
          × (set_timeout m count (some secs) c ≡ (pos count, rescheduled m secs c)))
unfolding set_timeout
set_timeout_lem m count secs c = elim (dec_lt secs pxd_timer_secs_min) [
  | yes low ↦ inl (inl low, ground arith)
  | no enough ↦ elim (dec_lt secs (2 ^ 32)) [
    | no high ↦ inl (inr (omega arith), ground arith)
    | yes fits ↦ elim (Bool-cases c.fc.connected) [
      | inl on ↦
          let good : (ltb secs pxd_timer_secs_min || ltb pxd_timer_secs_max secs) ≡ false =
            ground arith in
          inr (inl (on, simp (good, on)))
      | inr off ↦ inr (inr (off, set_timeout-runs m count secs c (omega arith) fits off))
    ]
  ]
]

-- A timeout within the bounds whose jiffies pass 2 ^ 32 by less than a second is taken, on a context
-- that no process has open, and makes the work wait less than a second.
pub set_timeout-wraps :
    (m : Module) (count secs : ℕ) (c : Control)
    → pxd_timer_secs_min ≤ secs
    → secs < 2 ^ 32
    → 2 ^ 32 ≤ secs * m.hz
    → secs * m.hz < 2 ^ 32 + m.hz
    → m.hz < 2 ^ 32
    → c.fc.connected ≡ false
    → (delay : ℕ) × (c' : Control) × (set_timeout m count (some secs) c ≡ (pos count, c'))
      × (c'.abort_work ≡ some delay)
      × (delay < m.hz)
set_timeout-wraps m count secs c low high over first hz off = (
  (secs * m.hz) % 2 ^ 32,
  rescheduled m secs c,
  set_timeout-runs m count secs c low high off,
  refl,
  omega arith,
)

module _ (cpu : ℕ) (callback : ℕ → ℤ → DevConn → Option DevConn) (m : Module) where
  open-runs :
      (comm : List ℕ) (f_op : ℕ) (meanwhile : Control → Control) (c : Control)
      → Allowed m comm f_op c
      → c.fc.connected ≡ false
      → pxd_control_open cpu callback m comm f_op meanwhile c ≡ (
          pxdctx_set_connected cpu callback true (ready (meanwhile (restarted c))) >>= λ c.
          some (pos 0, record c { open_seq = (c.open_seq + 1) % 2 ^ 64 }))
  unfolding pxd_control_open
  open-runs comm f_op meanwhile c ok off = simp (ok.px, ok.ours, ok.exported, off)

  -- An open of an exported context by a process with one of the four names, while no other has it
  -- open and no other thread interferes, returns 0: the requests that were being processed are
  -- pending again, before those that were pending, the connection and every device are connected,
  -- and the work that would abort them is not scheduled any more.
  pub control_open-Opened :
      (n : ℕ) (comm : List ℕ) (f_op : ℕ) (c : Control)
      → Allowed m comm f_op c
      → c.fc.connected ≡ false
      → ConnInv n c.fc
      → ((p : ℕ) → occurs p c.ctx.list ≤ 1)
      → (c' : Control) × (pxd_control_open cpu callback m comm f_op (λ c. c) c ≡ some (pos 0, c'))
        × Opened n c c'
  control_open-Opened n comm f_op c ok off inv once =
      let (c₁, e, set) = all_connected cpu callback (ready (restarted c)) once in
      let c' = record c₁ { open_seq = (c₁.open_seq + 1) % 2 ^ 64 } in
      let fc : c₁.fc ≡ reopened c.fc = ap (λ x. x.fc) set.frame in
      let (kept, p, q) = restart-Inv n c.fc inv in
      (
        c',
        open-runs comm f_op (λ c. c) c ok off
            ∙ ap (λ o. o >>= λ c. some (pos 0, record c { open_seq = (c.open_seq + 1) % 2 ^ 64 }))
                e,
        record {
          inv = subst (ConnInv n) (sym fc) (reopened-Inv n c.fc inv);
          fc = fc;
          connected = ap (λ x. x.connected) fc;
          allow_disconnected = ap (λ x. x.allow_disconnected) fc;
          pending = ap (λ x. x.pending) fc ∙ p;
          processing = ap (λ x. x.processing) fc ∙ q;
          devices = set.done;
          list = ap (λ x. x.ctx.list) set.frame;
          cancelled = ap (λ x. x.abort_work) set.frame;
          timeout_secs = ap (λ x. x.timeout_secs) set.frame;
          open_seq = ap (λ x. (x.open_seq + 1) % 2 ^ 64) set.frame;
        },
      )

  -- If another thread stores a good timeout between the two halves of an open, the open succeeds
  -- and leaves the work scheduled, on a context that is connected; when its time comes the work
  -- meets its BUG_ON.
  pub control_open-races :
      (n : ℕ) (comm : List ℕ) (f_op count secs : ℕ) (c : Control)
      → Allowed m comm f_op c
      → c.fc.connected ≡ false
      → ((p : ℕ) → occurs p c.ctx.list ≤ 1)
      → pxd_timer_secs_min ≤ secs
      → secs < 2 ^ 32
      → (c' : Control) × (pxd_control_open cpu callback m comm f_op
            (λ c. (set_timeout m count (some secs) c).1)
            c
          ≡ some (pos 0, c'))
        × (c'.abort_work ≡ some ((secs * m.hz) % 2 ^ 32))
        × (pxd_abort_context cpu callback c' ≡ none)
  unfolding fuse_restart_requests pxd_abort_context
  control_open-races n comm f_op count secs c ok off once low high =
      let between = λ (c : Control). (set_timeout m count (some secs) c).1 in
      let late = set_timeout-runs m count secs (restarted c) low high off in
      let c₀ = ready (rescheduled m secs (restarted c)) in
      let (c₁, e, set) = all_connected cpu callback c₀ once in
      let on : c₁.fc.connected ≡ true = ap (λ x. x.fc.connected) set.frame in
      (
        record c₁ { open_seq = (c₁.open_seq + 1) % 2 ^ 64 },
        open-runs comm f_op between c ok off
            ∙ ap (λ r. pxdctx_set_connected cpu callback true (ready r.1) >>= finished) late
            ∙ ap (λ o. o >>= finished) e,
        ap (λ x. x.abort_work) set.frame,
        simp on,
      )
