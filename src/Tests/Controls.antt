-- ===== src/Tests/Controls.antt =====
-- The control device of a context, on concrete contexts and runs.
use native.Mathlib.Decide.{ℕ_discrete as dec_eq}
use pxmod.Common.{
  ℕ, ◌+◌, ◌*◌, ◌%◌, ◌^◌, ◌≤◌, ◌<◌, ◌≡◌, ◌⊎◌, ◌≢◌, ◌==◌, inl, inr, ap, sym, subst, ◌∙◌, Option-cases,
  refl, arith, true, false, ◌||◌, none, some, [], ◌∷◌, occurs, occurs-nil, occurs-cons,
}
use pxmod.Common.Int.{pos, enomem, enoent, einval}
use pxmod.Conn.State.{FuseConn, FuseReq, slot}
use pxmod.Conn.Opcode.{pxd_write}
use pxmod.Conn.Requests.Invariant.{mapped}
use pxmod.Conn.Requests.{fuse_request_send_nowait, request_find}
use pxmod.Conn.Requests.Laws.{send_queues}
use pxmod.Conn.Account.{told, owed, Whole}
use pxmod.Conn.Lifecycle.{new_conn}
use pxmod.Conn.Lifecycle.Laws.{new_conn-Inv}
use pxmod.Conn.Iter.{buffer_iter}
use pxmod.Conn.Source.{bytes_source}
use pxmod.Conn.Notify.{DeviceOps}
use pxmod.Device.State.{Device, Context}
use pxmod.Control.{
  Control, Module, is_marker, cancel_abort, pxd_control_open, pxd_control_release, schedule_abort,
  set_timeout, pxd_abort_context,
}
use pxmod.Control.Abort.{NoMarker, InOrder, Closed, abort_context-Closed}
use pxmod.Control.Open.{
  Allowed, Opened, control_open-Opened, control_open-races, set_timeout_lem, set_timeout-wraps,
  rescheduled,
}
use pxmod.Control.System.{Env, Once, with_fc, sent, released, Reach, start, next}
use pxmod.Control.System.Runs.{Sound, Watched}
use pxmod.Control.System.Laws.{run-accounted, run-Watched, abort-tells}
use pxmod.Tests.{write_req, opened, opened-Inv, opened-Room, opened-Fresh}
use pxmod.Tests.Replies.{no_dest}
use pxmod.Tests.Paths.{fast_device, fast_device-On, fast_device-Suspended}
use pxmod.Tests.Devices.{idle_device, one_device}

-- One exported context of one, at the address 4096, and 250 jiffies in a second.
abbrev pub one_context : Module
one_context = record {
  pxd_contexts = 4096;
  context_size = 1024;
  pxd_num_contexts = 1;
  pxd_num_contexts_exported = 1;
  hz = 250;
}

-- A context with the device `d`, at 3.
abbrev context_of : FuseConn → Device → Control
context_of fc d = record {
  id = 0;
  open_seq = 0;
  fc = fc;
  ctx = one_device d;
  ended_rqs = [];
  queued_work = [];
  abort_work = none;
  timeout_secs = 600;
}

abbrev pub idle_conn : FuseConn
idle_conn = new_conn (λ r. write_req)

abbrev idle_context : Control
idle_context = context_of idle_conn idle_device

one_device-Once : (fc : FuseConn) → Once (context_of fc idle_device)
one_device-Once fc p = ground (arith, occurs-nil p, occurs-cons p 3 [])

-- "px".
px_opens : Allowed one_context (112 ∷ 120 ∷ []) 4096 idle_context
px_opens = record { px = refl; ours = refl; exported = refl }

idle_context_closed : idle_context.fc.connected ≡ false
unfolding new_conn
idle_context_closed = refl

control_open-Opened_example :
    (c' : Control) × (pxd_control_open 0
        (λ r e w. some w)
        one_context
        (112 ∷ 120 ∷ [])
        4096
        (λ c. c)
        idle_context
      ≡ some (pos 0, c'))
    × Opened 1 idle_context c'
control_open-Opened_example =
    control_open-Opened 0 (λ r e w. some w) one_context 1 (112 ∷ 120 ∷ []) 4096 idle_context
      px_opens idle_context_closed (new_conn-Inv 1 (λ r. write_req)) (one_device-Once idle_conn)

control_open-races_example :
    (c' : Control) × (pxd_control_open 0
        (λ r e w. some w)
        one_context
        (112 ∷ 120 ∷ [])
        4096
        (λ c. (set_timeout one_context 2 (some 60) c).1)
        idle_context
      ≡ some (pos 0, c'))
    × (c'.abort_work ≡ some ((60 * 250) % 2 ^ 32))
    × (pxd_abort_context 0 (λ r e w. some w) c' ≡ none)
control_open-races_example =
    control_open-races 0 (λ r e w. some w) one_context 1 (112 ∷ 120 ∷ []) 4096 2 60 idle_context
      px_opens idle_context_closed (one_device-Once idle_conn) (omega arith) (omega arith)

set_timeout_lem_example :
    (((60 < 30) ⊎ (2 ^ 32 ≤ 60))
      × (set_timeout one_context 2 (some 60) idle_context ≡ (einval, idle_context)))
    ⊎ ((idle_context.fc.connected ≡ true)
        × (set_timeout one_context 2 (some 60) idle_context
            ≡ (pos 2, record idle_context { timeout_secs = 60 })))
    ⊎ ((idle_context.fc.connected ≡ false)
        × (set_timeout one_context 2 (some 60) idle_context
            ≡ (pos 2, rescheduled one_context 60 idle_context)))
set_timeout_lem_example = set_timeout_lem one_context 2 60 idle_context

set_timeout-wraps_example :
    (delay : ℕ) × (c' : Control) × (set_timeout one_context 8 (some 17179870) idle_context
      ≡ (pos 8, c'))
    × (c'.abort_work ≡ some delay)
    × (delay < 250)
set_timeout-wraps_example =
    set_timeout-wraps one_context 8 17179870 idle_context (omega arith) (omega arith) (omega arith)
      (omega arith) (omega arith) idle_context_closed

-- The same with a device on its fast path.
abbrev fast_context : Control
fast_context = context_of idle_conn fast_device

fast_context_closed : fast_context.fc.connected ≡ false
unfolding new_conn
fast_context_closed = refl

fast_context-InOrder :
    (p : ℕ) → 0 < occurs p fast_context.ctx.list → InOrder fast_context.fc (fast_context.ctx.devs p)
unfolding request_find new_conn
fast_context-InOrder p h = record {
  path = inl fast_device-On;
  times_suspended = 0;
  suspended = fast_device-Suspended;
  mine = omega arith;
  marker = inl refl;
}

fast_context-NoMarker : NoMarker fast_context.fc
unfolding new_conn
fast_context-NoMarker r h = absurd (omega (arith, h, occurs-nil r))

abort_context-Closed_example :
    (c' : Control) × (pxd_abort_context 0 (λ r e w. some w) fast_context ≡ some c')
    × Closed 1 fast_context c'
abort_context-Closed_example =
    abort_context-Closed 1 0 (λ r e w. some w) fast_context (omega arith)
      (new_conn-Inv 1 (λ r. write_req)) fast_context_closed fast_context-NoMarker
      (one_device-Once idle_conn) fast_context-InOrder

abbrev no_ops : DeviceOps Context
no_ops = record {
  find_pxd_device = λ dev_id ctx. none;
  pxd_add = λ add ctx. (enomem, ctx);
  pxd_remove = λ remove ctx. (enoent, ctx);
  pxd_update_size = λ u ctx. (enoent, ctx);
  pxd_export = λ dev_id ctx. (enoent, ctx);
  pxd_request_suspend = λ d skip_flush keep_on ctx. (einval, ctx);
  pxd_request_resume = λ d ctx. (einval, ctx);
  pxd_request_ioswitch = λ d code ctx. (einval, ctx);
  pxd_supported_features = pos 0;
}

-- One CPU, and a process that writes bytes.
abbrev pub small_env : Env
small_env = record {
  cpus = 1;
  settings = one_context;
  callback = λ r e w. some w;
  io = buffer_iter;
  source = bytes_source;
  dest = no_dest;
  ops = no_ops;
}

-- A process has the context open; a request is sent, and the process closes its file.
abbrev pub open_context : Control
open_context = context_of opened fast_device

pub sent_once : (fc : FuseConn) × (fuse_request_send_nowait 0 opened 7 ≡ some fc)
unfolding new_conn
sent_once =
    let s = send_queues 1 0 7 opened (omega arith) opened-Inv opened-Fresh refl opened-Room in
    (s.0, s.1)

abbrev pub busy_context : Control
busy_context = with_fc open_context sent_once.0

pub open_context-Sound : Sound 1 open_context
unfolding new_conn
open_context-Sound = record {
  inv = opened-Inv;
  whole = λ r. omega (arith, occurs-nil r);
  timer = inl refl;
}

open_context_quiet : (q : ℕ) → told q open_context.fc.trace + owed open_context.fc q ≡ 0
unfolding new_conn told
open_context_quiet q = refl

pub busy_run : Reach small_env open_context (7 ∷ []) busy_context
unfolding new_conn
busy_run = next start (sent 0 7 (omega arith) opened-Fresh refl sent_once.1)

closed_run : Reach small_env open_context (7 ∷ []) (pxd_control_release one_context busy_context)
closed_run = next busy_run released

run-accounted_example :
    Sound 1 busy_context
    × ((q : ℕ)
        → told q busy_context.fc.trace + owed busy_context.fc q
          ≡ told q open_context.fc.trace + owed open_context.fc q + occurs q (7 ∷ []))
run-accounted_example = run-accounted small_env busy_run open_context-Sound

open_context_on : open_context.fc.connected ≡ true
unfolding new_conn
open_context_on = refl

run-Watched_example : Watched (pxd_control_release one_context busy_context)
run-Watched_example = run-Watched small_env closed_run open_context-Sound open_context_on

closed_scheduled :
    (pxd_control_release one_context busy_context).abort_work ≡ some ((600 * 250) % 2 ^ 32)
unfolding pxd_control_release schedule_abort
closed_scheduled = refl

-- No id leads to a request but that of 7.
only_seven :
    (fc : FuseConn) (u : ℕ)
    → Whole fc
    → fc.pending ≡ 7 ∷ []
    → fc.processing ≡ []
    → (fc.reqs 7).unique ≢ u
    → request_find fc u ≡ none
unfolding request_find
only_seven fc u whole p q other = elim (Option-cases (fc.request_map (slot u))) [
  | inl e ↦ rw (request_find, e) refl
  | inr (r, e) ↦ elim (dec_eq (fc.reqs r).unique u) [
    | no k ↦
        let differs : ((fc.reqs r).unique == u) ≡ false = ground arith in
        rw (request_find, e, differs) refl
    | yes same ↦
        let there : mapped fc r ≡ 1 = rw (mapped, same, e) (ground arith) in
        let on_list : occurs r (7 ∷ []) + occurs r [] ≡ 1 =
          ap (λ l. occurs r l + occurs r []) (sym p)
          ∙ ap (λ l. occurs r fc.pending + occurs r l) (sym q)
          ∙ whole r
          ∙ there in
        let seven : r ≡ 7 = ground (arith, on_list, occurs-cons r 7 [], occurs-nil r) in
        absurd (other (ap (λ k. (fc.reqs k).unique) (sym seven) ∙ same))
  ]
]

sent_facts :
    (sent_once.0.pending ≡ 7 ∷ [])
    × (sent_once.0.processing ≡ [])
    × ((sent_once.0.reqs 7).unique ≢ 0)
    × ((sent_once.0.reqs 7).opcode ≡ pxd_write)
unfolding new_conn sent_once
sent_facts =
    let s = send_queues 1 0 7 opened (omega arith) opened-Inv opened-Fresh refl opened-Room in
    (s.3, s.4, s.6, ap (λ (q : FuseReq). q.opcode) s.7)

closed_InOrder :
    (p : ℕ)
    → 0 < occurs p (pxd_control_release one_context busy_context).ctx.list
    → InOrder
        (pxd_control_release one_context busy_context).fc
        ((pxd_control_release one_context busy_context).ctx.devs p)
unfolding pxd_control_release schedule_abort
closed_InOrder p h = record {
  path = inl fast_device-On;
  times_suspended = 0;
  suspended = fast_device-Suspended;
  mine = omega arith;
  marker = inl (
      only_seven (pxd_control_release one_context busy_context).fc 0
        (run-accounted small_env closed_run open_context-Sound).0.whole sent_facts.0 sent_facts.1
        sent_facts.2);
}

closed_NoMarker : NoMarker (pxd_control_release one_context busy_context).fc
unfolding pxd_control_release schedule_abort
closed_NoMarker r h =
    let fc = sent_once.0 in
    let on_list : 0 < occurs r (7 ∷ []) + occurs r [] =
      subst (λ l. 0 < occurs r l + occurs r []) sent_facts.0
        (subst (λ l. 0 < occurs r fc.pending + occurs r l) sent_facts.1 h) in
    let seven : 7 ≡ r = ground (arith, on_list, occurs-cons r 7 [], occurs-nil r) in
    subst (λ k. is_marker (fc.reqs k).opcode ≡ false) seven (ap is_marker sent_facts.3)

closed_Once : Once (pxd_control_release one_context busy_context)
unfolding pxd_control_release schedule_abort
closed_Once p = ground (arith, occurs-nil p, occurs-cons p 3 [])

abort-tells_example :
    (c'' : Control) × (pxd_abort_context 0
        (λ r e w. some w)
        (cancel_abort (pxd_control_release one_context busy_context))
      ≡ some c'')
    × ((q : ℕ) → told q c''.fc.trace ≡ occurs q (7 ∷ []))
    × ((c''.fc.connected || c''.fc.allow_disconnected) ≡ false)
abort-tells_example =
    abort-tells small_env 0 150000 closed_run open_context-Sound open_context_quiet (omega arith)
      closed_scheduled closed_NoMarker closed_Once closed_InOrder
