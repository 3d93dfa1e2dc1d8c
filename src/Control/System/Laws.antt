-- ===== src/Control/System/Laws.antt =====
-- Runs of a context, step by step.
use pxmod.Common.{
  ℕ, ap, sym, subst, ◌∙◌, ◌+◌, ◌<◌, ◌≡◌, inl, inr, arith, true, false, ◌||◌, some, List, [], occurs,
  occurs-append, occurs-nil,
}
use mathlib.Core.Option.{some-injective}
use pxmod.Common.Int.{pos}
use pxmod.Conn.State.{FuseConn}
use pxmod.Conn.Requests.Invariant.{ConnInv}
use pxmod.Conn.Account.{told, owed, Whole, Goes}
use pxmod.Conn.Account.Send.{send-Sent}
use pxmod.Conn.Read.Laws.{read-Goes}
use pxmod.Conn.Write.Reply.{write-Replied}
use pxmod.Control.{Control, cancel_abort, pxd_abort_context}
use pxmod.Control.Abort.{NoMarker, InOrder, abort_context-Closed}
use pxmod.Control.Open.{control_open-Opened}
use pxmod.Control.System.{
  Env, with_fc, Once, Step, opened, released, timeout_set, fired, prepared, sent, read, replied,
  devices, Reach, start, next,
}
use pxmod.Control.System.Runs.{
  Sound, Watched, Advance, Goes-Advance, same-Advance, open-Advance, fire-Advance, send-Advance,
  prepare-Advance, release-Advance, timeout-Advance,
}

module _ (env : Env) where
  -- The work is scheduled, so no process has the context open.
  scheduled-closed :
      (c : Control) (delay : ℕ)
      → Sound env.cpus c
      → c.abort_work ≡ some delay
      → c.fc.connected ≡ false
  scheduled-closed c delay s e = elim s.timer [ inl idle ↦ cc | inr off ↦ off ]

  Step-Advance :
      {sends : List ℕ} {c c' : Control}
      → Step env c sends c'
      → Sound env.cpus c
      → Advance env.cpus sends c c'
  Step-Advance {c = c} {c' = c'} (opened cpu comm f_op ok off once e) s =
      let (c₁, e₁, d) =
        control_open-Opened cpu env.callback env.settings env.cpus comm f_op c ok off s.inv once in
      subst (Advance env.cpus [] c)
        (ap (λ r. r.1) (some-injective (pos 0, c₁) (pos 0, c') (sym e₁ ∙ e)))
        (open-Advance env.cpus c c₁ s d)
  Step-Advance {c = c} released s = release-Advance env.cpus env.settings c s
  Step-Advance {c = c} (timeout_set count secs) s =
      timeout-Advance env.cpus env.settings count secs c s
  Step-Advance {c = c} {c' = c'} (fired cpu delay here scheduled unmarked once ok e) s =
      let (c₁, e₁, d) =
        abort_context-Closed env.cpus cpu env.callback (cancel_abort c) here s.inv
          (scheduled-closed c delay s scheduled) unmarked once ok in
      subst (Advance env.cpus [] c) (some-injective c₁ c' (sym e₁ ∙ e))
        (fire-Advance env.cpus c c₁ s d)
  Step-Advance {c = c} (prepared r req fresh) s = prepare-Advance env.cpus r req c s fresh
  Step-Advance {c = c} (sent cpu r {fc} here fresh callback e) s =
      send-Advance env.cpus r c fc s callback (send-Sent env.cpus cpu here r c.fc fc s.inv fresh e)
  Step-Advance {c = c} (read cpu detect nonblock {result} it {it'} {fc} here e) s =
      let (result₁, it₁, fc₁, e₁, g) =
        read-Goes env.io env.cpus cpu here detect nonblock it c.fc s.inv in
      subst (λ x. Advance env.cpus [] c (with_fc c x))
        (ap (λ r. r.2) (some-injective (result₁, it₁, fc₁) (result, it', fc) (sym e₁ ∙ e)))
        (Goes-Advance env.cpus c fc₁ s g)
  Step-Advance {c = c} (replied cpu r {result} it rest oh w {w'} here same m on good id ok filled e)
        s =
      let (fc₁, e₁, d) =
        write-Replied env.source env.cpus cpu here env.dest env.ops r it rest oh w
          (subst (ConnInv env.cpus) (sym same) s.inv) m on good id ok filled in
      subst (λ x. Advance env.cpus [] c (with_fc c x))
        (ap (λ r. r.1.fc)
          (some-injective (pos (env.source.count it), record w { fc = fc₁ }) (result, w')
            (sym e₁ ∙ e)))
        (Goes-Advance env.cpus c fc₁ s (subst (λ x. Goes env.cpus x fc₁) same d.goes))
  Step-Advance {c = c} (devices ctx) s = record {
    sound = record { inv = s.inv; whole = s.whole; timer = s.timer };
    watched = λ w. w;
    accounted = λ q. ground (arith, occurs-nil q);
  }

  Reach-Advance :
      {c : Control} {sends : List ℕ} {c' : Control}
      → Reach env c sends c'
      → Sound env.cpus c
      → Advance env.cpus sends c c'
  Reach-Advance {c = c} start s = same-Advance env.cpus c s
  Reach-Advance {c = c} {c' = c'} (next {sends} {more} {c = c₁} run step) s =
      let a = Reach-Advance run s in
      let b = Step-Advance step a.sound in
      record {
        sound = b.sound;
        watched = λ w. b.watched (a.watched w);
        accounted = λ q. omega (arith, a.accounted q, b.accounted q, occurs-append q more sends);
      }

  -- In every run from a sound state: the work that aborts the requests is scheduled only while no
  -- process has the context open; each request in flight is on one list; and the callback of a
  -- request has been called, or is still to be called, once for each time that it was sent.
  pub run-accounted :
      {sends : List ℕ} {c c' : Control}
      → Reach env c sends c'
      → Sound env.cpus c
      → Sound env.cpus c'
        × ((q : ℕ)
            → told q c'.fc.trace + owed c'.fc q ≡ told q c.fc.trace + owed c.fc q + occurs q sends)
  run-accounted run s = let a = Reach-Advance run s in (a.sound, a.accounted)

  -- From the moment that a process has opened the context, in every state of a run it has it open,
  -- or the work that aborts the requests is scheduled, or requests are refused.
  pub run-Watched :
      {sends : List ℕ} {c c' : Control}
      → Reach env c sends c'
      → Sound env.cpus c
      → c.fc.connected ≡ true
      → Watched c'
  run-Watched run s on = (Reach-Advance run s).watched (inl on)

  -- Nothing is in flight on lists that are empty.
  none-owed : (c : FuseConn) (q : ℕ) → Whole c → c.pending ≡ [] → c.processing ≡ [] → owed c q ≡ 0
  none-owed c q w p r = ground (arith, w q, ap (occurs q) p, ap (occurs q) r, occurs-nil q)

  -- In a run from a sound state with nothing in flight and nothing told, when the time of the
  -- scheduled work has come, the work returns, if no marker of a change of path is in flight, and
  -- each device is listed once and is in order; and then the callback of every request has been
  -- called once for each time that it was sent, and no more are taken.
  pub abort-tells :
      {sends : List ℕ} {c c' : Control} (cpu delay : ℕ)
      → Reach env c sends c'
      → Sound env.cpus c
      → ((q : ℕ) → told q c.fc.trace + owed c.fc q ≡ 0)
      → cpu < env.cpus
      → c'.abort_work ≡ some delay
      → NoMarker c'.fc
      → Once c'
      → ((p : ℕ) → 0 < occurs p c'.ctx.list → InOrder c'.fc (c'.ctx.devs p))
      → (c'' : Control) × (pxd_abort_context cpu env.callback (cancel_abort c') ≡ some c'')
        × ((q : ℕ) → told q c''.fc.trace ≡ occurs q sends)
        × ((c''.fc.connected || c''.fc.allow_disconnected) ≡ false)
  abort-tells {sends} {c} {c'} cpu delay run s quiet here scheduled unmarked once ok =
      let a = Reach-Advance run s in
      let (c'', e, d) =
        abort_context-Closed env.cpus cpu env.callback (cancel_abort c') here a.sound.inv
          (scheduled-closed c' delay a.sound scheduled) unmarked once ok in
      let b = fire-Advance env.cpus c' c'' a.sound d in
      (
        c'',
        e,
        λ q. omega (
          arith,
          quiet q,
          a.accounted q,
          b.accounted q,
          occurs-nil q,
          none-owed c''.fc q b.sound.whole d.requests.no_pending d.requests.no_processing,
        ),
        d.refuses,
      )
