-- ===== src/Control/Abort.antt =====
-- pxd_abort_context (pxd.c).
use pxmod.Common.{
  ℕ, ap, sym, subst, ◌∙◌, ◌+◌, ◌≤◌, ◌<◌, ◌≡◌, ◌⊎◌, inl, inr, refl, arith, false, ◌||◌, none, some,
  List, [], ◌∷◌, ◌++◌, occurs, occurs-cons, occurs-append, ◌>>=◌, bug_on, one_if, Option,
}
use pxmod.Common.Int.{ℤ}
use pxmod.Conn.State.{FuseConn, FuseReq}
use pxmod.Conn.Requests.{request_find}
use pxmod.Conn.Requests.Invariant.{ConnInv, IdsInv-cong}
use pxmod.Conn.Lifecycle.{fuse_end_queued_requests}
use pxmod.Conn.Lifecycle.Laws.{Aborted, end_queued-Aborted}
use pxmod.Device.State.{Device}
use pxmod.Device.Queue.{DevConn}
use pxmod.Fastpath.Suspend.Laws.{Suspended}
use pxmod.Fastpath.Paths.Laws.{On, Off}
use pxmod.Conn.Account.{Goes}
use pxmod.Conn.Account.Ends.{end_queued-Goes}
use pxmod.Control.{Control, is_marker, end_markers, pxdctx_set_connected, pxd_abort_context}
use pxmod.Control.Laws.{Sane, IsDown, all-IsDown}

-- A device whose files, suspends and switch are in order; its marker, if one is in flight, is on a
-- list of the connection.
pub record InOrder (fc : FuseConn) (d : Device) : Type 0 where
  pub path : (On d) ⊎ (Off d)
  pub times_suspended : ℕ
  pub suspended : Suspended times_suspended d
  pub mine : one_if d.fp.app_suspend ≤ times_suspended
  pub marker :
      (request_find fc d.fp.switch_uid ≡ none)
      ⊎ ((r : ℕ) × ((fc.reqs r).unique ≡ d.fp.switch_uid)
          × (0 < occurs r fc.pending + occurs r fc.processing))

-- No request in flight says that a device changes its path.
abbrev pub NoMarker : FuseConn → Type 0
NoMarker fc =
    (r : ℕ)
    → 0 < occurs r fc.pending + occurs r fc.processing
    → is_marker (fc.reqs r).opcode ≡ false

-- The connection when nobody may send to it any more.
abbrev pub shut : FuseConn → FuseConn
shut fc = record fc { allow_disconnected = false }

pub shut-Inv : (n : ℕ) (fc : FuseConn) → ConnInv n fc → ConnInv n (shut fc)
shut-Inv n fc inv = record {
  ids = IdsInv-cong n fc (shut fc) refl refl refl refl inv.ids;
  own_slot = inv.own_slot;
  listed = inv.listed;
}

InOrder-Sane :
    (n : ℕ) (fc fc' : FuseConn) (d : Device) → Aborted n (shut fc) fc' → InOrder fc d → Sane fc' d
unfolding request_find
InOrder-Sane n fc fc' d a ok = record {
  path = ok.path;
  times_suspended = ok.times_suspended;
  suspended = ok.suspended;
  mine = ok.mine;
  no_marker = elim ok.marker [
    | inl e ↦ a.lost d.fp.switch_uid e
    | inr (r, e, listed) ↦ subst (λ u. request_find fc' u ≡ none) e (a.gone r listed)
  ];
}

-- What the work has done when its time has come.
pub record Closed (n : ℕ) (c c' : Control) : Type 0 where
  pub requests : Aborted n (shut c.fc) c'.fc
  pub goes : Goes n (shut c.fc) c'.fc
  pub refuses : (c'.fc.connected || c'.fc.allow_disconnected) ≡ false
  pub down : (p : ℕ) → 0 < occurs p c.ctx.list → IsDown (c'.ctx.devs p)
  pub list : c'.ctx.list ≡ c.ctx.list
  pub abort_work : c'.abort_work ≡ c.abort_work

module _ (n cpu : ℕ) (callback : ℕ → ℤ → DevConn → Option DevConn) where
  end_markers-none :
      (reqs : ℕ → FuseReq) (rs : List ℕ) (c : Control)
      → ((r : ℕ) → 0 < occurs r rs → is_marker (reqs r).opcode ≡ false)
      → end_markers cpu callback reqs rs c ≡ some c
  unfolding end_markers
  end_markers-none reqs [] c h = refl
  end_markers-none reqs (r ∷ rs) c h =
      let no : is_marker (reqs r).opcode ≡ false = h r (ground (arith, occurs-cons r r rs)) in
      simp no (end_markers-none reqs rs c (λ q p. h q (ground (arith, occurs-cons q r rs))))

  abort-runs :
      (c : Control) (fc : FuseConn)
      → c.fc.connected ≡ false
      → NoMarker c.fc
      → fuse_end_queued_requests cpu (shut c.fc) ≡ some fc
      → pxd_abort_context cpu callback c
        ≡ pxdctx_set_connected cpu callback false (record c { fc = fc })
  unfolding pxd_abort_context
  abort-runs c fc off unmarked e =
      let all = c.fc.pending ++ c.fc.processing in
      let down = pxdctx_set_connected cpu callback false in
      let rest = λ (fc : FuseConn).
        end_markers cpu callback c.fc.reqs all (record c { fc = fc }) >>= λ c. down c in
      ap (λ b. bug_on b (fuse_end_queued_requests cpu (shut c.fc) >>= rest)) off
      ∙ ap (λ o. o >>= rest) e
      ∙ ap (λ o. o >>= λ c. down c)
          (end_markers-none c.fc.reqs all (record c { fc = fc })
            (λ r p. unmarked r (omega (arith, occurs-append r c.fc.pending c.fc.processing))))

  -- While no process has the context open, in a well-formed connection, the work that aborts it
  -- returns, if no marker of a change of path is in flight, and each device is listed once and is in
  -- order: every request that was pending or being processed has ended once with -ECONNABORTED, and
  -- the connection takes no more. Every device of the list is disconnected, and if it is registered
  -- for the fast path, its files are closed, every suspend of it is undone and no switch is active.
  pub abort_context-Closed :
      (c : Control)
      → cpu < n
      → ConnInv n c.fc
      → c.fc.connected ≡ false
      → NoMarker c.fc
      → ((p : ℕ) → occurs p c.ctx.list ≤ 1)
      → ((p : ℕ) → 0 < occurs p c.ctx.list → InOrder c.fc (c.ctx.devs p))
      → (c' : Control) × (pxd_abort_context cpu callback c ≡ some c') × Closed n c c'
  abort_context-Closed c here inv off unmarked once ok =
      let (fc, e, a) = end_queued-Aborted n cpu (shut c.fc) here (shut-Inv n c.fc inv) in
      let (c', e', set) =
        all-IsDown cpu callback (record c { fc = fc }) once
          (λ p h. InOrder-Sane n c.fc fc (c.ctx.devs p) a (ok p h)) in
      (
        c',
        abort-runs c fc off unmarked e ∙ e',
        record {
          requests = subst (Aborted n (shut c.fc)) (sym (ap (λ x. x.fc) set.frame)) a;
          goes =
              subst (Goes n (shut c.fc)) (sym (ap (λ x. x.fc) set.frame))
                (end_queued-Goes n cpu here (shut c.fc) fc (shut-Inv n c.fc inv) e);
          refuses =
              ground (arith, ap (λ x. x.fc) set.frame, a.connected, a.allow_disconnected, off);
          down = set.done;
          list = ap (λ x. x.ctx.list) set.frame;
          abort_work = ap (λ x. x.abort_work) set.frame;
        },
      )
