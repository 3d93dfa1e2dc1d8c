-- ===== src/Conn/Account/Send.antt =====
-- fuse_request_send_nowait (dev.c), and the callbacks.
use pxmod.Common.{
  ℕ, ap, sym, subst, ◌∙◌, ◌+◌, ◌*◌, ◌<◌, ◌≡◌, arith, true, false, ◌||◌, some, [], ◌∷◌, ◌==◌, one_if,
  occurs, occurs-append, occurs-cons, occurs-nil, occurs-list_del, >>=-eq-some, Bool-cases, inl,
  inr,
}
use mathlib.Core.Option.{some-injective}
use pxmod.Common.Int.{enotconn}
use pxmod.Conn.State.{FuseConn, woken, slot}
use pxmod.Conn.Ids.Alloc.{fuse_get_unique}
use pxmod.Conn.Ids.Invariant.{get-Frame}
use pxmod.Conn.Ids.Laws.{get-Taken}
use pxmod.Conn.Requests.{
  request_end, set_error, emit, register, queue_request, fuse_request_send_nowait,
}
use pxmod.Conn.Requests.Invariant.{ConnInv, Mapped, Fresh, mapped, Ended, end-Ended, register-Inv}
use pxmod.Conn.Requests.Laws.{set_error-Inv, queue-Inv}
use pxmod.Conn.Account.{told, owed, has_end, Whole, mapped-later}
use pxmod.Conn.Account.Ends.{end_with-Goes}

-- The effect of a send on the callbacks.
pub record Sent (n r : ℕ) (fc fc' : FuseConn) : Type 0 where
  pub inv : ConnInv n fc'
  pub accounted :
      (q : ℕ)
      → told q fc'.trace + owed fc' q
        ≡ told q fc.trace + owed fc q + one_if (r == q) * has_end (fc.reqs r)
  pub whole : Whole fc → Whole fc'
  pub connected : fc'.connected ≡ fc.connected
  pub allow_disconnected : fc'.allow_disconnected ≡ fc.allow_disconnected

-- A request that has an id, but is on no list yet.
record Registered (n r : ℕ) (fc fc' : FuseConn) : Type 0 where
  inv : ConnInv n fc'
  mine : Mapped fc' r
  map : (q : ℕ) → mapped fc' q ≡ mapped fc q + one_if (r == q)
  callback : (q : ℕ) → (fc'.reqs q).end ≡ (fc.reqs q).end
  pending : fc'.pending ≡ fc.pending
  processing : fc'.processing ≡ fc.processing
  trace : fc'.trace ≡ fc.trace
  connected : fc'.connected ≡ fc.connected
  allow_disconnected : fc'.allow_disconnected ≡ fc.allow_disconnected

register-Registered :
    (n cpu : ℕ)
    → cpu < n
    → (uid r : ℕ) (fc fc₁ : FuseConn) → ConnInv n fc
    → Fresh fc r
    → fuse_get_unique cpu fc ≡ some (uid, fc₁)
    → Registered n r fc (register fc₁ r uid)
unfolding register
register-Registered n cpu here uid r fc fc₁ inv fresh got =
    let (f, m) = get-Frame cpu uid fc fc₁ got in
    let t = get-Taken n cpu here uid fc fc₁ inv.ids got in
    let free = t.owned (slot uid) (omega arith) in
    record {
      inv = register-Inv n cpu uid r fc fc₁ here inv fresh got;
      mine = ground arith;
      map = λ q. ground (arith, f.reqs, fresh (slot (fc.reqs r).unique), free);
      callback = λ q. ground (arith, f.reqs);
      pending = f.pending;
      processing = f.processing;
      trace = f.trace;
      connected = f.connected;
      allow_disconnected = f.allow_disconnected;
    }

-- It is put on the list.
queued-Sent :
    (n r : ℕ) (fc fc₂ : FuseConn)
    → ConnInv n fc
    → Fresh fc r
    → Registered n r fc fc₂
    → Sent n r fc (emit (queue_request fc₂ r) woken)
unfolding queue_request told
queued-Sent n r fc fc₂ inv fresh d = record {
  inv = queue-Inv n r fc₂ d.inv d.mine (
      ground (
        arith,
        inv.listed r,
        fresh (slot (fc.reqs r).unique),
        ap (occurs r) d.pending,
        ap (occurs r) d.processing,
      ));
  accounted = λ q. ground (arith, ap (told q) d.trace, d.map q, d.callback q);
  whole = λ w q. ground (
    arith,
    w q,
    d.map q,
    ap (occurs q) d.pending,
    ap (occurs q) d.processing,
    occurs-append q fc₂.pending (r ∷ []),
    occurs-cons q r [],
    occurs-nil q,
  );
  connected = d.connected;
  allow_disconnected = d.allow_disconnected;
}

-- It is refused: the lists are as before the send.
refused-Whole :
    (n r : ℕ) (fc fc₂ fc' : FuseConn)
    → ConnInv n fc
    → Fresh fc r
    → Registered n r fc fc₂
    → Ended n r (set_error fc₂ r enotconn) fc'
    → Whole fc
    → Whole fc'
refused-Whole n r fc fc₂ fc' inv fresh d g w q =
    let e = set_error fc₂ r enotconn in
    let m : Mapped e r = ground (arith, d.mine) in
    let same : mapped e q ≡ mapped fc₂ q = ground arith in
    let gone = mapped-later q r e fc' m g.request_map (ap (λ f. (f q).unique) g.reqs) in
    ground (
      arith,
      w q,
      d.map q,
      gone,
      same,
      ap (occurs q) g.pending,
      ap (occurs q) g.processing,
      ap (occurs q) d.pending,
      ap (occurs q) d.processing,
      occurs-list_del q r fc₂.pending,
      occurs-list_del q r fc₂.processing,
      inv.listed r,
      fresh (slot (fc.reqs r).unique),
    )

module _ (n cpu : ℕ) (here : cpu < n) where
  refused-Sent :
      (r : ℕ) (fc fc₂ fc' : FuseConn)
      → ConnInv n fc
      → Fresh fc r
      → Registered n r fc fc₂
      → request_end cpu (set_error fc₂ r enotconn) r ≡ some fc'
      → Sent n r fc fc'
  refused-Sent r fc fc₂ fc' inv fresh d run =
      let m : Mapped (set_error fc₂ r enotconn) r = ground (arith, d.mine) in
      let (fc₃, run₃, g) =
        end-Ended n cpu r (set_error fc₂ r enotconn) here (set_error-Inv n r enotconn fc₂ d.inv)
          m in
      let same : fc₃ ≡ fc' = some-injective fc₃ fc' (sym run₃ ∙ run) in
      let goes = end_with-Goes n cpu here r enotconn fc₂ fc' d.inv d.mine run in
      record {
        inv = goes.inv;
        accounted =
            λ q. goes.accounted q ∙ ground (arith, ap (told q) d.trace, d.map q, d.callback q);
        whole =
            refused-Whole n r fc fc₂ fc' inv fresh d
              (subst (Ended n r (set_error fc₂ r enotconn)) same g);
        connected = goes.connected ∙ d.connected;
        allow_disconnected = goes.allow_disconnected ∙ d.allow_disconnected;
      }

  -- A request that is sent has one callback to come, or has had it at once.
  pub send-Sent :
      (r : ℕ) (fc fc' : FuseConn)
      → ConnInv n fc
      → Fresh fc r
      → fuse_request_send_nowait cpu fc r ≡ some fc'
      → Sent n r fc fc'
  unfolding fuse_request_send_nowait queue_request
  send-Sent r fc fc' inv fresh run =
      let ((uid, fc₁), got, rest) = >>=-eq-some (fuse_get_unique cpu fc) _ run in
      let (f, m) = get-Frame cpu uid fc fc₁ got in
      let fc₂ = register fc₁ r uid in
      let reg = register-Registered n cpu here uid r fc fc₁ inv fresh got in
      elim (Bool-cases (fc.connected || fc.allow_disconnected)) [
        | inl open_conn ↦
            let takes : (fc₂.connected || fc₂.allow_disconnected) ≡ true =
              ground (arith, reg.connected, reg.allow_disconnected) in
            let same : emit (queue_request fc₂ r) woken ≡ fc' =
              some-injective _ fc' (sym (simp takes) ∙ rest) in
            subst (Sent n r fc) same (queued-Sent n r fc fc₂ inv fresh reg)
        | inr closed ↦
            let refuses : (fc₂.connected || fc₂.allow_disconnected) ≡ false =
              ground (arith, reg.connected, reg.allow_disconnected) in
            refused-Sent r fc fc₂ fc' inv fresh reg (sym (simp refuses) ∙ rest)
      ]
