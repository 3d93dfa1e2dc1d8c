-- ===== src/Conn/Lifecycle/Abort.antt =====
-- The loop of end_requests (dev.c).
use native.Mathlib.Decide.{ℕ_discrete as dec_eq}
use pxmod.Common.{
  ℕ, zero, suc, ap, subst, ◌∙◌, ◌+◌, ◌<◌, ◌≡◌, ◌≢◌, refl, arith, none, some, List, [], ◌∷◌, ◌++◌,
  update, occurs, occurs-cons, occurs-nil, length, list_del, list_del-absent, list_del-head,
}
use pxmod.Common.Int.{ℤ, econnaborted}
use pxmod.Conn.State.{FuseConn, FuseReq, Event, slot}
use pxmod.Conn.Requests.{request_find, set_error}
use pxmod.Conn.Requests.Invariant.{ConnInv, Mapped, Ended, end-Ended, end_events}
use pxmod.Conn.Requests.Laws.{listed-Mapped, set_error-Inv}
use pxmod.Conn.Lifecycle.{Queue, on_pending, on_processing, queue, end_requests}

-- req->out.h.error = -ECONNABORTED.
unfoldable pub aborting : FuseReq → FuseReq
aborting req = record req { error = econnaborted }

-- What an abort of the requests `rs`, in this order, shows outside.
unfoldable pub aborted : (ℕ → FuseReq) → List ℕ → List Event → List Event
aborted reqs [] trace = trace
aborted reqs (r ∷ rs) trace = aborted reqs rs (end_events r (aborting (reqs r)) ++ trace)

abbrev pub other : Queue → Queue
other on_pending = on_processing
other on_processing = on_pending

-- The effect of ending the requests `rs` of the list `q`.
pub record Drained (n : ℕ) (q : Queue) (rs : List ℕ) (fc fc' : FuseConn) : Type 0 where
  pub inv : ConnInv n fc'
  pub drained : queue q fc' ≡ []
  pub untouched : queue (other q) fc' ≡ queue (other q) fc
  pub trace : fc'.trace ≡ aborted fc.reqs rs fc.trace
  pub reqs : (s : ℕ) → aborting (fc'.reqs s) ≡ aborting (fc.reqs s)
  pub gone : (s : ℕ) → 0 < occurs s rs → request_find fc' (fc.reqs s).unique ≡ none
  pub stays : (i : ℕ) → fc'.request_map i ≢ none → fc'.request_map i ≡ fc.request_map i
  pub connected : fc'.connected ≡ fc.connected
  pub allow_disconnected : fc'.allow_disconnected ≡ fc.allow_disconnected
  pub count : fc'.count ≡ fc.count

head-listed :
    (q : Queue) (r : ℕ) (rs : List ℕ) (fc : FuseConn)
    → queue q fc ≡ r ∷ rs
    → 0 < occurs r fc.pending + occurs r fc.processing
head-listed on_pending r rs fc e = rw e (ground (arith, occurs-cons r r rs))
head-listed on_processing r rs fc e = rw e (ground (arith, occurs-cons r r rs))

-- The head leaves its own list, and was not on the other one.
step-queues :
    (n : ℕ) (q : Queue) (r : ℕ) (rs : List ℕ) (fc fc' : FuseConn)
    → ConnInv n fc
    → queue q fc ≡ r ∷ rs
    → Ended n r (set_error fc r econnaborted) fc'
    → (queue q fc' ≡ rs) × (queue (other q) fc' ≡ queue (other q) fc)
step-queues n on_pending r rs fc fc' inv e d = (
  d.pending ∙ ap (list_del r) e ∙ list_del-head r rs,
  d.processing
      ∙ list_del-absent r fc.processing
          (ground (arith, inv.listed r, ap (occurs r) e, occurs-cons r r rs)),
)
step-queues n on_processing r rs fc fc' inv e d = (
  d.processing ∙ ap (list_del r) e ∙ list_del-head r rs,
  d.pending
      ∙ list_del-absent r fc.pending
          (ground (arith, inv.listed r, ap (occurs r) e, occurs-cons r r rs)),
)

pub aborted-cong :
    (f g : ℕ → FuseReq) (rs : List ℕ) (trace : List Event)
    → ((s : ℕ) → aborting (f s) ≡ aborting (g s))
    → aborted f rs trace ≡ aborted g rs trace
unfolding aborted
aborted-cong f g [] trace h = refl
aborted-cong f g (r ∷ rs) trace h =
    ap (λ q. aborted f rs (end_events r q ++ trace)) (h r) ∙ aborted-cong f g rs _ h

-- An id whose slot is empty finds nothing.
pub find-empty : (fc : FuseConn) (u : ℕ) → fc.request_map (slot u) ≡ none → request_find fc u ≡ none
unfolding request_find
find-empty fc u e = ground arith

set_error-reqs :
    (fc : FuseConn) (r s : ℕ)
    → aborting ((set_error fc r econnaborted).reqs s) ≡ aborting (fc.reqs s)
unfolding aborting
set_error-reqs fc r s = ground arith

set_error_self :
    (fc : FuseConn) (r : ℕ) → (set_error fc r econnaborted).reqs r ≡ aborting (fc.reqs r)
unfolding aborting
set_error_self fc r = ground arith

-- The error of a request is not its id.
pub aborting-unique : (p q : FuseReq) → aborting p ≡ aborting q → p.unique ≡ q.unique
unfolding aborting
aborting-unique p q e = ap (λ x. x.unique) e

-- One round, then the rest.
drain-step :
    (n : ℕ) (q : Queue) (r : ℕ) (rs : List ℕ) (fc fc₁ fc' : FuseConn)
    → ConnInv n fc
    → queue q fc ≡ r ∷ rs
    → Ended n r (set_error fc r econnaborted) fc₁
    → Drained n q rs fc₁ fc'
    → Drained n q (r ∷ rs) fc fc'
unfolding aborted
drain-step n q r rs fc fc₁ fc' inv e d rest = record {
  inv = rest.inv;
  drained = rest.drained;
  untouched = rest.untouched ∙ (step-queues n q r rs fc fc₁ inv e d).1;
  trace =
      rest.trace
      ∙ aborted-cong fc₁.reqs fc.reqs rs fc₁.trace same
      ∙ ap (aborted fc.reqs rs)
          (d.trace ∙ ap (λ x. end_events r x ++ fc.trace) (set_error_self fc r));
  reqs = λ s. rest.reqs s ∙ same s;
  gone = gone;
  stays = λ i p. ground (arith, rest.stays i p, cleared i);
  connected = rest.connected ∙ d.connected;
  allow_disconnected = rest.allow_disconnected ∙ d.allow_disconnected;
  count = rest.count ∙ d.count;
}
  where
    same : (s : ℕ) → aborting (fc₁.reqs s) ≡ aborting (fc.reqs s)
    same s = ap (λ f. aborting (f s)) d.reqs ∙ set_error-reqs fc r s

    own : ((set_error fc r econnaborted).reqs r).unique ≡ (fc.reqs r).unique
    own = ground arith

    cleared : (i : ℕ) → fc₁.request_map i ≡ update fc.request_map (slot (fc.reqs r).unique) none i
    cleared i = ap (λ m. m i) d.request_map ∙ ap (λ u. update fc.request_map (slot u) none i) own

    gone : (s : ℕ) → 0 < occurs s (r ∷ rs) → request_find fc' (fc.reqs s).unique ≡ none
    gone s p = elim (dec_eq r s) [
      | yes hit ↦ find-empty fc' (fc.reqs s).unique (
          ground
            (arith, hit, rest.stays (slot (fc.reqs s).unique), cleared (slot (fc.reqs s).unique)))
      | no miss ↦
          subst (λ u. request_find fc' u ≡ none) (aborting-unique (fc₁.reqs s) (fc.reqs s) (same s))
            (rest.gone s (ground (arith, occurs-cons s r rs)))
    ]

set_error-Mapped : (fc : FuseConn) (r s : ℕ) (e : ℤ) → Mapped fc s → Mapped (set_error fc r e) s
set_error-Mapped fc r s e m = ground arith

-- With more fuel than requests, the loop ends every request of the list.
pub drain :
    (n cpu : ℕ) (q : Queue) (rs : List ℕ) (fuel : ℕ) (fc : FuseConn)
    → cpu < n
    → length rs < fuel
    → ConnInv n fc
    → queue q fc ≡ rs
    → (fc' : FuseConn) × (end_requests fuel q cpu fc ≡ some fc') × Drained n q rs fc fc'
unfolding end_requests aborted
drain n cpu q rs zero fc here enough inv e = absurd (omega arith)
drain n cpu q [] (suc fuel) fc here enough inv e = (
  fc,
  rw (e, end_requests),
  record {
    inv = inv;
    drained = e;
    untouched = refl;
    trace = refl;
    reqs = λ s. refl;
    gone = λ s p. absurd (omega (arith, p, occurs-nil s));
    stays = λ i p. refl;
    connected = refl;
    allow_disconnected = refl;
    count = refl;
  },
)
drain n cpu q (r ∷ rs) (suc fuel) fc here enough inv e =
    let fc₀ = set_error fc r econnaborted in
    let used = listed-Mapped n r fc inv (head-listed q r rs fc e) in
    let (fc₁, done, d) =
      end-Ended n cpu r fc₀ here (set_error-Inv n r econnaborted fc inv)
        (set_error-Mapped fc r r econnaborted used) in
    let (fc', ran, rest) =
      drain n cpu q rs fuel fc₁ here (omega arith) d.inv (step-queues n q r rs fc fc₁ inv e d).0 in
    (fc', rw (e, end_requests, done) ran, drain-step n q r rs fc fc₁ fc' inv e d rest)
