-- ===== src/Conn/Account.antt =====
-- The callbacks of requests in the trace of a connection (dev.c: request_end calls req->end).
pub mod Ends
pub mod Send
use pxmod.Common.{
  ℕ, zero, suc, ap, sym, ◌∙◌, ◌+◌, ◌*◌, ◌≤◌, ◌<◌, ◌≡◌, ◌≢◌, refl, arith, Bool, true, false, Option,
  none, some, List, [], ◌∷◌, ◌++◌, ◌==◌, one_if, update, occurs, occurs-append, occurs-cons,
  occurs-nil, list_del, occurs-list_del,
}
use pxmod.Common.Int.{ℤ}
use pxmod.Conn.State.{FuseConn, FuseReq, Event, woken, ended, freed, released, slot}
use pxmod.Conn.Requests.{set_req, set_error, emit, register, queue_request}
use pxmod.Conn.Requests.Invariant.{ConnInv, Mapped, Fresh, mapped, Ended, end_events}

-- How often the callback of `r` has been called.
unfoldable pub told : ℕ → List Event → ℕ
told r [] = 0
told r (woken ∷ es) = told r es
told r (ended q e ∷ es) = one_if (q == r) + told r es
told r (freed q ∷ es) = told r es
told r (released ∷ es) = told r es

abbrev pub has_end : FuseReq → ℕ
has_end req = elim req.end [ none ↦ 0 | some f ↦ 1 ]

-- How often the callback of `r` is still to be called: once if it is in flight.
abbrev pub owed : FuseConn → ℕ → ℕ
owed fc r = mapped fc r * has_end (fc.reqs r)

-- Each request in flight is on one list.
abbrev pub Whole : FuseConn → Type 0
Whole fc = (r : ℕ) → occurs r fc.pending + occurs r fc.processing ≡ mapped fc r

-- No callback is lost and none is called twice between `fc` and `fc'`.
pub record Goes (n : ℕ) (fc fc' : FuseConn) : Type 0 where
  pub inv : ConnInv n fc'
  pub accounted : (q : ℕ) → told q fc'.trace + owed fc' q ≡ told q fc.trace + owed fc q
  pub whole : Whole fc → Whole fc'
  pub connected : fc'.connected ≡ fc.connected
  pub allow_disconnected : fc'.allow_disconnected ≡ fc.allow_disconnected

pub Goes-refl : (n : ℕ) (fc : FuseConn) → ConnInv n fc → Goes n fc fc
Goes-refl n fc inv = record {
  inv = inv;
  accounted = λ q. refl;
  whole = λ w. w;
  connected = refl;
  allow_disconnected = refl;
}

pub Goes-trans : {n : ℕ} {a b c : FuseConn} → Goes n a b → Goes n b c → Goes n a c
Goes-trans p q = record {
  inv = q.inv;
  accounted = λ r. q.accounted r ∙ p.accounted r;
  whole = λ w. q.whole (p.whole w);
  connected = q.connected ∙ p.connected;
  allow_disconnected = q.allow_disconnected ∙ p.allow_disconnected;
}

pub told-end :
    (q r : ℕ) (req : FuseReq) (es : List Event)
    → told q (end_events r req ++ es) ≡ one_if (r == q) * has_end req + told q es
unfolding told
told-end q r req es = ground arith

-- A request that changes, but for its id and its callback.
pub set_req-Goes :
    (n r : ℕ) (fc : FuseConn) (req : FuseReq)
    → ConnInv n (set_req fc r req)
    → req.unique ≡ (fc.reqs r).unique
    → req.end ≡ (fc.reqs r).end
    → Goes n fc (set_req fc r req)
set_req-Goes n r fc req inv same_id same_end = record {
  inv = inv;
  accounted = λ q. ground arith;
  whole = λ w q. ground (arith, w q);
  connected = refl;
  allow_disconnected = refl;
}

-- A request that has given its slot back is in flight no more; the others stay.
pub mapped-later :
    (q r : ℕ) (fc fc' : FuseConn)
    → Mapped fc r
    → fc'.request_map ≡ update fc.request_map (slot (fc.reqs r).unique) none
    → (fc'.reqs q).unique ≡ (fc.reqs q).unique
    → mapped fc' q + one_if (r == q) ≡ mapped fc q
mapped-later q r fc fc' m e same = ground arith

-- A request in flight leaves the lists and gives its id back, and its callback is called.
pub leave-Goes :
    (n r : ℕ) (fc fc' : FuseConn) (req : FuseReq)
    → ConnInv n fc
    → Mapped fc r
    → ConnInv n fc'
    → req.end ≡ (fc.reqs r).end
    → fc'.pending ≡ list_del r fc.pending
    → fc'.processing ≡ list_del r fc.processing
    → fc'.request_map ≡ update fc.request_map (slot (fc.reqs r).unique) none
    → ((s : ℕ) → ((fc'.reqs s).unique ≡ (fc.reqs s).unique) × ((fc'.reqs s).end ≡ (fc.reqs s).end))
    → fc'.trace ≡ end_events r req ++ fc.trace
    → fc'.connected ≡ fc.connected
    → fc'.allow_disconnected ≡ fc.allow_disconnected
    → Goes n fc fc'
leave-Goes n r fc fc' req inv m inv' same_end p q e same tr on allow = record {
  inv = inv';
  accounted = λ s. ground (
    arith,
    ap (told s) tr,
    told-end s r req fc.trace,
    mapped-later s r fc fc' m e (same s).0,
    (same s).1,
    same_end,
  );
  whole = λ w s. ground (
    arith,
    w s,
    ap (occurs s) p,
    ap (occurs s) q,
    occurs-list_del s r fc.pending,
    occurs-list_del s r fc.processing,
    mapped-later s r fc fc' m e (same s).0,
  );
  connected = on;
  allow_disconnected = allow;
}

-- The end of a request in flight.
pub Ended-Goes :
    (n r : ℕ) (fc fc' : FuseConn) → ConnInv n fc → Mapped fc r → Ended n r fc fc' → Goes n fc fc'
Ended-Goes n r fc fc' inv m d =
    leave-Goes n r fc fc' (fc.reqs r) inv m d.inv refl d.pending d.processing d.request_map
      (λ s. (ap (λ f. (f s).unique) d.reqs, ap (λ f. (f s).end) d.reqs)) d.trace d.connected
      d.allow_disconnected
