-- ===== src/Conn/Requests/Invariant.antt =====
-- The invariant of a connection, and request_end (dev.c).
use pxmod.Common.{
  ℕ, ap, ◌∙◌, ◌+◌, ◌≤◌, ◌<◌, ◌≡◌, ◌≢◌, refl, arith, Bool, true, false, none, some, List, [], ◌∷◌,
  ◌++◌, ◌==◌, one_if, if◌then◌else◌, update, occurs, list_del, occurs-list_del, total-change,
  Option-cases, inl, inr,
}
use pxmod.Conn.State.{FuseConn, FuseReq, Event, freed, ended, slot, fuse_max_request_ids}
use pxmod.Conn.Ids.Alloc.{fuse_get_unique, fuse_put_unique}
use pxmod.Conn.Ids.Invariant.{IdsInv, in_flight, get-Frame, put-Frame}
use pxmod.Conn.Ids.Laws.{Taken, get-Taken, put-IdsInv}
use pxmod.Conn.Requests.{call_end, unlink, free_if, request_end, register, emit}

-- The request is in the slot of its own id.
abbrev pub Mapped : FuseConn → ℕ → Type 0
Mapped fc r = fc.request_map (slot (fc.reqs r).unique) ≡ some r

abbrev pub mapped : FuseConn → ℕ → ℕ
mapped fc r = elim (fc.request_map (slot (fc.reqs r).unique)) [
  | none ↦ 0
  | some q ↦ one_if (q == r)
]

abbrev pub Fresh : FuseConn → ℕ → Type 0
Fresh fc r = (i : ℕ) → fc.request_map i ≢ some r

pub record ConnInv (n : ℕ) (fc : FuseConn) : Type 0 where
  pub ids : IdsInv n fc
  pub own_slot : (i r : ℕ) → fc.request_map i ≡ some r → slot (fc.reqs r).unique ≡ i
  pub listed : (r : ℕ) → occurs r fc.pending + occurs r fc.processing ≤ mapped fc r

-- The id of a registered request is in flight, and its slot was free before.
register-ids : (n uid r : ℕ) (fc : FuseConn) → Taken n uid fc → IdsInv n (register fc r uid)
unfolding register
register-ids n uid r fc t =
    let free = t.owned (slot uid) (omega arith) in
    record {
      owned = λ i p. ground (arith, t.owned i p, free);
      bounded = t.bounded;
      conserved = ground (
        arith,
        t.conserved,
        free,
        total-change (in_flight (update fc.request_map (slot uid) (some r)))
            (in_flight fc.request_map) fuse_max_request_ids (slot uid) (omega arith)
            (λ i p. ground arith),
      );
    }

-- Registering a request that is not in flight keeps the invariant.
pub register-Inv :
    (n cpu uid r : ℕ) (fc fc' : FuseConn)
    → cpu < n
    → ConnInv n fc
    → Fresh fc r
    → fuse_get_unique cpu fc ≡ some (uid, fc')
    → ConnInv n (register fc' r uid)
unfolding register
register-Inv n cpu uid r fc fc' here inv fresh h =
    let t = get-Taken n cpu here uid fc fc' inv.ids h in
    let (f, m) = get-Frame cpu uid fc fc' h in
    let free = t.owned (slot uid) (omega arith) in
    record {
      ids = register-ids n uid r fc' t;
      own_slot = λ i q p. ground (arith, inv.own_slot i q, fresh i);
      listed = λ q. ground (arith, inv.listed q, fresh (slot (fc.reqs r).unique), free);
    }

-- What a request that ends shows outside, latest first: its callback is called once with its error.
abbrev pub end_events : ℕ → FuseReq → List Event
end_events r req = elim req.end [
  | none ↦ []
  | some end ↦ if end req.error then freed r ∷ ended r req.error ∷ [] else ended r req.error ∷ []
]

-- The effect of request_end on a request that is in flight: it is on neither list, its id is
-- given back, and of the requests nothing changes.
pub record Ended (n r : ℕ) (fc fc' : FuseConn) : Type 0 where
  pub inv : ConnInv n fc'
  pub pending : fc'.pending ≡ list_del r fc.pending
  pub processing : fc'.processing ≡ list_del r fc.processing
  pub request_map : fc'.request_map ≡ update fc.request_map (slot (fc.reqs r).unique) none
  pub reqs : fc'.reqs ≡ fc.reqs
  pub trace : fc'.trace ≡ end_events r (fc.reqs r) ++ fc.trace
  pub connected : fc'.connected ≡ fc.connected
  pub allow_disconnected : fc'.allow_disconnected ≡ fc.allow_disconnected
  pub count : fc'.count ≡ fc.count

pub IdsInv-cong :
    (n : ℕ) (fc fc' : FuseConn)
    → fc'.free_ids ≡ fc.free_ids
    → fc'.num_free_ids ≡ fc.num_free_ids
    → fc'.per_cpu_ids ≡ fc.per_cpu_ids
    → fc'.request_map ≡ fc.request_map
    → IdsInv n fc
    → IdsInv n fc'
IdsInv-cong n fc fc' a b c d inv = record {
  owned = λ i p. rw (a, b, c, d) (inv.owned i p);
  bounded = λ k. rw c (inv.bounded k);
  conserved = rw (b, c, d) inv.conserved;
}

call_end-frame :
    (r : ℕ) (fc : FuseConn) → (call_end r fc).1 ≡ record fc { trace = (call_end r fc).1.trace }
unfolding call_end
call_end-frame r fc = elim (Option-cases (fc.reqs r).end) [
  | inl e ↦ rw (e, call_end)
  | inr (f, e) ↦ rw (e, call_end)
]

free_if-IdsInv :
    (n r : ℕ) (shouldfree : Bool) (fc : FuseConn) → IdsInv n fc → IdsInv n (free_if shouldfree r fc)
unfolding free_if
free_if-IdsInv n r true fc inv = IdsInv-cong n fc (emit fc (freed r)) refl refl refl refl inv
free_if-IdsInv n r false fc inv = inv

call_end-trace :
    (r : ℕ) (fc fc₂ : FuseConn)
    → fc₂.trace ≡ (call_end r fc).1.trace
    → (free_if (call_end r fc).0 r fc₂).trace ≡ end_events r (fc.reqs r) ++ fc.trace
unfolding call_end free_if
call_end-trace r fc fc₂ e = ground arith

-- What is left after the callback, and after the id is given back.
Ended-put :
    (n cpu r : ℕ) (shouldfree : Bool) (fc fc₁ fc₂ : FuseConn)
    → ConnInv n fc
    → Mapped fc r
    → fc₁ ≡ record (unlink fc r) { trace = fc₁.trace }
    → fuse_put_unique cpu (fc.reqs r).unique fc₁ ≡ some fc₂
    → IdsInv n fc₂
    → (free_if shouldfree r fc₂).trace ≡ end_events r (fc.reqs r) ++ fc.trace
    → Ended n r fc (free_if shouldfree r fc₂)
unfolding unlink free_if
Ended-put n cpu r shouldfree fc fc₁ fc₂ inv used same e ids tr =
    let (f, m) = put-Frame cpu (fc.reqs r).unique fc₁ fc₂ e in
    record {
      inv = record {
        ids = free_if-IdsInv n r shouldfree fc₂ ids;
        own_slot = λ i q p. ground (arith, inv.own_slot i q);
        listed = λ q. ground (
          arith,
          inv.listed q,
          inv.own_slot (slot (fc.reqs q).unique) q,
          occurs-list_del q r fc.pending,
          occurs-list_del q r fc.processing,
        );
      };
      pending = ground arith;
      processing = ground arith;
      request_map = ground arith;
      reqs = ground arith;
      trace = tr;
      connected = ground arith;
      allow_disconnected = ground arith;
      count = ground arith;
    }

-- A request that is in flight ends: no BUG_ON is met, and the invariant is kept.
pub end-Ended :
    (n cpu r : ℕ) (fc : FuseConn)
    → cpu < n
    → ConnInv n fc
    → Mapped fc r
    → (fc' : FuseConn) × (request_end cpu fc r ≡ some fc') × Ended n r fc fc'
unfolding request_end unlink
end-Ended n cpu r fc here inv used =
    let fc₁ = (call_end r (unlink fc r)).1 in
    let same = call_end-frame r (unlink fc r) in
    let ids =
      IdsInv-cong n fc fc₁ (ap (λ c. c.free_ids) same) (ap (λ c. c.num_free_ids) same)
        (ap (λ c. c.per_cpu_ids) same) (ap (λ c. c.request_map) same) inv.ids in
    let (fc₂, e, kept) =
      put-IdsInv n cpu here (fc.reqs r).unique r fc₁ ids
        (ap (λ c. c.request_map (slot (fc.reqs r).unique)) same ∙ used) in
    (
      free_if (call_end r (unlink fc r)).0 r fc₂,
      rw e,
      Ended-put n cpu r (call_end r (unlink fc r)).0 fc fc₁ fc₂ inv used same e kept
          (call_end-trace r (unlink fc r) fc₂ (put-Frame cpu (fc.reqs r).unique fc₁ fc₂ e).0.trace),
    )
