-- ===== src/Conn/Requests/Laws.antt =====
-- Sending a request, and finding it again by the id of a reply.
use pxmod.Common.{
  ℕ, ap, ◌∙◌, ◌+◌, ◌*◌, ◌<◌, ◌≡◌, ◌≢◌, ◌%◌, ◌^◌, refl, arith, true, false, ◌||◌, none, some, [],
  ◌∷◌, ◌++◌, occurs, occurs-append, occurs-cons, occurs-nil, total, list_del, list_del-absent,
}
use pxmod.Common.Int.{ℤ, enotconn}
use pxmod.Conn.State.{FuseConn, woken, slot, fuse_max_request_ids, fuse_max_per_cpu_ids}
use pxmod.Conn.Ids.Invariant.{Frame, in_flight, get-Frame}
use pxmod.Conn.Ids.Laws.{get-Taken, get-runs}
use pxmod.Conn.Requests.{
  register, queue_request, fuse_request_send_nowait, request_find, emit, set_error, in_header_size,
  len_args,
}
use pxmod.Conn.Requests.Invariant.{
  ConnInv, Mapped, Fresh, IdsInv-cong, register-Inv, Ended, end-Ended, end_events,
}

-- There is an id for one more request, whatever the CPUs keep.
abbrev pub Room : ℕ → FuseConn → Type 0
Room n fc =
    total (in_flight fc.request_map) fuse_max_request_ids + fuse_max_per_cpu_ids * n
    < fuse_max_request_ids

-- A reply with the id of a request that is in flight finds that request.
pub find-Mapped :
    (fc : FuseConn) (r : ℕ) → Mapped fc r → request_find fc (fc.reqs r).unique ≡ some r
unfolding request_find
find-Mapped fc r m = ground arith

-- A request that is on a list is in flight.
pub listed-Mapped :
    (n r : ℕ) (fc : FuseConn)
    → ConnInv n fc
    → 0 < occurs r fc.pending + occurs r fc.processing
    → Mapped fc r
listed-Mapped n r fc inv some_list = ground (arith, inv.listed r)

pub queue-Inv :
    (n r : ℕ) (fc : FuseConn)
    → ConnInv n fc
    → Mapped fc r
    → occurs r fc.pending + occurs r fc.processing ≡ 0
    → ConnInv n (emit (queue_request fc r) woken)
unfolding queue_request
queue-Inv n r fc inv m free = record {
  ids = IdsInv-cong n fc (emit (queue_request fc r) woken) refl refl refl refl inv.ids;
  own_slot = inv.own_slot;
  listed = λ q.
      ground (
        arith,
        inv.listed q,
        occurs-append q fc.pending (r ∷ []),
        occurs-cons q r [],
        occurs-nil q,
      );
}

pub set_error-Inv : (n r : ℕ) (e : ℤ) (fc : FuseConn) → ConnInv n fc → ConnInv n (set_error fc r e)
set_error-Inv n r e fc inv = record {
  ids = IdsInv-cong n fc (set_error fc r e) refl refl refl refl inv.ids;
  own_slot = λ i q p. ground (arith, inv.own_slot i q);
  listed = λ q. ground (arith, inv.listed q);
}

-- What request_end leaves of a request that was refused.
abbrev pub Refused : ℕ → ℕ → FuseConn → FuseConn → Type 0
Refused n r fc fc' =
    ConnInv n fc'
    × (fc'.pending ≡ fc.pending)
    × (fc'.processing ≡ fc.processing)
    × (fc'.trace ≡ end_events r (record (fc.reqs r) { error = enotconn }) ++ fc.trace)
    × (request_find fc' (fc'.reqs r).unique ≡ none)

module _ (n cpu r : ℕ) (fc : FuseConn) (here : cpu < n) (inv : ConnInv n fc)
    (fresh : Fresh fc r) where
  fresh-unlisted : occurs r fc.pending + occurs r fc.processing ≡ 0
  fresh-unlisted = ground (arith, inv.listed r, fresh (slot (fc.reqs r).unique))

  -- On a connection that takes requests, a sent request is the last of the pending ones, has a new
  -- id that is not zero, a reply with that id finds it, and but for the id and the length,
  -- which is that of its header and arguments in 32 bits, it is as it was.
  pub send_queues :
      (fc.connected || fc.allow_disconnected) ≡ true
      → Room n fc
      → (fc' : FuseConn) × (fuse_request_send_nowait cpu fc r ≡ some fc')
        × ConnInv n fc'
        × (fc'.pending ≡ fc.pending ++ r ∷ [])
        × (fc'.processing ≡ fc.processing)
        × (request_find fc' (fc'.reqs r).unique ≡ some r)
        × ((fc'.reqs r).unique ≢ 0)
        × (fc'.reqs r ≡ record (fc.reqs r) {
          unique = (fc'.reqs r).unique;
          len = (in_header_size + len_args (fc.reqs r).numargs (fc.reqs r).arg_size) % 2 ^ 32;
        })
  unfolding fuse_request_send_nowait queue_request register
  send_queues open_conn room =
      let (uid, fc₁, e) = get-runs n cpu here fc inv.ids room in
      let (f, m) = get-Frame cpu uid fc fc₁ e in
      let t = get-Taken n cpu here uid fc fc₁ inv.ids e in
      let reg = register-Inv n cpu uid r fc fc₁ here inv fresh e in
      (
        emit (queue_request (register fc₁ r uid) r) woken,
        ground arith,
        queue-Inv n r (register fc₁ r uid) reg (ground arith) (ground (arith, fresh-unlisted)),
        ground arith,
        ground arith,
        find-Mapped (emit (queue_request (register fc₁ r uid) r) woken) r (ground arith),
        ground (arith, t.nonzero),
        ground (arith, f.reqs),
      )

  Ended-Refused :
      (uid : ℕ) (fc₁ fc' : FuseConn)
      → Frame fc fc₁
      → Ended n r (set_error (register fc₁ r uid) r enotconn) fc'
      → Refused n r fc fc'
  unfolding register request_find
  Ended-Refused uid fc₁ fc' f ended = (
    ended.inv,
    ended.pending
        ∙ ap (list_del r) f.pending
        ∙ list_del-absent r fc.pending (omega (arith, fresh-unlisted)),
    ended.processing
        ∙ ap (list_del r) f.processing
        ∙ list_del-absent r fc.processing (omega (arith, fresh-unlisted)),
    ground (arith, ended.trace, f.trace, f.reqs),
    rw (ended.request_map, ended.reqs) (ground arith),
  )

  -- On a connection that is closed for good, a sent request ends at once with -ENOTCONN: its
  -- callback is called with it, the lists stay, and a reply with its id finds nothing.
  pub send_enotconn :
      (fc.connected || fc.allow_disconnected) ≡ false
      → Room n fc
      → (fc' : FuseConn) × (fuse_request_send_nowait cpu fc r ≡ some fc') × Refused n r fc fc'
  unfolding fuse_request_send_nowait register
  send_enotconn closed room =
      let (uid, fc₁, e) = get-runs n cpu here fc inv.ids room in
      let (f, m) = get-Frame cpu uid fc fc₁ e in
      let fc₂ = register fc₁ r uid in
      let reg = register-Inv n cpu uid r fc fc₁ here inv fresh e in
      let (fc', done, ended) =
        end-Ended n cpu r (set_error fc₂ r enotconn) here (set_error-Inv n r enotconn fc₂ reg)
          (ground arith) in
      (fc', ground arith, Ended-Refused uid fc₁ fc' f ended)
