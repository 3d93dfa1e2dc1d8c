-- ===== src/Conn/Write/Laws.antt =====
-- What a reply does to the request that it finds (dev.c, fuse_dev_do_write).
use pxmod.Common.{
  ℕ, ap, ◌∙◌, ◌<◌, ◌≡◌, refl, fun_ext, arith, none, some, ◌++◌, occurs-list_del, list_del,
  list_del-absent,
}
use pxmod.Common.Int.{ℤ}
use pxmod.Conn.State.{FuseConn, FuseReq}
use pxmod.Conn.Requests.{request_find, request_end, unlink, set_req}
use pxmod.Conn.Requests.Invariant.{ConnInv, Mapped, IdsInv-cong, end-Ended, end_events}
use pxmod.Conn.Account.{Goes, leave-Goes}
use pxmod.Conn.Lifecycle.Abort.{find-empty}

-- A request that a reply has found: off the lists, with other data, under the same id.
abbrev pub taken_off : FuseConn → ℕ → FuseReq → FuseConn
taken_off fc r req = set_req (unlink fc r) r req

pub taken_off-Inv :
    (n r : ℕ) (fc : FuseConn) (req : FuseReq)
    → ConnInv n fc
    → req.unique ≡ (fc.reqs r).unique
    → ConnInv n (taken_off fc r req)
unfolding unlink
taken_off-Inv n r fc req inv same = record {
  ids = IdsInv-cong n fc (taken_off fc r req) refl refl refl refl inv.ids;
  own_slot = λ i q p. ground (arith, inv.own_slot i q);
  listed = λ q.
      ground
        (arith, inv.listed q, occurs-list_del q r fc.pending, occurs-list_del q r fc.processing);
}

pub taken_off-Mapped :
    (r : ℕ) (fc : FuseConn) (req : FuseReq)
    → Mapped fc r
    → req.unique ≡ (fc.reqs r).unique
    → Mapped (taken_off fc r req) r
unfolding unlink
taken_off-Mapped r fc req m same = ground arith

-- The reply has ended the request: it is on no list, no later reply finds it, and its callback has
-- been called once with the error of the reply.
pub record Replied (n r : ℕ) (e : ℤ) (fc fc' : FuseConn) : Type 0 where
  pub inv : ConnInv n fc'
  pub pending : fc'.pending ≡ list_del r fc.pending
  pub processing : fc'.processing ≡ list_del r fc.processing
  pub gone : request_find fc' (fc.reqs r).unique ≡ none
  pub trace : fc'.trace ≡ end_events r (record (fc.reqs r) { error = e }) ++ fc.trace
  pub goes : Goes n fc fc'

-- A request that is on one list at most is off it after one list_del.
pub list_del-again :
    (n r : ℕ) (fc : FuseConn)
    → ConnInv n fc
    → (list_del r (list_del r fc.pending) ≡ list_del r fc.pending)
      × (list_del r (list_del r fc.processing) ≡ list_del r fc.processing)
list_del-again n r fc inv = (
  list_del-absent r (list_del r fc.pending)
      (ground (arith, inv.listed r, occurs-list_del r r fc.pending)),
  list_del-absent r (list_del r fc.processing)
      (ground (arith, inv.listed r, occurs-list_del r r fc.processing)),
)

-- request_end on a request that a reply has taken off its list.
pub reply-Replied :
    (n cpu r : ℕ) (fc : FuseConn) (req : FuseReq)
    → cpu < n
    → ConnInv n fc
    → Mapped fc r
    → req.unique ≡ (fc.reqs r).unique
    → req.end ≡ (fc.reqs r).end
    → (fc' : FuseConn) × (request_end cpu (taken_off fc r req) r ≡ some fc')
      × Replied n r req.error fc fc'
unfolding unlink
reply-Replied n cpu r fc req here inv m same_id same_end =
    let (fc', e, d) =
      end-Ended n cpu r (taken_off fc r req) here (taken_off-Inv n r fc req inv same_id)
        (taken_off-Mapped r fc req m same_id) in
    (
      fc',
      e,
      record {
        inv = d.inv;
        pending = d.pending ∙ (list_del-again n r fc inv).0;
        processing = d.processing ∙ (list_del-again n r fc inv).1;
        gone = find-empty fc' (fc.reqs r).unique (ground (arith, d.request_map));
        trace = ground (arith, d.trace);
        goes =
            leave-Goes n r fc fc' req inv m d.inv same_end
              (d.pending ∙ (list_del-again n r fc inv).0)
              (d.processing ∙ (list_del-again n r fc inv).1) (ground (arith, d.request_map))
              (λ s. ground (arith, ap (λ f. (f s).unique) d.reqs, ap (λ f. (f s).end) d.reqs))
              (ground (arith, d.trace)) d.connected d.allow_disconnected;
      },
    )

-- The request that a reply finds.
pub find-only :
    (fc : FuseConn) (u r : ℕ)
    → request_find fc u ≡ some r
    → (Mapped fc r) × ((fc.reqs r).unique ≡ u)
unfolding request_find
find-only fc u r h = ground arith

pub set-twice :
    (fc : FuseConn) (r : ℕ) (a b : FuseReq) → set_req (set_req fc r a) r b ≡ set_req fc r b
set-twice fc r a b = ap (λ f. record fc { reqs = f }) (fun_ext (λ i. ground arith))

pub at-taken_off : (fc : FuseConn) (r : ℕ) (req : FuseReq) → (taken_off fc r req).reqs r ≡ req
at-taken_off fc r req = ground arith
