-- ===== src/Conn/Requests/Ready.antt =====
-- A connection that can take one more request (dev.c).
use pxmod.Common.{◌<◌, ◌≡◌, refl, arith, ℕ, true, ◌||◌}
use pxmod.Conn.State.{FuseConn, FuseReq, slot}
use pxmod.Conn.Requests.{set_req}
use pxmod.Conn.Requests.Invariant.{ConnInv, Fresh, IdsInv-cong}
use pxmod.Conn.Requests.Laws.{Room}

-- A request that no id leads to can be written over.
pub set_req-Inv :
    (n r : ℕ) (fc : FuseConn) (req : FuseReq)
    → ConnInv n fc
    → Fresh fc r
    → ConnInv n (set_req fc r req)
set_req-Inv n r fc req inv fresh = record {
  ids = IdsInv-cong n fc (set_req fc r req) refl refl refl refl inv.ids;
  own_slot = λ i q p. ground (arith, inv.own_slot i q, fresh i);
  listed = λ q. ground (arith, inv.listed q, fresh (slot (fc.reqs q).unique));
}

-- A connection that takes requests, with a free id, and memory for a request.
pub record Ready (n cpu r : ℕ) (fc : FuseConn) : Type 0 where
  pub here : cpu < n
  pub inv : ConnInv n fc
  pub takes : (fc.connected || fc.allow_disconnected) ≡ true
  pub room : Room n fc
  pub fresh : Fresh fc r

-- A connection with a free id, and memory for a request, whether it takes requests or not.
pub record HasRoom (n cpu r : ℕ) (fc : FuseConn) : Type 0 where
  pub here : cpu < n
  pub inv : ConnInv n fc
  pub room : Room n fc
  pub fresh : Fresh fc r
