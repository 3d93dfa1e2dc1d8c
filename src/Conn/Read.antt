-- ===== src/Conn/Read.antt =====
-- dev.c: fuse_dev_do_read. A reader takes as many pending requests as fit its buffer, moves them to
-- the list of those being processed, and copies them out with the lock released.
pub mod Select
pub mod Shown
pub mod Deliver
pub mod Laws
use pxmod.Common.{
  ℕ, zero, suc, ◌+◌, ◌-◌, ◌%◌, ◌⊎◌, inl, inr, Bool, true, false, ◌&&◌, not, Option, none, some,
  List, [], ◌∷◌, ◌++◌, ◌==◌, leb, ltb, if◌then◌else◌, ◌>>=◌, is_empty,
}
use pxmod.Common.Int.{
  ℤ, pos, ◌+ℤ◌, is_zero, is_pos, efault, eio, einval, eagain, enodev, erestartsys,
}
use pxmod.Conn.State.{FuseConn, FuseReq}
use pxmod.Conn.Opcode.{pxd_write}
use pxmod.Conn.Requests.{request_end, request_pending, set_req, set_error, in_header_size}
use pxmod.Conn.ZeroPage.{fuse_convert_zero_writes}
use pxmod.Conn.Iter.{IovIter, Chunk, header, argument}

-- The requests that are taken, those that stay pending, and the room that is left: the walk over
-- fc->pending, from its head to the first request that does not fit.
pub record Selection : Type 0 where
  pub taken : List ℕ
  pub rest : List ℕ
  pub remain : ℕ

unfoldable pub select : (ℕ → FuseReq) → List ℕ → ℕ → Selection
select reqs [] remain = record { taken = []; rest = []; remain = remain }
select reqs (r ∷ rs) remain =
    let more = select reqs rs (remain - (reqs r).len) in
    if leb (reqs r).len remain
    then record more { taken = r ∷ more.taken }
    else record { taken = []; rest = r ∷ rs; remain = 0 }

-- A write that is not a flush and may be all zeroes.
unfoldable pub may_be_zero : Bool → FuseReq → Bool
may_be_zero pxd_detect_zero_writes req =
    pxd_detect_zero_writes
    && req.opcode == pxd_write
    && not (req.rdwr_in.size == 0)
    && req.rdwr_in.flags % 4 == 0

unfoldable pub convert_if : Bool → FuseReq → FuseReq
unfolding may_be_zero
convert_if detect req = if may_be_zero detect req then fuse_convert_zero_writes req else req

module _ (io : IovIter) where
  open io use {Iter, count, copy_to_iter}

  -- How much was copied, or -EFAULT.
  unfoldable pub fuse_copy_req_read : FuseReq → Iter → ℤ × Iter
  fuse_copy_req_read req it =
      let (copied, it) = copy_to_iter (header req) in_header_size it in
      if copied == in_header_size
      then (let len = req.arg_size 0 in
          let (copied, it) = copy_to_iter (argument req.rdwr_in) len it in
          if copied == len then (pos (in_header_size + len), it) else (efault, it))
      else (efault, it)

  -- The state of the loop over the requests that were taken.
  pub record Delivery : Type 0 where
    pub copied : ℤ
    pub err : ℤ
    pub iter : Iter
    pub fc : FuseConn

  -- One request: copied out, or ended with -EIO.
  unfoldable pub deliver_one : ℕ → ℕ → Delivery → Option Delivery
  unfolding fuse_copy_req_read
  deliver_one cpu r d =
      let (this_time, it) = fuse_copy_req_read (d.fc.reqs r) d.iter in
      if is_pos this_time
      then some (record d { copied = d.copied +ℤ this_time; iter = it })
      else (request_end cpu (set_error d.fc r eio) r >>= λ fc.
          some (record d { err = this_time; iter = it; fc = fc }))

  unfoldable pub deliver : Bool → ℕ → List ℕ → Delivery → Option Delivery
  deliver detect cpu [] d = some d
  deliver detect cpu (r ∷ rs) d =
      deliver_one cpu r (record d { fc = set_req d.fc r (convert_if detect (d.fc.reqs r)) })
      >>= deliver detect cpu rs

  -- One round from the label `retry`: a result, or what was delivered and the room that is left.
  unfoldable pub read_round : Bool → ℕ → ℤ → ℕ → Iter → FuseConn → Option (ℤ ⊎ (Delivery × ℕ))
  read_round detect cpu copied remain it fc =
      let s = select fc.reqs fc.pending remain in
      if is_empty s.taken
      then some (inl (if is_zero copied then einval else copied))
      else (deliver detect cpu s.taken (record {
        copied = copied;
        err = pos 0;
        iter = it;
        fc = record fc { pending = s.rest; processing = fc.processing ++ s.taken };
      })
          >>= λ d.
              some (
                inr (record d { copied = if is_zero d.copied then d.err else d.copied }, s.remain)))

  -- The rounds. `acts` are what other threads do to the connection while the lock is released, one
  -- for each round; after the last of them there is no further round, and `none` would say that
  -- there is one.
  unfoldable pub read_rounds :
      Bool → ℕ → List (FuseConn → FuseConn) → ℤ → ℕ → Iter → FuseConn → Option (ℤ × Iter × FuseConn)
  read_rounds detect cpu [] copied remain it fc = read_round detect cpu copied remain it fc >>= λ o.
      elim o [
        | inl result ↦ some (result, it, fc)
        | inr (d, left) ↦
            if not (left == 0) && request_pending d.fc then none else some (d.copied, d.iter, d.fc)
      ]
  read_rounds detect cpu (act ∷ acts) copied remain it fc =
      read_round detect cpu copied remain it fc >>= λ o. elim o [
        | inl result ↦ some (result, it, fc)
        | inr (d, left) ↦
            let retry = read_rounds detect cpu acts d.copied left d.iter (act d.fc) in
            if not (left == 0) && request_pending (act d.fc)
            then retry
            else some (d.copied, d.iter, act d.fc)
      ]

  -- `nonblock` is O_NONBLOCK, and `wait` what happens to the connection during request_wait.
  unfoldable pub fuse_dev_do_read :
      Bool
      → ℕ
      → Bool
      → (FuseConn → FuseConn)
      → List (FuseConn → FuseConn)
      → Iter
      → FuseConn
      → Option (ℤ × Iter × FuseConn)
  fuse_dev_do_read detect cpu nonblock wait acts it fc =
      if request_pending fc
      then read_rounds detect cpu acts (pos 0) (count it) it fc
      else if nonblock && fc.connected
      then some (eagain, it, fc)
      else (let fc = wait fc in
          if not fc.connected
          then some (enodev, it, fc)
          else if not (request_pending fc)
          then some (erestartsys, it, fc)
          else read_rounds detect cpu acts (pos 0) (count it) it fc)
