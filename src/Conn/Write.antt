-- ===== src/Conn/Write.antt =====
-- dev.c: fuse_dev_do_write: a reply to a request, or a message that is none.
pub mod Laws
pub mod Reply
use pxmod.Common.{
  ℕ, zero, suc, ◌+◌, ◌-◌, Bool, true, false, Option, none, some, List, [], ◌∷◌, ◌==◌, if◌then◌else◌,
  ◌||◌, ◌&&◌, not, length, ltb, leb, ◌>>=◌, list_del,
}
use pxmod.Common.Int.{ℤ, pos, negsuc, is_zero, efault, einval, enoent}
use pxmod.Conn.State.{FuseConn, FuseReq}
use pxmod.Conn.Opcode.{pxd_read}
use pxmod.Conn.Requests.{request_find, request_end, unlink, set_req}
use pxmod.Conn.Source.{UserSource}
use pxmod.Conn.Source.Layout.{OutHeader, out_header_size, load_out_header}
use pxmod.Conn.Notify.{DeviceOps, fuse_notify}
use pxmod.Conn.Notify.ReadData.{UserDest}

-- oh.error <= -1000 || oh.error > 0.
abbrev pub bad_error : ℤ → Bool
bad_error (pos n) = ltb 0 n
bad_error (negsuc n) = leb 999 n

-- req->out.h = oh: of the reply's header the error matters later.
abbrev pub set_out_header : FuseConn → ℕ → OutHeader → FuseConn
set_out_header fc r oh = set_req fc r (record (fc.reqs r) { error = oh.error })

module _ (source : UserSource) where
  open source use {Src, count, copy_from_iter}

  -- The bytes that were copied stand at the start of the segment.
  unfoldable pub overwrite : List ℕ → List ℕ → List ℕ
  overwrite [] p = p
  overwrite (b ∷ bs) [] = []
  overwrite (b ∷ bs) (x ∷ p) = b ∷ overwrite bs p

  -- rq_for_each_segment: each segment is filled from the reply. Whether all were, the segments, and
  -- what is left of the reply.
  unfoldable pub copy_pages : List (List ℕ) → Src → Bool × List (List ℕ)
  copy_pages [] it = (true, [])
  copy_pages (p ∷ segments) it =
      let (b, it) = copy_from_iter (length p) it in
      let rest = copy_pages segments it in
      if length b == length p then (rest.0, b ∷ rest.1) else (false, overwrite b p ∷ segments)

  -- The error, and the connection; `none` is a BUG_ON of request_end.
  unfoldable pub reply_data : ℕ → FuseConn → ℕ → Src → Option (ℤ × FuseConn)
  unfolding copy_pages
  reply_data cpu fc r it =
      let req = fc.reqs r in
      let (all, segments) = copy_pages req.segments it in
      if req.opcode == pxd_read && ltb 0 (count it)
      then (let fc = set_req fc r (record req { segments = segments }) in
          if all then request_end cpu fc r >>= (λ fc. some (pos 0, fc)) else some (efault, fc))
      else request_end cpu fc r >>= (λ fc. some (pos 0, fc))

  module _ (dest : UserDest) {Ctx : Type 0} (ops : DeviceOps Ctx) where
    -- What a write leaves: the connection, the user's memory and the context of the devices.
    pub record World : Type 0 where
      pub fc : FuseConn
      pub mem : dest.Mem
      pub ctx : Ctx

    abbrev or_nbytes : ℤ → ℕ → ℤ
    or_nbytes err nbytes = if is_zero err then pos nbytes else err

    unfoldable pub write_reply : ℕ → ℕ → OutHeader → Src → World → Option (ℤ × World)
    write_reply cpu nbytes oh it w =
        if bad_error oh.error then some (einval, w) else elim (request_find w.fc oh.unique) [
          | none ↦ some (enoent, w)
          | some r ↦
              (let run = reply_data cpu (set_out_header (unlink w.fc r) r oh) r it in
                if not w.fc.connected
                then some (enoent, w)
                else (run >>= λ (err, fc). some (or_nbytes err nbytes, record w { fc = fc })))
        ]

    unfoldable pub write_notify : ℕ → OutHeader → Src → World → Option (ℤ × World)
    write_notify nbytes oh it w =
        fuse_notify source ops dest w.fc oh.error it w.mem w.ctx >>= λ (err, mem, ctx).
        some (or_nbytes err nbytes, record w { mem = mem; ctx = ctx })

    unfoldable pub fuse_dev_do_write : ℕ → Src → World → Option (ℤ × World)
    fuse_dev_do_write cpu it w =
        let nbytes = count it in
        let (b, it) = copy_from_iter out_header_size it in
        let oh = load_out_header b in
        if ltb nbytes out_header_size
        then some (einval, w)
        else if not (length b == out_header_size)
        then some (efault, w)
        else if not (oh.len == nbytes)
        then some (einval, w)
        else if oh.unique == 0
        then write_notify nbytes oh it w
        else write_reply cpu nbytes oh it w
