-- ===== src/Conn/Write/Reply.antt =====
-- A reply with a good header (dev.c, fuse_dev_do_write).
use pxmod.Common.{
  ℕ, ap, ◌∙◌, subst, ◌+◌, ◌<◌, ◌≡◌, ◌≢◌, refl, arith, Bool, true, false, none, some, inl, inr, ◌⊎◌,
  List, ◌==◌, if◌then◌else◌, ◌>>=◌, ◌&&◌, length, ltb, occurs, occurs-list_del, Bool-cases,
  Option-cases,
}
use pxmod.Common.Int.{ℤ, pos, efault, einval, enoent}
use pxmod.Conn.State.{FuseConn, FuseReq}
use pxmod.Conn.Opcode.{pxd_read}
use pxmod.Conn.Requests.{request_find, request_end, unlink, set_req}
use pxmod.Conn.Requests.Invariant.{ConnInv, Mapped}
use pxmod.Conn.Requests.Laws.{find-Mapped}
use pxmod.Conn.Source.{UserSource}
use pxmod.Conn.Source.Layout.{OutHeader, out_header_size, load_out_header}
use pxmod.Conn.Notify.{DeviceOps}
use pxmod.Conn.Notify.ReadData.{UserDest}
use pxmod.Conn.Write.{bad_error, copy_pages, reply_data, World, write_reply, fuse_dev_do_write}
use pxmod.Conn.Write.Laws.{
  taken_off, taken_off-Inv, taken_off-Mapped, Replied, reply-Replied, set-twice, at-taken_off,
}

-- The request is on no list and nobody has been told, but its id still finds it.
pub record Halfway (n r : ℕ) (fc fc' : FuseConn) : Type 0 where
  pub inv : ConnInv n fc'
  pub found : request_find fc' (fc.reqs r).unique ≡ some r
  pub unlisted : occurs r fc'.pending + occurs r fc'.processing ≡ 0
  pub trace : fc'.trace ≡ fc.trace

module _ (source : UserSource) (n cpu : ℕ) (here : cpu < n) where
  open source use {Src, count, copy_from_iter}

  -- A reply that carries data for a read request, which is copied into its pages.
  abbrev pub carries_data : FuseReq → Src → Bool
  carries_data req it = req.opcode == pxd_read && ltb 0 (count it)

  data-run :
      (r : ℕ) (fc : FuseConn) (req : FuseReq) (it : Src)
      → fc.reqs r ≡ req
      → carries_data req it ≡ true
      → reply_data source cpu fc r it ≡ (
          let (all, segments) = copy_pages source req.segments it in
          let fc = set_req fc r (record req { segments = segments }) in
          if all then request_end cpu fc r >>= (λ fc. some (pos 0, fc)) else some (efault, fc))
  unfolding reply_data
  data-run r fc req it e c = rw (e, c) refl

  no_data-run :
      (r : ℕ) (fc : FuseConn) (req : FuseReq) (it : Src)
      → fc.reqs r ≡ req
      → carries_data req it ≡ false
      → reply_data source cpu fc r it ≡ (request_end cpu fc r >>= (λ fc. some (pos 0, fc)))
  unfolding reply_data
  no_data-run r fc req it e c = rw (e, c) refl

  -- The data of the reply fills the pages, or there is none to copy.
  pub reply_data-Replied :
      (r : ℕ) (fc : FuseConn) (e : ℤ) (it : Src)
      → ConnInv n fc
      → Mapped fc r
      → (carries_data (fc.reqs r) it ≡ true → (copy_pages source (fc.reqs r).segments it).0 ≡ true)
      → (fc' : FuseConn) × (reply_data source cpu
            (taken_off fc r (record (fc.reqs r) { error = e }))
            r
            it
          ≡ some (pos 0, fc'))
        × Replied n r e fc fc'
  reply_data-Replied r fc e it inv m filled =
      let old = record (fc.reqs r) { error = e } in
      let new = record old { segments = (copy_pages source (fc.reqs r).segments it).1 } in
      let at = at-taken_off fc r old in
      elim (Bool-cases (carries_data (fc.reqs r) it)) [
        | inl data_there ↦
            let (fc', run, d) = reply-Replied n cpu r fc new here inv m refl refl in
            (
              fc',
              data-run r (taken_off fc r old) old it at data_there
                  ∙ rw (filled data_there, set-twice (unlink fc r) r old new, run) refl,
              d,
            )
        | inr no_data ↦
            let (fc', run, d) = reply-Replied n cpu r fc old here inv m refl refl in
            (fc', no_data-run r (taken_off fc r old) old it at no_data ∙ rw run refl, d)
      ]

  -- The copy of the data stops early: the request has left its list, and it keeps its id.
  pub reply_data-efault :
      (r : ℕ) (fc : FuseConn) (e : ℤ) (it : Src)
      → ConnInv n fc
      → Mapped fc r
      → carries_data (fc.reqs r) it ≡ true
      → (copy_pages source (fc.reqs r).segments it).0 ≡ false
      → (fc' : FuseConn) × (reply_data source cpu
            (taken_off fc r (record (fc.reqs r) { error = e }))
            r
            it
          ≡ some (efault, fc'))
        × Halfway n r fc fc'
  unfolding unlink
  reply_data-efault r fc e it inv m data_there stops =
      let old = record (fc.reqs r) { error = e } in
      let new = record old { segments = (copy_pages source (fc.reqs r).segments it).1 } in
      (
        taken_off fc r new,
        data-run r (taken_off fc r old) old it (at-taken_off fc r old) data_there
            ∙ rw (stops, set-twice (unlink fc r) r old new) refl,
        record {
          inv = taken_off-Inv n r fc new inv refl;
          found =
              subst (λ q. request_find (taken_off fc r new) q.unique ≡ some r)
                (at-taken_off fc r new)
                (find-Mapped (taken_off fc r new) r (taken_off-Mapped r fc new m refl));
          unlisted = ground (
            arith,
            inv.listed r,
            occurs-list_del r r fc.pending,
            occurs-list_del r r fc.processing,
          );
          trace = refl;
        },
      )

  module _ (dest : UserDest) {Ctx : Type 0} (ops : DeviceOps Ctx) where
    -- A header that arrives whole and gives the length of the message and an id.
    pub record GoodHeader (it : Src) (oh : OutHeader) (rest : Src) : Type 0 where
      pub bytes : List ℕ
      pub copied : copy_from_iter out_header_size it ≡ (bytes, rest)
      pub whole : length bytes ≡ out_header_size
      pub loaded : load_out_header bytes ≡ oh
      pub len : oh.len ≡ count it
      pub reply : oh.unique ≢ 0

    do_write-reply :
        (it rest : Src) (oh : OutHeader) (w : World source dest ops)
        → GoodHeader it oh rest
        → fuse_dev_do_write source dest ops cpu it w
          ≡ write_reply source dest ops cpu (count it) oh rest w
    unfolding fuse_dev_do_write
    do_write-reply it rest oh w h =
        let enough : ltb (count it) out_header_size ≡ false =
          ground (arith, source.count-copy out_header_size it, h.copied, h.whole) in
        let whole : (length h.bytes == out_header_size) ≡ true = ground (arith, h.whole) in
        let len : (oh.len == count it) ≡ true = ground (arith, h.len) in
        let reply : (oh.unique == 0) ≡ false = ground (arith, h.reply) in
        rw (enough, h.copied, whole, h.loaded, len, reply) refl

    -- A reply with a good header to a request that is in flight, on a connection that is not closed,
    -- with an error code in range and with data that fills the pages if it carries data for a read:
    -- it is taken as a whole, and ends its request with its error.
    pub write-Replied :
        (r : ℕ) (it rest : Src) (oh : OutHeader) (w : World source dest ops)
        → ConnInv n w.fc
        → Mapped w.fc r
        → w.fc.connected ≡ true
        → GoodHeader it oh rest
        → oh.unique ≡ (w.fc.reqs r).unique
        → bad_error oh.error ≡ false
        → (carries_data (w.fc.reqs r) rest ≡ true
            → (copy_pages source (w.fc.reqs r).segments rest).0 ≡ true)
        → (fc' : FuseConn) × (fuse_dev_do_write source dest ops cpu it w
            ≡ some (pos (count it), record w { fc = fc' }))
          × Replied n r oh.error w.fc fc'
    unfolding write_reply unlink
    write-Replied r it rest oh w inv m on h id good filled =
        let (fc', run, d) = reply_data-Replied r w.fc oh.error rest inv m filled in
        let found : request_find w.fc oh.unique ≡ some r =
          ap (request_find w.fc) id ∙ find-Mapped w.fc r m in
        (fc', do_write-reply it rest oh w h ∙ rw (good, found, run, on) refl, d)

    -- A reply as before, but with data that stops before the pages are full: the writer gets -EFAULT,
    -- and the request is on no list, but its id still finds it, and nobody was told.
    pub write-Halfway :
        (r : ℕ) (it rest : Src) (oh : OutHeader) (w : World source dest ops)
        → ConnInv n w.fc
        → Mapped w.fc r
        → w.fc.connected ≡ true
        → GoodHeader it oh rest
        → oh.unique ≡ (w.fc.reqs r).unique
        → bad_error oh.error ≡ false
        → carries_data (w.fc.reqs r) rest ≡ true
        → (copy_pages source (w.fc.reqs r).segments rest).0 ≡ false
        → (fc' : FuseConn) × (fuse_dev_do_write source dest ops cpu it w
            ≡ some (efault, record w { fc = fc' }))
          × Halfway n r w.fc fc'
    unfolding write_reply unlink
    write-Halfway r it rest oh w inv m on h id good data_there stops =
        let (fc', run, d) = reply_data-efault r w.fc oh.error rest inv m data_there stops in
        let found : request_find w.fc oh.unique ≡ some r =
          ap (request_find w.fc) id ∙ find-Mapped w.fc r m in
        (fc', do_write-reply it rest oh w h ∙ rw (good, found, run, on) refl, d)

    -- A reply with a good header whose error code is out of range, whose id finds nothing, or that
    -- comes after the connection is closed, changes nothing: it is refused with -EINVAL or -ENOENT.
    pub write-refused :
        (it rest : Src) (oh : OutHeader) (w : World source dest ops)
        → GoodHeader it oh rest
        → (bad_error oh.error ≡ true)
          ⊎ (request_find w.fc oh.unique ≡ none)
          ⊎ (w.fc.connected ≡ false)
        → (fuse_dev_do_write source dest ops cpu it w ≡ some (einval, w))
          ⊎ (fuse_dev_do_write source dest ops cpu it w ≡ some (enoent, w))
    unfolding write_reply
    write-refused it rest oh w h why = elim (Bool-cases (bad_error oh.error)) [
      | inl bad ↦ inl (do_write-reply it rest oh w h ∙ rw bad refl)
      | inr good ↦ inr (elim (Option-cases (request_find w.fc oh.unique)) [
        | inl nothing ↦ do_write-reply it rest oh w h ∙ rw (good, nothing) refl
        | inr (r, found) ↦
            let off : w.fc.connected ≡ false = ground arith in
            do_write-reply it rest oh w h ∙ rw (good, found, off) refl
      ])
    ]
