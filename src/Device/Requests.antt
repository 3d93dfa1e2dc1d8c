-- ===== src/Device/Requests.antt =====
-- pxd.c: the request that the driver makes from a request of the block layer. `convert` is the
-- setting pxd_detect_zero_writes. The build is the one with the multi-queue block layer, in which
-- pxd_handle_device_limits does nothing.
use pxmod.Common.{
  ℕ, ◌+◌, ◌/◌, ◌%◌, ◌<◌, ◌≡◌, refl, arith, some, Bool, true, false, ◌&&◌, ◌||◌, not, ◌==◌,
  if◌then◌else◌, ◌⊎◌,
}
use pxmod.Common.Int.{ℤ, pos, negsuc}
use pxmod.Conn.State.{FuseReq}
use pxmod.Conn.Opcode.{
  pxd_write, pxd_read, pxd_discard, pxd_write_same, pxd_flags_flush, pxd_flags_meta,
}
use pxmod.Conn.ZeroPage.{fuse_convert_zero_writes}
use pxmod.Device.State.{Device}

-- req_op of the block layer.
pub data BlockOp : Type 0 where
  req_op_read : BlockOp
  req_op_write : BlockOp
  req_op_discard : BlockOp
  req_op_write_zeroes : BlockOp
  req_op_flush : BlockOp
  req_op_other : BlockOp

-- The flags of a request of the block layer that the driver looks at.
pub record BlockFlags : Type 0 where
  pub fua : Bool
  pub preflush : Bool
  pub meta : Bool

-- FUA and PREFLUSH are both sent as a flush.
unfoldable pub rdwr_flags : BlockFlags → ℕ
rdwr_flags f =
    (if f.fua || f.preflush then pxd_flags_flush else 0) + (if f.meta then pxd_flags_meta else 0)

-- sizeof (struct pxd_rdwr_in).
abbrev pub rdwr_in_size : ℕ
rdwr_in_size = 40

unfoldable pub pxd_req_misc : FuseReq → ℕ → ℕ → ℕ → BlockFlags → FuseReq
unfolding rdwr_flags
pxd_req_misc req size off minor flags = record req {
  numargs = 1;
  arg_size = λ i. if i == 0 then rdwr_in_size else req.arg_size i;
  rdwr_in = record { dev_minor = minor; offset = off; size = size; flags = rdwr_flags flags };
}

-- `done` is the callback, pxd_process_read_reply_q or pxd_process_write_reply_q.
unfoldable pub make_request : ℕ → (ℤ → Bool) → FuseReq → ℕ → ℕ → ℕ → BlockFlags → FuseReq
unfolding pxd_req_misc
make_request opcode done req size off minor flags =
    pxd_req_misc (record req { opcode = opcode; end = some done }) size off minor flags

-- With the multi-queue block layer the request belongs to its queue: neither callback has it freed.
abbrev pub pxd_process_reply : ℤ → Bool
pxd_process_reply status = false

unfoldable pub pxd_read_request : FuseReq → ℕ → ℕ → ℕ → BlockFlags → FuseReq
unfolding make_request
pxd_read_request = make_request pxd_read pxd_process_reply

unfoldable pub pxd_write_request : Bool → FuseReq → ℕ → ℕ → ℕ → BlockFlags → FuseReq
unfolding make_request
pxd_write_request convert req size off minor flags =
    let req = make_request pxd_write pxd_process_reply req size off minor flags in
    if convert && not (size == 0) then fuse_convert_zero_writes req else req

unfoldable pub pxd_discard_request : FuseReq → ℕ → ℕ → ℕ → BlockFlags → FuseReq
unfolding make_request
pxd_discard_request = make_request pxd_discard pxd_process_reply

unfoldable pub pxd_write_same_request : FuseReq → ℕ → ℕ → ℕ → BlockFlags → FuseReq
unfolding make_request
pxd_write_same_request = make_request pxd_write_same pxd_process_reply

-- The result, the request, and the device, whose requests in flight are counted.
unfoldable pub pxd_request :
    Bool → FuseReq → ℕ → ℕ → ℕ → BlockOp → BlockFlags → Device → ℤ × FuseReq × Device
unfolding pxd_read_request pxd_write_request pxd_discard_request pxd_write_same_request
pxd_request convert req size off minor op flags d =
    let counted = record d { ncount = d.ncount + 1 } in
    elim op [
      | req_op_read ↦ (pos 0, pxd_read_request req size off minor flags, counted)
      | req_op_write ↦ (pos 0, pxd_write_request convert req size off minor flags, counted)
      | req_op_discard ↦ (pos 0, pxd_discard_request req size off minor flags, counted)
      | req_op_write_zeroes ↦ (pos 0, pxd_write_same_request req size off minor flags, counted)
      | req_op_flush ↦ (
        pos 0,
        pxd_write_request convert req 0 0 minor
            (record { fua = true; preflush = false; meta = false }),
        counted,
      )
      | req_op_other ↦ (negsuc 0, req, d)
    ]

-- A write of zero bytes is never made a discard, so a flush stays one: it is sent as a write of
-- size 0 with the flush flag, whatever the setting and the data, and it is counted.
pub request-flush :
    (convert : Bool) (req : FuseReq) (size off minor : ℕ) (flags : BlockFlags) (d : Device)
    → let (rc, sent, d') = pxd_request convert req size off minor req_op_flush flags d in
      (rc ≡ pos 0)
      × (sent.opcode ≡ pxd_write)
      × (sent.rdwr_in ≡ record { dev_minor = minor; offset = 0; size = 0; flags = pxd_flags_flush })
      × (d'.ncount ≡ d.ncount + 1)
unfolding pxd_request pxd_write_request make_request pxd_req_misc rdwr_flags
request-flush convert req size off minor flags d = (refl, ground arith, ground arith, refl)

-- The flags of a message that asks for a flush if FUA or PREFLUSH is set, and for metadata.
abbrev pub FlagsAre : BlockFlags → ℕ → Type 0
FlagsAre f flags =
    (((f.fua ≡ true) ⊎ (f.preflush ≡ true)) × (flags % 2 ≡ 1)
      ⊎ ((f.fua ≡ false) × (f.preflush ≡ false) × (flags % 2 ≡ 0)))
    × ((f.meta ≡ true) × (flags / 4 % 2 ≡ 1) ⊎ ((f.meta ≡ false) × (flags / 4 % 2 ≡ 0)))
    × (flags / 2 % 2 ≡ 0)
    × (flags < 8)
